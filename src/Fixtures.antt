-- ===== src/Fixtures.antt =====
-- A small bank in memory, on which the theorems are applied and the operations run.
use online_banking.Numbers.{Numbers, exactly}
use online_banking.Base.{ℕ, ◌+◌, ◌≡◌, refl, true, false, none, some, [], ◌∷◌}
use online_banking.Base.Int.{ℤ, pos, negsuc, pos_part, neg_part, ◌+ℤ◌, ◌-ℤ◌}
use online_banking.Base.Text.{Text, codes}
use online_banking.Schema.{
  CustomerProfile, KycStatus, Account, AccountStatus, BeneficiaryStatus, MerchantStatus, Db, Card,
  CardType, CardStatus,
}
use online_banking.Prisma.Memory.{memory, alone}
use online_banking.Redis.{step_up, challenge, reveal, password}
use online_banking.Cards.{CardDraw}
use online_banking.Beneficiaries.{CreateBeneficiaryDto}
use online_banking.Redis.Memory.{memory_redis}
use online_banking.Services.{Services, World, Draw}
use online_banking.Auth.Types.{JwtAccessPayload}
use online_banking.Payments.Types.{
  Formats, Canonical, of_transfer, of_beneficiary, of_merchant, CreateTransferDto,
  TransferToBeneficiaryDto, PayMerchantDto, beneficiary_transfer, PendingPayment,
}
use online_banking.Payments.Fraud.{Challenge}

-- a digest that keeps amounts and ids apart
abbrev plain_digest : Canonical → Text
plain_digest (of_transfer a c d x y) = 1 ∷ pos_part a ∷ x ∷ y ∷ []
plain_digest (of_beneficiary a c d x y) = 2 ∷ pos_part a ∷ x ∷ y ∷ []
plain_digest (of_merchant a c d x y) = 3 ∷ pos_part a ∷ x ∷ y ∷ []

abbrev pub plain_formats : Formats
plain_formats = record {
  digest = plain_digest;
  to_text = λ a. pos_part a ∷ [];
  to_fixed_2 = λ a. pos_part a ∷ [];
  uuid = λ n. n ∷ [];
}

-- exact numbers
abbrev plain_numbers : Numbers
plain_numbers = record {
  Number = ℤ;
  of_decimal = λ d. d;
  add = λ x y. x +ℤ y;
  subtract = λ x y. x -ℤ y;
  to_fixed_4 = λ x. pos_part x ∷ neg_part x ∷ [];
  decimal_4 = λ d. pos_part d ∷ neg_part d ∷ [];
  IsNear = λ n x d. x ≡ d;
  of_decimal_near = λ d small. refl;
  add_near = λ m n x y c d few small h k. rw (h, k) refl;
  subtract_near = λ m n x y c d few small h k. rw (h, k) refl;
  to_fixed_4_near = λ n x d few h. exactly (rw h refl);
}

abbrev pub services : Services
services = record {
  prisma = memory;
  transactions = alone;
  redis = memory_redis;
  formats = plain_formats;
  numbers = plain_numbers;
}

abbrev pub ron_text : Text
ron_text = codes "RON"

abbrev checking : ℕ → ℕ → ℤ → Account
checking id customer balance = record {
  id = id;
  customer_id = customer;
  iban = id ∷ [];
  currency = ron_text;
  available_balance = balance;
  status = AccountStatus.active;
  account_type = "CHECKING";
  is_system = false;
  opened_at = 0;
}

abbrev pub checking_of : ℕ → ℤ → Account
checking_of id balance = checking id 10 balance

abbrev settlement : ℕ → ℤ → Account
settlement id balance = record (checking id 90 balance) {
  account_type = "EXTERNAL_SETTLEMENT";
  is_system = true;
}

abbrev profile : ℕ → ℕ → KycStatus → CustomerProfile
profile id user status = record {
  id = id;
  user_id = user;
  full_legal_name = id ∷ [];
  kyc_status = status;
  verified_at = none;
  created_at = 1;
}

abbrev pub ann_profile : CustomerProfile
ann_profile = profile 10 1 KycStatus.verified

-- Ann (user 1) has the accounts 101 and 102 and the payees 301 (Bob's account) and 302 (elsewhere);
-- Bob (user 2) has the account 201 and is not verified.
abbrev pub bank : Db
bank = record {
  users = [];
  sessions = [];
  profiles =
      profile 10 1 KycStatus.verified
      ∷ profile 20 2 KycStatus.pending
      ∷ profile 90 9 KycStatus.verified
      ∷ [];
  accounts =
      checking 101 10 (pos 50000000)
      ∷ checking 102 10 (pos 0)
      ∷ checking 201 20 (pos 70000)
      ∷ settlement 901 (negsuc 9999)
      ∷ settlement 902 (pos 0)
      ∷ [];
  beneficiaries =
      record {
        id = 301;
        customer_id = 10;
        display_name = codes "Bob";
        iban = 201 ∷ [];
        alias = none;
        status = BeneficiaryStatus.active;
        created_at = 5;
        archived_at = none;
      }
      ∷ record {
        id = 302;
        customer_id = 10;
        display_name = codes "Eve";
        iban = 777 ∷ [];
        alias = none;
        status = BeneficiaryStatus.active;
        created_at = 6;
        archived_at = none;
      }
      ∷ [];
  transactions = [];
  ledger_entries = [];
  idempotency_keys = [];
  audit_events = [];
  merchants =
      record {
        id = 401;
        name = codes "Shop";
        merchant_code = "SHOP";
        category = "food";
        settlement_account_id = 902;
        status = MerchantStatus.active;
      }
      ∷ [];
  cards = [];
  notifications = [];
}

abbrev pub world : World
world = record { db = bank; cache = [] }

abbrev pub ann : JwtAccessPayload
ann = record { sub = 1; email = codes "ann@x"; mfa_verified = true; session_id = none }

abbrev pub draw : ℕ → Draw
draw n = record {
  key_id = 1000 + n;
  transaction_id = 2000 + n;
  notice_id = 3000 + n;
  second_notice_id = 4000 + n;
  now = 60000;
}

abbrev pub drawn : Challenge
drawn = record { id = 77; otp = codes "123456"; now = 50000 }

abbrev pub between_own : ℤ → CreateTransferDto
between_own amount = record {
  source_account_id = 101;
  destination_account_id = 102;
  amount = amount;
  currency = some (codes " ron ");
  description = none;
}

abbrev pub to_payee : ℕ → ℤ → TransferToBeneficiaryDto
to_payee payee amount = record {
  source_account_id = 101;
  beneficiary_id = payee;
  amount = amount;
  currency = some ron_text;
  description = none;
}

abbrev pub to_shop : ℤ → PayMerchantDto
to_shop amount = record {
  source_account_id = 101;
  merchant_id = 401;
  amount = amount;
  currency = some ron_text;
  description = none;
}

abbrev pub challenged_payment : PendingPayment
challenged_payment = beneficiary_transfer (to_payee 302 (pos 20000000))

-- The world after a payment above the threshold was stopped: its challenge waits for the password.
abbrev pub challenged : World
challenged = record world {
  cache =
      memory_redis.set_ex drawn.now 300 (step_up 1 77)
        (challenge challenged_payment (codes "k") drawn.otp) [];
}

abbrev pub ann_card : Card
ann_card = record {
  id = 501;
  customer_id = 10;
  account_id = 101;
  masked_pan = codes "**** **** **** 1234";
  demo_pan = some (codes "4242 4242 4242 1234");
  expiry_month = some 5;
  expiry_year = some 30;
  demo_cvv = some (codes "321");
  card_type = CardType.debit;
  status = CardStatus.active;
  blocked_at = none;
  closed_at = none;
}

abbrev pub card_draw : ℕ → CardDraw
card_draw now = record {
  now = now;
  notice_id = 3001;
  card_id = 502;
  last4 = codes "5678";
  month = 6;
  year = 30;
  cvv = codes "123";
  otp = codes "654321";
}

-- Ann's card, and the password of a reveal of its details.
abbrev pub world_with_card : World
world_with_card = record {
  db = record bank { cards = ann_card ∷ [] };
  cache = memory_redis.set_ex 50000 300 (reveal 1 501) (password (codes "654321")) [];
}

abbrev pub to_add : Text → CreateBeneficiaryDto
to_add iban = record { name = codes "Cy"; iban = iban; alias = none }
