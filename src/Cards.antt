-- ===== src/Cards.antt =====
-- backend/src/cards/cards.service.ts: the cards of a customer.
pub mod Effect
pub mod Reveal
use online_banking.Base.{
  ℕ, ◌-◌, drop, Bool, not, ◌&&◌, Option, none, some, List, [], ◌∷◌, ◌++◌, length, Exception,
  not_found, forbidden, bad_request, pure, gets, modify, throw_if, or_throw, ◌>>=◌, ◌>>◌, ◌==◌,
  String, if◌then◌else◌,
}
use online_banking.Base.Text.{Text, codes, text_eq, is_empty}
use online_banking.Schema.{
  CustomerProfile, Account, account_is_active, Card, CardStatus, CardType, card_is_closed,
  kyc_is_verified, Notification, AuditEvent, Db,
}
use online_banking.Prisma.Statements.{Table, account_table}
use online_banking.Redis.{stored_otp, CacheValue, reveal, password, challenge}
use online_banking.Services.{Services, Service}
use online_banking.Services.Statements.{
  find_or_throw, insert_row, update_row, write_audit, create_notification,
}
use online_banking.Payments.Steps.{by_user}

abbrev pub card_table : Table Card
card_table = record { rows = λ db. db.cards; replaced = λ db t. record db { cards = t } }

abbrev pub profile_table : Table CustomerProfile
profile_table = record { rows = λ db. db.profiles; replaced = λ db t. record db { profiles = t } }

-- What one request draws: the time, the ids of new rows, and the random and calendar parts of a card.
pub record CardDraw : Type 0 where
  pub now : ℕ
  pub notice_id : ℕ
  pub card_id : ℕ
  pub last4 : Text
  pub month : ℕ
  pub year : ℕ
  pub cvv : Text
  pub otp : Text

-- IssueCardDto
pub record IssueCardDto : Type 0 where
  pub account_id : ℕ
  pub card_type : CardType

-- `text.slice(-4)`
abbrev last_four : Text → Text
last_four t = drop (length t - 4) t

abbrev pub has_card_id : ℕ → Card → Bool
has_card_id id c = c.id == id

abbrev pub own_card : ℕ → ℕ → Card → Bool
own_card id customer_id c = c.id == id && c.customer_id == customer_id

abbrev pub own_open_card : ℕ → ℕ → Card → Bool
own_open_card id customer_id c = own_card id customer_id c && not (card_is_closed c.status)

abbrev pub blocked_card : ℕ → Card → Card
blocked_card now c = record c { status = CardStatus.blocked; blocked_at = some now }

abbrev pub unblocked_card : Card → Card
unblocked_card c = record c { status = CardStatus.active; blocked_at = none }

abbrev pub closed_card : ℕ → Card → Card
closed_card now c = record c { status = CardStatus.closed; closed_at = some now }

abbrev pub new_card : CustomerProfile → Account → CardType → CardDraw → Card
new_card profile account type d = record {
  id = d.card_id;
  customer_id = profile.id;
  account_id = account.id;
  masked_pan = codes "**** **** **** " ++ d.last4;
  demo_pan = some (codes "4242 4242 4242 " ++ d.last4);
  expiry_month = some d.month;
  expiry_year = some d.year;
  demo_cvv = some d.cvv;
  card_type = type;
  status = CardStatus.active;
  blocked_at = none;
  closed_at = none;
}

abbrev type_name : CardType → Text
type_name CardType.debit = codes "debit"
type_name CardType.virtual = codes "virtual"

-- the details that a reveal shows
pub record CardDetails : Type 0 where
  pub card_number : Option Text
  pub month : Option ℕ
  pub year : Option ℕ
  pub cvv : Option Text
  pub reveal_expires_in_seconds : ℕ

abbrev pub details_of : Card → CardDetails
details_of c = record {
  card_number = c.demo_pan;
  month = c.expiry_month;
  year = c.expiry_year;
  cvv = c.demo_cvv;
  reveal_expires_in_seconds = 60;
}

card_event : ℕ → String → Card → ℕ → AuditEvent
card_event user_id action c now = record {
  actor_user_id = user_id;
  action = action;
  resource_type = "Card";
  resource_id = c.id;
  ip_address = none;
  user_agent = none;
  created_at = now;
}

card_notice : ℕ → String → String → Text → CardDraw → Notification
card_notice user_id type title message d = record {
  id = d.notice_id;
  user_id = user_id;
  type = type;
  title = title;
  message = message;
  created_at = d.now;
  read_at = none;
}

module _ (svc : Services) where
  unfoldable pub block_card : ℕ → ℕ → CardDraw → Service Card
  unfolding card_event card_notice create_notification
  block_card user_id card_id d = do
    profile ← find_or_throw svc profile_table (by_user user_id) (not_found "Card not found")
    card ← find_or_throw svc card_table (own_card card_id profile.id) (not_found "Card not found")
    update_row svc card_table (has_card_id card.id) (blocked_card d.now)
    write_audit svc (card_event user_id "CARD_BLOCKED" card d.now)
    create_notification svc (
        card_notice user_id "CARD_BLOCKED" "Card Blocked"
          (codes "Your card ending in "
            ++ (last_four card.masked_pan ++ codes " has been blocked."))
          d)
    pure (blocked_card d.now card)

  unfoldable pub unblock_card : ℕ → ℕ → CardDraw → Service Card
  unfolding card_event card_notice create_notification
  unblock_card user_id card_id d = do
    profile ← find_or_throw svc profile_table (by_user user_id) (not_found "Card not found")
    throw_if (not (kyc_is_verified profile.kyc_status)) (forbidden "KYC_REQUIRED")
    card ← find_or_throw svc card_table (own_card card_id profile.id) (not_found "Card not found")
    update_row svc card_table (has_card_id card.id) unblocked_card
    write_audit svc (card_event user_id "CARD_UNBLOCKED" card d.now)
    create_notification svc (
        card_notice user_id "CARD_UNBLOCKED" "Card Unblocked"
          (codes "Your card ending in "
            ++ (last_four card.masked_pan ++ codes " has been unblocked."))
          d)
    pure (unblocked_card card)

  abbrev pub issuable : IssueCardDto → ℕ → Account → Bool
  issuable dto customer_id a =
      a.id == dto.account_id
      && (a.customer_id == customer_id && (account_is_active a.status && not a.is_system))

  unfoldable pub issue_card : ℕ → IssueCardDto → CardDraw → Service Card
  unfolding card_event card_notice create_notification
  issue_card user_id dto d = do
    profile ← find_or_throw svc profile_table (by_user user_id) (not_found "Customer not found")
    throw_if (not (kyc_is_verified profile.kyc_status)) (forbidden "KYC_REQUIRED")
    account ←
        find_or_throw svc account_table (issuable dto profile.id)
          (not_found "Active non-system account not found")
    let card = new_card profile account dto.card_type d
    insert_row svc card_table card
    write_audit svc (card_event user_id "CARD_ISSUED" card d.now)
    create_notification svc (
        card_notice user_id "CARD_ISSUED" "Card Issued"
          (codes "A new "
            ++ (type_name dto.card_type
                ++ (codes " card ending in "
                    ++ (last_four card.masked_pan ++ codes " has been issued."))))
          d)
    pure card

  unfoldable pub close_card : ℕ → ℕ → CardDraw → Service (Unit {0})
  unfolding card_event card_notice create_notification
  close_card user_id card_id d = do
    profile ← find_or_throw svc profile_table (by_user user_id) (not_found "Card not found")
    card ←
        find_or_throw svc card_table (own_open_card card_id profile.id) (not_found "Card not found")
    update_row svc card_table (has_card_id card.id) (closed_card d.now)
    write_audit svc (card_event user_id "CARD_CLOSED" card d.now)
    create_notification svc (
        card_notice user_id "CARD_CLOSED" "Card Closed"
          (codes "Your card ending in "
            ++ (last_four card.masked_pan ++ codes " has been permanently closed."))
          d)

  unfoldable pub initiate_reveal : ℕ → ℕ → CardDraw → Service (Unit {0})
  initiate_reveal user_id card_id d = do
    profile ← find_or_throw svc profile_table (by_user user_id) (not_found "Card not found")
    card ←
        find_or_throw svc card_table (own_open_card card_id profile.id) (not_found "Card not found")
    modify (λ w. record w {
      cache = svc.redis.set_ex d.now 300 (reveal user_id card.id) (password d.otp) w.cache;
    })

  unfoldable pub verify_reveal : ℕ → ℕ → Text → CardDraw → Service CardDetails
  unfolding card_event
  verify_reveal user_id card_id otp d = do
    profile ← find_or_throw svc profile_table (by_user user_id) (not_found "Card not found")
    card ←
        find_or_throw svc card_table (own_open_card card_id profile.id) (not_found "Card not found")
    value ← gets (λ w. svc.redis.get d.now (reveal user_id card.id) w.cache)
    stored ← or_throw (stored_otp value) (bad_request "OTP expired or invalid")
    throw_if (not (text_eq stored otp)) (bad_request "Invalid OTP")
    modify (λ w. record w { cache = svc.redis.del (reveal user_id card.id) w.cache })
    write_audit svc (card_event user_id "CARD_DETAILS_REVEALED" card d.now)
    pure (details_of card)
