-- ===== src/Payments/ToBeneficiary/Route.antt =====
-- The account to which a payment to a beneficiary leads: what `executeBeneficiaryTransferTx` of
-- backend/src/payments/payments.service.ts resolves.
use online_banking.Base.{
  ℕ, ◌≡◌, refl, Bool, true, false, ◌⊎◌, inl, inr, Option, List, ◌&&◌, Memᴰ, arith, ok, ◌==◌,
  Option-cases, or_throw, database_error,
}
use online_banking.Base.Int.{ℤ}
use online_banking.Base.Text.{Text}
use online_banking.Schema.{Db, Account, CustomerProfile, Beneficiary, beneficiary_is_active}
use online_banking.Prisma.{Prisma}
use online_banking.Prisma.Tx.{TxState}
use online_banking.Services.{Draw}
use online_banking.Payments.Types.{Formats, TransferToBeneficiaryDto}
use online_banking.Payments.Steps.{Movement}
use online_banking.Payments.ToBeneficiary.{resolve_destination, customer_of, payee_of}
use online_banking.Payments.ToBeneficiary.Rows.{internal_account, external_settlement, Destination}

abbrev pub beneficiary_movement : TransferToBeneficiaryDto → Text → ℤ → Draw → ℕ → Movement
beneficiary_movement dto currency amount d destination = record {
  transaction_id = d.transaction_id;
  source_id = dto.source_account_id;
  destination_id = destination;
  amount = amount;
  currency = currency;
  credit_sequence = 1;
  at = d.now;
}

abbrev pub is_saved : ℕ → ℕ → Beneficiary → Bool
is_saved id customer_id b =
    b.id == id && (b.customer_id == customer_id && beneficiary_is_active b.status)

-- A movement that a request allows: from the named account to an account with the IBAN of an active
-- payee of the customer, or to the external settlement account.
pub record IsToPayee (db : Db) (customer_id : ℕ) (dto : TransferToBeneficiaryDto) (currency : Text)
    (amount : ℤ) (d : Draw) (m : Movement) : Type 0 where
  pub account : Account
  pub payee : Beneficiary
  pub listed : Memᴰ payee db.beneficiaries
  pub saved : is_saved dto.beneficiary_id customer_id payee ≡ true
  pub exists : Memᴰ account db.accounts
  pub route :
      (internal_account payee.iban currency account ≡ true)
      ⊎ (external_settlement currency account ≡ true)
  pub distinct : (dto.source_account_id == account.id) ≡ false
  pub movement : m ≡ beneficiary_movement dto currency amount d account.id

-- An account to which a payee's IBAN may lead.
pub record IsRoute (rows : List Account) (iban currency : Text) (to : Destination) : Type 0 where
  pub account : Account
  pub id : account.id ≡ to.account_id
  pub exists : Memᴰ account rows
  pub route :
      (internal_account iban currency account ≡ true)
      ⊎ (external_settlement currency account ≡ true)

module _ (prisma : Prisma) (fmt : Formats) where
  pub resolve_destination-IsRoute :
      (iban currency : Text) (s s' : TxState) (to : Destination)
      → resolve_destination prisma fmt iban currency s ≡ (ok to, s')
      → IsRoute s.db.accounts iban currency to × (s' ≡ s)
  unfolding resolve_destination
  resolve_destination-IsRoute iban currency s s' to h =
      elim (Option-cases (prisma.find Account (internal_account iban currency) s.db.accounts)) [
        | inr (a, found) ↦ (
          record {
            account = a;
            id = ground arith;
            exists = prisma.find_member Account _ _ _ found;
            route = inl (prisma.find_holds Account _ _ _ found);
          },
          ground arith,
        )
        | inl elsewhere ↦
            elim (Option-cases (prisma.find Account (external_settlement currency) s.db.accounts)) [
              | inr (a, found) ↦ (
                record {
                  account = a;
                  id = ground arith;
                  exists = prisma.find_member Account _ _ _ found;
                  route = inr (prisma.find_holds Account _ _ _ found);
                },
                ground arith,
              )
              | inl missing ↦ absurd (ground arith)
            ]
      ]

  pub customer_of_lem :
      (id : ℕ) (s : TxState)
      → customer_of prisma fmt id s
        ≡ or_throw
            (prisma.find CustomerProfile (λ p. p.id == id) s.db.profiles)
            (database_error 0)
            s
  unfolding customer_of
  customer_of_lem id s = refl

  pub payee_of-keeps :
      (to : Destination) (payee : Option ℕ) (s s' : TxState)
      → payee_of prisma fmt to s ≡ (ok payee, s')
      → s' ≡ s
  unfolding payee_of
  payee_of-keeps to payee s s' h = ground arith
