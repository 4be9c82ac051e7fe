-- ===== src/Beneficiaries.antt =====
-- backend/src/beneficiaries/beneficiaries.service.ts: the payees of a customer.
pub mod Laws
use online_banking.Base.{
  ℕ, Bool, ◌&&◌, Option, none, some, not_found, conflict, pure, throw, gets, throw_if, ◌>>=◌, ◌>>◌,
  ◌==◌, String, ok, err, if◌then◌else◌,
}
use online_banking.Base.Text.{Text, text_eq, trim, to_upper_case}
use online_banking.Schema.{
  CustomerProfile, Beneficiary, BeneficiaryStatus, beneficiary_is_active, AuditEvent,
}
use online_banking.Prisma.Statements.{Table}
use online_banking.Services.{Services, Service}
use online_banking.Services.Statements.{find_or_throw, insert_row, update_row, write_audit}
use online_banking.Payments.Types.{ServiceResult}
use online_banking.Payments.Steps.{by_user}
use online_banking.Cards.{profile_table}

-- CreateBeneficiaryDto
pub record CreateBeneficiaryDto : Type 0 where
  pub name : Text
  pub iban : Text
  pub alias : Option Text

abbrev pub beneficiary_table : Table Beneficiary
beneficiary_table = record {
  rows = λ db. db.beneficiaries;
  replaced = λ db t. record db { beneficiaries = t };
}

abbrev pub has_beneficiary_id : ℕ → Beneficiary → Bool
has_beneficiary_id id b = b.id == id

abbrev pub with_iban : ℕ → Text → Beneficiary → Bool
with_iban customer_id iban b = b.customer_id == customer_id && text_eq b.iban iban

abbrev pub own_beneficiary : ℕ → ℕ → Beneficiary → Bool
own_beneficiary id customer_id b = b.id == id && b.customer_id == customer_id

-- `iban.trim().toUpperCase()`
unfoldable pub normalize_iban : Text → Text
normalize_iban iban = to_upper_case (trim iban)

abbrev pub reactivated : CreateBeneficiaryDto → Beneficiary → Beneficiary
reactivated dto b = record b {
  display_name = dto.name;
  alias = dto.alias;
  status = BeneficiaryStatus.active;
  archived_at = none;
}

abbrev pub archived_beneficiary : ℕ → Beneficiary → Beneficiary
archived_beneficiary now b = record b {
  status = BeneficiaryStatus.archived;
  archived_at = some now;
}

abbrev pub new_beneficiary : ℕ → CreateBeneficiaryDto → Text → (id now : ℕ) → Beneficiary
new_beneficiary customer_id dto iban id now = record {
  id = id;
  customer_id = customer_id;
  display_name = dto.name;
  iban = iban;
  alias = dto.alias;
  status = BeneficiaryStatus.active;
  created_at = now;
  archived_at = none;
}

beneficiary_event : ℕ → String → ℕ → ℕ → AuditEvent
beneficiary_event user_id action id now = record {
  actor_user_id = user_id;
  action = action;
  resource_type = "Beneficiary";
  resource_id = id;
  ip_address = none;
  user_agent = none;
  created_at = now;
}

module _ (svc : Services) where
  abbrev profile_id : ℕ → Service ℕ
  profile_id user_id = do
    p ← find_or_throw svc profile_table (by_user user_id) (not_found "Customer profile not found")
    pure p.id

  -- a record with the same IBAN exists already
  unfoldable pub reactivate_beneficiary :
      ℕ → CreateBeneficiaryDto → Beneficiary → ℕ → Service (ServiceResult Beneficiary)
  unfolding beneficiary_event
  reactivate_beneficiary user_id dto existing now = do
    throw_if (beneficiary_is_active existing.status)
        (conflict "A beneficiary with this IBAN already exists for your account.")
    update_row svc beneficiary_table (has_beneficiary_id existing.id) (reactivated dto)
    write_audit svc (beneficiary_event user_id "BENEFICIARY_REACTIVATED" existing.id now)
    pure (record { http_status = 200; body = reactivated dto existing })

  unfoldable pub add_beneficiary :
      ℕ → ℕ → CreateBeneficiaryDto → Text → (id now : ℕ) → Service (ServiceResult Beneficiary)
  unfolding beneficiary_event
  add_beneficiary user_id customer_id dto iban id now = do
    insert_row svc beneficiary_table (new_beneficiary customer_id dto iban id now)
    write_audit svc (beneficiary_event user_id "BENEFICIARY_CREATED" id now)
    pure (record { http_status = 201; body = new_beneficiary customer_id dto iban id now })

  unfoldable pub create_beneficiary_for :
      ℕ → ℕ → CreateBeneficiaryDto → (id now : ℕ) → Service (ServiceResult Beneficiary)
  create_beneficiary_for user_id customer_id dto id now w =
      elim (svc.prisma.find Beneficiary (with_iban customer_id (normalize_iban dto.iban))
        w.db.beneficiaries) [
          | some existing ↦ reactivate_beneficiary user_id dto existing now w
          | none ↦ add_beneficiary user_id customer_id dto (normalize_iban dto.iban) id now w
        ]

  unfoldable pub create_beneficiary :
      ℕ → CreateBeneficiaryDto → (id now : ℕ) → Service (ServiceResult Beneficiary)
  create_beneficiary user_id dto id now = do
    customer_id ← profile_id user_id
    create_beneficiary_for user_id customer_id dto id now

  unfoldable pub remove_beneficiary : ℕ → ℕ → ℕ → Service (Unit {0})
  unfolding beneficiary_event
  remove_beneficiary user_id beneficiary_id now = do
    customer_id ← profile_id user_id
    b ←
        find_or_throw svc beneficiary_table (own_beneficiary beneficiary_id customer_id)
          (not_found "Beneficiary not found")
    if beneficiary_is_active b.status then pure tt else throw (not_found "Beneficiary not found")
    update_row svc beneficiary_table (has_beneficiary_id b.id) (archived_beneficiary now)
    write_audit svc (beneficiary_event user_id "BENEFICIARY_DELETED" b.id now)
