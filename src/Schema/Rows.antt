-- ===== src/Schema/Rows.antt =====
-- The rows of the tables that the services read and write. Ids are uuids, which are only compared:
-- natural numbers here. Times are milliseconds, amounts and balances are ten-thousandths of the
-- currency unit, the scale of `Decimal(19, 4)`. Columns that no service reads are left out.
use online_banking.Base.{ℕ, String, Bool, Option, List}
use online_banking.Base.Int.{ℤ}
use online_banking.Base.Text.{Text}
use online_banking.Schema.Enums.{
  AccountStatus, BeneficiaryStatus, KycStatus, TransactionType, TransactionStatus, LedgerSide,
  CardType, CardStatus, MerchantStatus, IdempotencyStatus,
}
use online_banking.Schema.Json.{Json}

pub record User : Type 0 where
  pub id : ℕ
  pub email : Text
  pub password_hash : String
  pub is_active : Bool
  pub roles : List String

pub record Session : Type 0 where
  pub id : ℕ
  pub user_id : ℕ
  pub refresh_token_hash : String
  pub user_agent : Option String
  pub ip_address : Option String
  pub created_at : ℕ
  pub expires_at : ℕ
  pub revoked_at : Option ℕ

pub record CustomerProfile : Type 0 where
  pub id : ℕ
  pub user_id : ℕ
  pub full_legal_name : Text
  pub kyc_status : KycStatus
  pub verified_at : Option ℕ
  pub created_at : ℕ

pub record Account : Type 0 where
  pub id : ℕ
  pub customer_id : ℕ
  pub iban : Text
  pub currency : Text
  pub available_balance : ℤ
  pub status : AccountStatus
  pub account_type : String
  pub is_system : Bool
  pub opened_at : ℕ

pub record Beneficiary : Type 0 where
  pub id : ℕ
  pub customer_id : ℕ
  pub display_name : Text
  pub iban : Text
  pub alias : Option Text
  pub status : BeneficiaryStatus
  pub created_at : ℕ
  pub archived_at : Option ℕ

pub record Transaction : Type 0 where
  pub id : ℕ
  pub type : TransactionType
  pub status : TransactionStatus
  pub amount : ℤ
  pub currency : Text
  pub description : Option Text
  pub customer_id : Option ℕ
  pub from_account_id : Option ℕ
  pub to_account_id : Option ℕ
  pub idempotency_key_id : Option ℕ
  pub created_at : ℕ
  pub posted_at : Option ℕ

pub record LedgerEntry : Type 0 where
  pub transaction_id : ℕ
  pub account_id : ℕ
  pub side : LedgerSide
  pub amount : ℤ
  pub currency : Text
  pub sequence : ℕ
  pub created_at : ℕ

pub record IdempotencyKey : Type 0 where
  pub id : ℕ
  pub key : Text
  pub user_id : ℕ
  pub scope : String
  pub request_hash : Option Text
  pub status : IdempotencyStatus
  pub response_payload : Option Json
  pub http_status : Option ℕ
  pub completed_at : Option ℕ
  pub expires_at : ℕ

-- `metadata` is a column for display only and is left out.
pub record AuditEvent : Type 0 where
  pub actor_user_id : ℕ
  pub action : String
  pub resource_type : String
  pub resource_id : ℕ
  pub ip_address : Option String
  pub user_agent : Option String
  pub created_at : ℕ

pub record Merchant : Type 0 where
  pub id : ℕ
  pub name : Text
  pub merchant_code : String
  pub category : String
  pub settlement_account_id : ℕ
  pub status : MerchantStatus

pub record Card : Type 0 where
  pub id : ℕ
  pub customer_id : ℕ
  pub account_id : ℕ
  pub masked_pan : Text
  pub demo_pan : Option Text
  pub expiry_month : Option ℕ
  pub expiry_year : Option ℕ
  pub demo_cvv : Option Text
  pub card_type : CardType
  pub status : CardStatus
  pub blocked_at : Option ℕ
  pub closed_at : Option ℕ

pub record Notification : Type 0 where
  pub id : ℕ
  pub user_id : ℕ
  pub type : String
  pub title : String
  pub message : Text
  pub created_at : ℕ
  pub read_at : Option ℕ

-- The database: a list of rows for each table.
pub record Db : Type 0 where
  pub users : List User
  pub sessions : List Session
  pub profiles : List CustomerProfile
  pub accounts : List Account
  pub beneficiaries : List Beneficiary
  pub transactions : List Transaction
  pub ledger_entries : List LedgerEntry
  pub idempotency_keys : List IdempotencyKey
  pub audit_events : List AuditEvent
  pub merchants : List Merchant
  pub cards : List Card
  pub notifications : List Notification
