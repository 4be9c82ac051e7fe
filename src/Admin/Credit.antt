-- ===== src/Admin/Credit.antt =====
-- `creditAccount` of backend/src/admin/admin.service.ts: money from a system account to a customer's.
pub mod Sound
use online_banking.Base.{
  ℕ, Bool, true, not, ◌&&◌, ◌||◌, Option, none, some, ◌++◌, not_found, bad_request, database_error,
  pure, gets, throw_if, or_throw, ◌>>=◌, ◌>>◌, ◌==◌, if◌then◌else◌,
}
use online_banking.Base.Int.{ℤ}
use online_banking.Base.Text.{Text, codes, text_eq, is_empty}
use online_banking.Schema.{
  CustomerProfile, Account, account_is_active, Transaction, TransactionType, TransactionStatus,
  Notification, AuditEvent,
}
use online_banking.Prisma.{Prisma}
use online_banking.Prisma.Tx.{Tx}
use online_banking.Prisma.Statements.{update_one, insert, account_table, audit_event_table}
use online_banking.Services.{Services, Service, Draw, on_db}
use online_banking.Payments.Types.{Formats}
use online_banking.Payments.Steps.{
  Movement, with_account_id, decremented, credit_and_record, notify, audit, ron,
}

pub record AdminCreditDto : Type 0 where
  pub amount : ℤ
  pub currency : Text
  pub description : Option Text

pub record AdminCreditResponse : Type 0 where
  pub transaction_id : ℕ
  pub target_account_id : ℕ
  pub amount : ℤ
  pub currency : Text

-- the `where` of the system account
abbrev pub is_system_account : Account → Bool
is_system_account a = a.is_system && (text_eq a.currency ron && account_is_active a.status)

-- `dto.description || 'Admin credit funding'`
abbrev credit_description : Option Text → Text
credit_description none = codes "Admin credit funding"
credit_description (some s) = if is_empty s then codes "Admin credit funding" else s

abbrev pub credit_movement : ℕ → ℕ → ℤ → Draw → Movement
credit_movement source target amount d = record {
  transaction_id = d.transaction_id;
  source_id = source;
  destination_id = target;
  amount = amount;
  currency = ron;
  credit_sequence = 0;
  at = d.now;
}

credit_row : Movement → Option Text → ℕ → Transaction
credit_row m description customer_id = record {
  id = m.transaction_id;
  type = TransactionType.admin_credit;
  status = TransactionStatus.posted;
  amount = m.amount;
  currency = m.currency;
  description = some (credit_description description);
  customer_id = some customer_id;
  from_account_id = some m.source_id;
  to_account_id = some m.destination_id;
  idempotency_key_id = none;
  created_at = m.at;
  posted_at = none;
}

credit_notice : ℕ → Text → ℕ → ℕ → Notification
credit_notice user_id message id now = record {
  id = id;
  user_id = user_id;
  type = "ACCOUNT_CREDITED_BY_ADMIN";
  title = "Account Credited";
  message = message;
  created_at = now;
  read_at = none;
}

module _ (prisma : Prisma) (fmt : Formats) where
  credit_message : Text → ℤ → Text
  credit_message iban amount =
      codes "Your account "
      ++ (iban
          ++ (codes " has been credited with "
              ++ (fmt.to_text amount ++ codes " RON by an administrator.")))

  -- from the two balances to the answer
  unfoldable pub post_credit :
      ℕ → Account → CustomerProfile → Account → AdminCreditDto → Draw → Tx AdminCreditResponse
  unfolding credit_and_record audit notify credit_row credit_notice credit_message
  post_credit admin_id target customer system dto d = do
    update_one prisma account_table (with_account_id system.id) (decremented dto.amount)
    let m = credit_movement system.id target.id dto.amount d
    credit_and_record prisma m (credit_row m dto.description target.customer_id)
    audit prisma admin_id "ACCOUNT_CREDITED_BY_ADMIN" d.transaction_id d.now
    notify prisma
        (credit_notice customer.user_id (credit_message target.iban dto.amount) d.notice_id d.now)
    pure (record {
      transaction_id = d.transaction_id;
      target_account_id = target.id;
      amount = dto.amount;
      currency = ron;
    })

  -- The callback of the transaction. The join of the account's customer follows the foreign key.
  unfoldable pub execute_credit_tx : ℕ → ℕ → AdminCreditDto → Draw → Tx AdminCreditResponse
  execute_credit_tx admin_id account_id dto d = do
    found ← gets (λ s. prisma.find Account (with_account_id account_id) s.db.accounts)
    target ← or_throw found (not_found "Target account not found or is a system account")
    joined ← gets (λ s. prisma.find CustomerProfile (λ p. p.id == target.customer_id) s.db.profiles)
    customer ← or_throw joined (database_error 0)
    throw_if target.is_system (not_found "Target account not found or is a system account")
    throw_if (not (account_is_active target.status)) (bad_request "Target account is not active")
    funding ← gets (λ s. prisma.find Account is_system_account s.db.accounts)
    system ← or_throw funding (bad_request "System settlement account not found")
    post_credit admin_id target customer system dto d

unfoldable pub credit_account :
    Services → ℕ → ℕ → AdminCreditDto → Draw → Service AdminCreditResponse
credit_account svc admin_id account_id dto d = do
  throw_if (not (text_eq dto.currency ron))
      (bad_request "Only RON currency is currently supported.")
  on_db (
      svc.transactions.run AdminCreditResponse 1
        (execute_credit_tx svc.prisma svc.formats admin_id account_id dto d))
