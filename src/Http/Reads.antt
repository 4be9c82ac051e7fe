-- ===== src/Http/Reads.antt =====
-- The methods of the controllers of backend/src that only read.
use online_banking.Base.{
  ℕ, Bool, Option, none, some, List, bad_request, or_throw, ◌>>=◌, if◌then◌else◌,
}
use online_banking.Base.Int.{ℤ}
use online_banking.Base.Text.{Text, is_empty}
use online_banking.Schema.{Notification}
use online_banking.Services.{Services, Service}
use online_banking.Auth.Types.{Signing}
use online_banking.Auth.Register.{Me, get_me}
use online_banking.Auth.Sessions.{SessionView, get_sessions}
use online_banking.Statements.{Statement, get_statement}
use online_banking.Queries.Views.{
  AccountView, TransactionView, TransactionDetails, BeneficiaryView, MerchantView, CardView,
}
use online_banking.Queries.{
  accounts_of, transactions_of, transaction_of, beneficiaries_of, active_merchants, get_cards,
  notifications_of,
}
use online_banking.Queries.Customers.{CustomerView, get_customers}
use online_banking.Admin.Audit.{AuditEventFilters, AuditPage, get_audit_events}
use online_banking.Http.{Caller, admitted, admitted_admin, guarded}

-- `if (!accountId) throw …`
abbrev required : Option Text → Option Text
required none = none
required (some t) = if is_empty t then none else some t

-- The body of `getStatement`; `account_id` is none where the parameter is missing or empty.
unfoldable pub statement_body :
    Services
    → (to_date : Text → Option ℕ) → ℕ
    → Option ℕ
    → Option Text
    → Option Text
    → Service Statement
statement_body svc to_date user_id account_id from to = do
  account ← or_throw account_id (bad_request "accountId is required")
  start ← or_throw (required from) (bad_request "from is required")
  end ← or_throw (required to) (bad_request "to is required")
  get_statement svc to_date user_id account start end

module _ (svc : Services) (signing : Signing) (caller : Caller) where
  unfoldable pub me_request : Service Me
  me_request = guarded (admitted svc signing caller) λ user. get_me svc user.sub

  unfoldable pub sessions_request : Service (List SessionView)
  sessions_request =
      guarded (admitted svc signing caller)
        λ user. get_sessions svc user.sub user.session_id caller.now

  unfoldable pub accounts_request : Service (List AccountView)
  accounts_request = guarded (admitted svc signing caller) λ user. accounts_of svc user.sub

  unfoldable pub transactions_request : Service (List TransactionView)
  transactions_request = guarded (admitted svc signing caller) λ user. transactions_of svc user.sub

  unfoldable pub transaction_request : ℕ → Service TransactionDetails
  transaction_request id =
      guarded (admitted svc signing caller) λ user. transaction_of svc user.sub id

  unfoldable pub beneficiaries_request : Service (List BeneficiaryView)
  beneficiaries_request =
      guarded (admitted svc signing caller) λ user. beneficiaries_of svc user.sub

  unfoldable pub merchants_request : (before : Text → Text → Bool) → Service (List MerchantView)
  merchants_request before =
      guarded (admitted svc signing caller) λ user. active_merchants svc before

  unfoldable pub cards_request : Service (List CardView)
  cards_request = guarded (admitted svc signing caller) λ user. get_cards svc user.sub

  unfoldable pub notifications_request : Service (List Notification)
  notifications_request =
      guarded (admitted svc signing caller) λ user. notifications_of svc user.sub

  unfoldable pub statement_request :
      (to_date : Text → Option ℕ) → Option ℕ → Option Text → Option Text → Service Statement
  statement_request to_date account_id from to =
      guarded (admitted svc signing caller)
        λ user. statement_body svc to_date user.sub account_id from to

  unfoldable pub audit_events_request :
      (integer_of : Text → Option ℤ)
      → (to_date : Text → Option ℕ) → AuditEventFilters
      → Service AuditPage
  audit_events_request integer_of to_date filters =
      guarded (admitted_admin svc signing caller)
        λ user. get_audit_events svc integer_of to_date filters

  unfoldable pub customers_request : Service (List CustomerView)
  customers_request = guarded (admitted_admin svc signing caller) λ user. get_customers svc
