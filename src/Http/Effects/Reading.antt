-- ===== src/Http/Effects/Reading.antt =====
-- The methods that only read change nothing.
use online_banking.Base.{ℕ, List, [], ◌∷◌, leb, ◌≡◌, refl, arith, Bool, Option}
use online_banking.Base.Int.{ℤ}
use online_banking.Base.Text.{Text}
use online_banking.Services.{Services, World}
use online_banking.Auth.Register.{get_me}
use online_banking.Auth.Sessions.{get_sessions}
use online_banking.Queries.{
  accounts_of, transactions_of, transaction_of, beneficiaries_of, active_merchants, get_cards,
  notifications_of,
}
use online_banking.Queries.Customers.{get_customers}
use online_banking.Schema.{Account, LedgerEntry}
use online_banking.Statements.{listed_in, get_statement, statement_of, with_transactions}
use online_banking.Http.Reads.{statement_body}
use online_banking.Admin.Audit.{
  AuditEventFilters, get_audit_events, parse_positive_int, parse_date, audit_page,
}

module _ (svc : Services) (w : World) where
  pub get_me-same : (user_id : ℕ) → (get_me svc user_id w).1 ≡ w
  unfolding get_me
  get_me-same user_id = ground arith

  pub get_sessions-same :
      (user_id : ℕ) (current : Option ℕ) (now : ℕ) → (get_sessions svc user_id current now w).1 ≡ w
  unfolding get_sessions
  get_sessions-same user_id current now = ground arith

  pub accounts_of-same : (user_id : ℕ) → (accounts_of svc user_id w).1 ≡ w
  unfolding accounts_of
  accounts_of-same user_id = ground arith

  pub transactions_of-same : (user_id : ℕ) → (transactions_of svc user_id w).1 ≡ w
  unfolding transactions_of
  transactions_of-same user_id = ground arith

  pub transaction_of-same : (user_id id : ℕ) → (transaction_of svc user_id id w).1 ≡ w
  unfolding transaction_of
  transaction_of-same user_id id = ground arith

  pub beneficiaries_of-same : (user_id : ℕ) → (beneficiaries_of svc user_id w).1 ≡ w
  unfolding beneficiaries_of
  beneficiaries_of-same user_id = ground arith

  pub active_merchants-same : (before : Text → Text → Bool) → (active_merchants svc before w).1 ≡ w
  unfolding active_merchants
  active_merchants-same before = ground arith

  pub get_cards-same : (user_id : ℕ) → (get_cards svc user_id w).1 ≡ w
  unfolding get_cards
  get_cards-same user_id = ground arith

  pub notifications_of-same : (user_id : ℕ) → (notifications_of svc user_id w).1 ≡ w
  unfolding notifications_of
  notifications_of-same user_id = ground arith

  pub get_customers-same : (get_customers svc w).1 ≡ w
  unfolding get_customers
  get_customers-same = ground arith

  pub get_audit_events-same :
      (integer_of : Text → Option ℤ) (to_date : Text → Option ℕ) (f : AuditEventFilters)
      → (get_audit_events svc integer_of to_date f w).1 ≡ w
  unfolding get_audit_events parse_positive_int parse_date audit_page
  get_audit_events-same integer_of to_date f = ground arith

  with_transactions-same : (entries : List LedgerEntry) → (with_transactions svc entries w).1 ≡ w
  unfolding with_transactions
  with_transactions-same [] = refl
  with_transactions-same (e ∷ entries) = ground (arith, with_transactions-same entries)

  statement_of-same :
      (account : Account) (from to : Text) (start end : ℕ)
      → (statement_of svc account from to start end w).1 ≡ w
  unfolding statement_of
  statement_of-same account from to start end = ground (
    arith,
    with_transactions-same (
        svc.prisma.find_many LedgerEntry (listed_in account.id start end)
          (λ a b. leb b.created_at a.created_at) w.db.ledger_entries),
  )

  pub get_statement-same :
      (to_date : Text → Option ℕ) (user_id account_id : ℕ) (from to : Text)
      → (get_statement svc to_date user_id account_id from to w).1 ≡ w
  unfolding get_statement
  get_statement-same to_date user_id account_id from to = grind (arith, statement_of-same)

  pub statement_body-same :
      (to_date : Text → Option ℕ) (user_id : ℕ) (account_id : Option ℕ) (from to : Option Text)
      → (statement_body svc to_date user_id account_id from to w).1 ≡ w
  unfolding statement_body
  statement_body-same to_date user_id account_id from to = grind (arith, get_statement-same)
