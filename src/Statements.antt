-- ===== src/Statements.antt =====
-- backend/src/statements/statements.service.ts: an account's entries over a period, with the balances
-- at its two ends, added up in the numbers of Numbers.antt. An entry's own id is left out, as in its
-- row.
pub mod Sums
pub mod Balances
pub mod Meaning
use online_banking.Base.{
  ℕ, ◌+◌, ◌*◌, ◌/◌, Bool, true, false, not, ◌&&◌, Option, none, some, List, [], ◌∷◌, not_found,
  bad_request, database_error, pure, gets, throw_if, or_throw, ltb, leb, ◌>>=◌, ◌>>◌, ◌==◌, String,
}
use online_banking.Base.Int.{ℤ, pos, ◌+ℤ◌, ◌-ℤ◌}
use online_banking.Base.Text.{Text}
use online_banking.Schema.{
  Db, Account, LedgerEntry, LedgerSide, is_debit, is_credit, Transaction, TransactionType,
  TransactionStatus, CustomerProfile,
}
use online_banking.Services.{Services, Service}
use online_banking.Services.Statements.{find_or_throw}
use online_banking.Prisma.Statements.{account_table, transaction_table}
use online_banking.Payments.Steps.{by_user}
use online_banking.Cards.{profile_table}

-- the last millisecond of a day, as `setUTCHours(23, 59, 59, 999)` sets it
unfoldable pub end_of_day : ℕ → ℕ
end_of_day t = t / 86400000 * 86400000 + 86399999

abbrev pub owned_account : ℕ → ℕ → Account → Bool
owned_account id customer_id a = a.id == id && (a.customer_id == customer_id && not a.is_system)

-- `_sum.amount || 0`
abbrev pub or_zero : Option ℤ → ℤ
or_zero none = pos 0
or_zero (some x) = x

-- the `where` clauses of the two sums before a period and of the two sums in it
abbrev pub earlier : (LedgerSide → Bool) → ℕ → ℕ → LedgerEntry → Bool
earlier side id from e = e.account_id == id && (side e.side && ltb e.created_at from)

abbrev pub within : (LedgerSide → Bool) → ℕ → ℕ → ℕ → LedgerEntry → Bool
within side id from to e =
    e.account_id == id && (side e.side && (leb from e.created_at && leb e.created_at to))

abbrev pub listed_in : ℕ → ℕ → ℕ → LedgerEntry → Bool
listed_in id from to e = e.account_id == id && (leb from e.created_at && leb e.created_at to)

pub record StatementEntry : Type 0 where
  pub transaction_id : ℕ
  pub transaction_type : TransactionType
  pub transaction_status : TransactionStatus
  pub side : LedgerSide
  pub amount : ℤ
  pub currency : Text
  pub description : Option Text
  pub created_at : ℕ

pub record Statement : Type 0 where
  pub account_id : ℕ
  pub iban : Text
  pub account_type : String
  pub currency : Text
  pub from : Text
  pub to : Text
  pub opening_balance : Text
  pub closing_balance : Text
  pub total_debits : Text
  pub total_credits : Text
  pub entries : List StatementEntry

abbrev pub entry_view : LedgerEntry → Transaction → StatementEntry
entry_view e t = record {
  transaction_id = t.id;
  transaction_type = t.type;
  transaction_status = t.status;
  side = e.side;
  amount = e.amount;
  currency = e.currency;
  description = t.description;
  created_at = e.created_at;
}

module _ (svc : Services) where
  -- `Number(…._sum.amount || 0)`
  abbrev pub sum_of : (LedgerEntry → Bool) → Service svc.numbers.Number
  sum_of p = gets (λ w.
      svc.numbers.of_decimal
        (or_zero (svc.prisma.aggregate_sum LedgerEntry p (λ e. e.amount) w.db.ledger_entries)))

  -- the transaction of each entry, which the `include` joins by the foreign key
  unfoldable pub with_transactions : List LedgerEntry → Service (List StatementEntry)
  with_transactions [] = pure []
  with_transactions (e ∷ entries) = do
    t ← find_or_throw svc transaction_table (λ t. t.id == e.transaction_id) (database_error 0)
    rest ← with_transactions entries
    pure (entry_view e t ∷ rest)

  -- the sums and entries of a period from `start` to the millisecond `end`
  unfoldable pub statement_of : Account → Text → Text → (start end : ℕ) → Service Statement
  statement_of account from to start end = do
    op_credit ← sum_of (earlier is_credit account.id start)
    op_debit ← sum_of (earlier is_debit account.id start)
    let opening = svc.numbers.subtract op_credit op_debit
    tot_credit ← sum_of (within is_credit account.id start end)
    tot_debit ← sum_of (within is_debit account.id start end)
    let closing = svc.numbers.subtract (svc.numbers.add opening tot_credit) tot_debit
    raw ← gets (λ w.
        svc.prisma.find_many LedgerEntry (listed_in account.id start end)
          (λ a b. leb b.created_at a.created_at) w.db.ledger_entries)
    entries ← with_transactions raw
    pure (record {
      account_id = account.id;
      iban = account.iban;
      account_type = account.account_type;
      currency = account.currency;
      from = from;
      to = to;
      opening_balance = svc.numbers.to_fixed_4 opening;
      closing_balance = svc.numbers.to_fixed_4 closing;
      total_debits = svc.numbers.to_fixed_4 tot_debit;
      total_credits = svc.numbers.to_fixed_4 tot_credit;
      entries = entries;
    })

  -- `to_date` is `new Date(…)`, none for an invalid date
  unfoldable pub get_statement :
      (to_date : Text → Option ℕ) → (user_id account_id : ℕ) → (from to : Text) → Service Statement
  get_statement to_date user_id account_id from to = do
    profile ←
        find_or_throw svc profile_table (by_user user_id) (not_found "Customer profile not found")
    account ←
        find_or_throw svc account_table (owned_account account_id profile.id)
          (not_found "Account not found or access denied")
    start ← or_throw (to_date from) (bad_request "Invalid date format")
    day ← or_throw (to_date to) (bad_request "Invalid date format")
    throw_if (ltb day start) (bad_request "from date must be before or equal to to date")
    statement_of account from to start (end_of_day day)
