-- ===== src/Tests/Books.antt =====
-- A credit by an administrator and statements, on a small bank.
use online_banking.Base.{
  ℕ, ◌≡◌, ◌≢◌, ◌≤◌, refl, true, none, some, Option, [], ◌∷◌, ok, arith, if◌then◌else◌,
}
use online_banking.Base.Int.{ℤ, pos, negsuc, ◌+ℤ◌, ◌-ℤ◌}
use online_banking.Base.Text.{Text, codes, text_eq}
use online_banking.Schema.{LedgerSide, LedgerEntry, Account, TransactionType, TransactionStatus}
use online_banking.Services.{World}
use online_banking.Ledger.{IsSound, IsKeyed, balance_of}
use online_banking.Admin.Credit.{AdminCreditDto, credit_account}
use online_banking.Admin.Credit.Sound.{Credited, credit_account-Credited}
use online_banking.Statements.{
  Statement, get_statement, statement_of, with_transactions, end_of_day,
}
use online_banking.Statements.Sums.{turnover, booked_until}
use online_banking.Numbers.{Prints}
use online_banking.Statements.Meaning.{
  IsStatement, get_statement-IsStatement, get_statement-balance_of, get_statement-continues,
}
use online_banking.Fixtures.{services, bank, world, checking_of, draw, ron_text}

-- the first two days of a calendar
abbrev day_of : Text → Option ℕ
day_of t =
    if text_eq t (codes "1970-01-01")
    then some 0
    else if text_eq t (codes "1970-01-02")
    then some 86400000
    else none

abbrev house : ℤ → Account
house balance = record (checking_of 901 balance) { customer_id = 90; is_system = true }

abbrev booked : LedgerSide → ℕ → ℕ → LedgerEntry
booked side account sequence = record {
  transaction_id = 2001;
  account_id = account;
  side = side;
  amount = pos 500;
  currency = ron_text;
  sequence = sequence;
  created_at = 60000;
}

-- Ann's account after one credit of 500, and the system account that it came from
abbrev funded : World
funded = record world {
  db = record bank {
    accounts = checking_of 101 (pos 500) ∷ house (negsuc 499) ∷ [];
    ledger_entries = booked LedgerSide.credit 101 0 ∷ booked LedgerSide.debit 901 1 ∷ [];
    transactions =
        record {
          id = 2001;
          type = TransactionType.admin_credit;
          status = TransactionStatus.posted;
          amount = pos 500;
          currency = ron_text;
          description = none;
          customer_id = some 10;
          from_account_id = some 901;
          to_account_id = some 101;
          idempotency_key_id = none;
          created_at = 60000;
          posted_at = none;
        }
        ∷ [];
  };
}

funded-IsKeyed : IsKeyed funded.db.accounts
funded-IsKeyed id = ground arith

funded-IsSound : IsSound (λ id. pos 0) funded.db
unfolding ◌+ℤ◌ ◌-ℤ◌
funded-IsSound = record {
  keyed = funded-IsKeyed;
  not_overdrawn = (λ e. omega arith, (λ e. cc, tt));
  in_sync = λ id. grind arith;
  balanced = λ t. grind arith;
}

abbrev more : AdminCreditDto
more = record { amount = pos 70; currency = ron_text; description = none }

credit_account-Credited_example :
    Credited funded 101 (pos 70) (draw 2) (credit_account services 9 101 more (draw 2) funded)
credit_account-Credited_example =
    credit_account-Credited services 9 101 more (draw 2) funded funded-IsKeyed

abbrev one_day : Text
one_day = codes "1970-01-01"

abbrev next_day : Text
next_day = codes "1970-01-02"

abbrev first_statement : Statement
first_statement = record {
  account_id = 101;
  iban = 101 ∷ [];
  account_type = "CHECKING";
  currency = ron_text;
  from = one_day;
  to = one_day;
  opening_balance = 0 ∷ 0 ∷ [];
  closing_balance = 500 ∷ 0 ∷ [];
  total_debits = 0 ∷ 0 ∷ [];
  total_credits = 500 ∷ 0 ∷ [];
  entries =
      record {
        transaction_id = 2001;
        transaction_type = TransactionType.admin_credit;
        transaction_status = TransactionStatus.posted;
        side = LedgerSide.credit;
        amount = pos 500;
        currency = ron_text;
        description = none;
        created_at = 60000;
      }
      ∷ [];
}

abbrev second_statement : Statement
second_statement = record first_statement {
  from = next_day;
  to = next_day;
  opening_balance = 500 ∷ 0 ∷ [];
  total_credits = 0 ∷ 0 ∷ [];
  entries = [];
}

issued : get_statement services day_of 1 101 one_day one_day funded ≡ (ok first_statement, funded)
unfolding get_statement statement_of with_transactions end_of_day ◌-ℤ◌ ◌+ℤ◌
issued = refl

issued_again :
    get_statement services day_of 1 101 next_day next_day funded ≡ (ok second_statement, funded)
unfolding get_statement statement_of with_transactions end_of_day ◌-ℤ◌ ◌+ℤ◌
issued_again = refl

few_moved : turnover 101 funded.db.ledger_entries ≤ 75000000000000
few_moved = omega arith

not_empty : booked_until 101 (end_of_day 0) funded.db.ledger_entries ≢ pos 0
unfolding end_of_day ◌+ℤ◌ ◌-ℤ◌
not_empty h = ground arith

get_statement-IsStatement_example :
    IsStatement services.numbers day_of 1 101 one_day one_day funded first_statement
get_statement-IsStatement_example =
    get_statement-IsStatement services day_of 1 101 funded one_day one_day funded first_statement
      few_moved issued

get_statement-balance_of_example :
    Prints services.numbers.decimal_4 (500 ∷ 0 ∷ []) (balance_of 101 funded.db.accounts)
unfolding end_of_day
get_statement-balance_of_example =
    get_statement-balance_of services day_of 1 101 funded one_day one_day funded first_statement 0
      few_moved funded-IsSound issued refl (omega arith, (omega arith, tt))

get_statement-continues_example : second_statement.opening_balance ≡ first_statement.closing_balance
unfolding end_of_day
get_statement-continues_example =
    get_statement-continues services day_of 1 101 funded one_day one_day next_day next_day funded
      funded first_statement second_statement 0 few_moved not_empty issued issued_again refl refl
