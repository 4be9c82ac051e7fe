-- ===== src/Ledger.antt =====
-- The double-entry ledger: what a movement of money does to the accounts and to the entries, stated
-- without the client's statements, and the sums that it keeps.
pub mod Sums
pub mod Posted
pub mod Rows
use online_banking.Base.{
  ℕ, ◌≤◌, ◌≡◌, Bool, true, false, ◌&&◌, List, [], ◌∷◌, ◌++◌, ◌==◌, if◌then◌else◌, count, patch, All,
}
use online_banking.Base.Int.{ℤ, pos, ◌+ℤ◌, ◌-ℤ◌, ◌≤ℤ◌}
use online_banking.Base.Text.{Text, text_eq}
use online_banking.Schema.{Db, Account, LedgerEntry, is_debit}
use online_banking.Payments.Steps.{
  Movement, with_account_id, decremented, incremented, debit_entry, credit_entry,
}

-- the balances of the accounts that satisfy a test, added up
abbrev pub sum_where : (Account → Bool) → List Account → ℤ
sum_where p [] = pos 0
sum_where p (a ∷ rows) = (if p a then a.available_balance else pos 0) +ℤ sum_where p rows

-- credits less debits of the entries that satisfy a test
abbrev pub signed : LedgerEntry → ℤ
signed e = if is_debit e.side then pos 0 -ℤ e.amount else e.amount

abbrev pub net : (LedgerEntry → Bool) → List LedgerEntry → ℤ
net p [] = pos 0
net p (e ∷ entries) = (if p e then signed e else pos 0) +ℤ net p entries

abbrev pub balance_of : ℕ → List Account → ℤ
balance_of id = sum_where (with_account_id id)

abbrev pub total_in : Text → List Account → ℤ
total_in currency = sum_where (λ a. text_eq a.currency currency)

abbrev pub booked_to : ℕ → List LedgerEntry → ℤ
booked_to id = net (λ e. e.account_id == id)

abbrev pub imbalance : ℕ → List LedgerEntry → ℤ
imbalance transaction = net (λ e. e.transaction_id == transaction)

-- the accounts after a movement
abbrev pub moved : Movement → List Account → List Account
moved m rows =
    patch (with_account_id m.destination_id) (incremented m.amount)
      (patch (with_account_id m.source_id) (decremented m.amount) rows)

-- No two accounts have one id: `@id` of the schema.
abbrev pub IsKeyed : List Account → Type 0
IsKeyed rows = (id : ℕ) → count (with_account_id id) rows ≤ 1

-- The account of an id exists and is kept in a currency.
abbrev pub IsKeptIn : Text → ℕ → List Account → Type 0
IsKeptIn currency id rows =
    (count (with_account_id id) rows ≡ 1)
    × All (λ a. with_account_id id a ≡ true → a.currency ≡ currency) rows

-- The account of an id holds at least an amount.
abbrev pub Covers : ℤ → ℕ → List Account → Type 0
Covers amount id rows = All (λ a. with_account_id id a ≡ true → amount ≤ℤ a.available_balance) rows

-- A movement has been posted: the accounts have changed by it and by nothing else, and its debit and
-- credit are the only new entries.
pub record IsPosted (before after : Db) (m : Movement) : Type 0 where
  pub accounts : after.accounts ≡ moved m before.accounts
  pub entries :
      after.ledger_entries ≡ (before.ledger_entries ++ debit_entry m ∷ []) ++ credit_entry m ∷ []
  pub source : IsKeptIn m.currency m.source_id before.accounts
  pub destination : IsKeptIn m.currency m.destination_id before.accounts

-- The same without the accounts' currencies.
pub record IsBooked (before after : Db) (m : Movement) : Type 0 where
  pub accounts : after.accounts ≡ moved m before.accounts
  pub entries :
      after.ledger_entries ≡ (before.ledger_entries ++ debit_entry m ∷ []) ++ credit_entry m ∷ []
  pub source_one : count (with_account_id m.source_id) before.accounts ≡ 1
  pub destination_one : count (with_account_id m.destination_id) before.accounts ≡ 1

-- The account of an id holds at least an amount, or is one of the bank's own.
abbrev pub Funds : ℤ → ℕ → List Account → Type 0
Funds amount id rows =
    All (λ a. with_account_id id a ≡ true → a.is_system ≡ false → amount ≤ℤ a.available_balance)
      rows

-- No balance and no entry has changed.
pub record SameMoney (before after : Db) : Type 0 where
  pub accounts : after.accounts ≡ before.accounts
  pub entries : after.ledger_entries ≡ before.ledger_entries

-- A customer's account is not overdrawn.
abbrev pub IsNotOverdrawn : Account → Type 0
IsNotOverdrawn a = a.is_system ≡ false → pos 0 ≤ℤ a.available_balance

-- What holds of the money at all times, `opening` being the balances before the first entry.
pub record IsSound (opening : ℕ → ℤ) (db : Db) : Type 0 where
  pub keyed : IsKeyed db.accounts
  pub not_overdrawn : All IsNotOverdrawn db.accounts
  pub in_sync : (id : ℕ) → balance_of id db.accounts ≡ opening id +ℤ booked_to id db.ledger_entries
  pub balanced : (transaction : ℕ) → imbalance transaction db.ledger_entries ≡ pos 0
