-- ===== src/Ledger/Rows.antt =====
-- From the `where` clauses of a payment's statements to the accounts that they mean.
use online_banking.Base.{
  All-of_unique, ℕ, ◌≤◌, ◌≡◌, refl, Bool, true, List, [], ◌∷◌, ◌++◌, Memᴰ, arith, inl, inr, count,
  patch, All, Bool-cases, count-pos_of_Memᴰ, All-map,
}
use online_banking.Base.Int.{◌≤ℤ◌}
use online_banking.Base.Text.{Text}
use online_banking.Schema.{Db, Account}
use online_banking.Payments.Steps.{
  Movement, with_account_id, decremented, incremented, debit_entry, credit_entry,
}
use online_banking.Ledger.{IsKeyed, IsKeptIn, Covers, IsPosted}

module _ {p q : Account → Bool} (narrow : (a : Account) → p a ≡ true → q a ≡ true) where
  count-le : (rows : List Account) → count p rows ≤ count q rows
  count-le [] = omega arith
  count-le (a ∷ rows) = ground (arith, count-le rows, narrow a)

  -- If the wider test holds of no more rows than the narrower one, they agree.
  agree :
      (rows : List Account) → count q rows ≤ count p rows → All (λ a. q a ≡ true → p a ≡ true) rows
  agree [] h = tt
  agree (a ∷ rows) h = elim (Bool-cases (p a)) [
    | inl hit ↦ ((λ _. hit), agree rows (ground (arith, narrow a)))
    | inr miss ↦
        ((λ e. absurd (ground (arith, count-le rows))), agree rows (ground (arith, count-le rows)))
  ]

  patch-agree :
      (f : Account → Account) (rows : List Account)
      → All (λ a. q a ≡ true → p a ≡ true) rows
      → patch p f rows ≡ patch q f rows
  patch-agree f [] h = refl
  patch-agree f (a ∷ rows) h = ground (arith, patch-agree f rows h.1, narrow a, h.0)

-- A row that was read tells that its account exists and what its currency is.
pub IsKeptIn-of_row :
    (rows : List Account) (id : ℕ) (currency : Text) {a : Account}
    → IsKeyed rows
    → Memᴰ a rows
    → with_account_id id a ≡ true
    → a.currency ≡ currency
    → IsKeptIn currency id rows
IsKeptIn-of_row rows id currency keyed mem hit same = (
  omega (arith, keyed id, count-pos_of_Memᴰ (with_account_id id) rows mem hit),
  All-of_unique (with_account_id id) (λ a. a.currency ≡ currency) rows mem hit (keyed id) same,
)

-- A debit whose `where` clause names the source and asks for its funds, and which has changed one
-- row, followed by the credit of an account that exists, posts a covered movement.
module _ (before after : Db) (m : Movement) (p : Account → Bool) where
  pub IsPosted-of_debit :
      IsKeyed before.accounts
      → ((a : Account) → p a ≡ true → with_account_id m.source_id a ≡ true)
      → ((a : Account) → p a ≡ true → m.amount ≤ℤ a.available_balance)
      → IsKeptIn m.currency m.source_id before.accounts
      → IsKeptIn m.currency m.destination_id before.accounts
      → count p before.accounts ≡ 1
      → after.accounts
        ≡ patch
            (with_account_id m.destination_id)
            (incremented m.amount)
            (patch p (decremented m.amount) before.accounts)
      → after.ledger_entries ≡ (before.ledger_entries ++ debit_entry m ∷ []) ++ credit_entry m ∷ []
      → IsPosted before after m × Covers m.amount m.source_id before.accounts
  IsPosted-of_debit keyed narrow funds source destination one accounts entries =
      let same = agree narrow before.accounts (omega (arith, keyed m.source_id)) in
      (
        record {
          accounts = rw (← patch-agree narrow (decremented m.amount) before.accounts same) accounts;
          entries = entries;
          source = source;
          destination = destination;
        },
        All-map _ (λ a. with_account_id m.source_id a ≡ true → m.amount ≤ℤ a.available_balance)
            before.accounts (λ a f e. funds a (f e)) same,
      )

  -- the account of such a debit exists; its currency is known if the `where` clause asks for it
  pub IsKeptIn-of_debit :
      IsKeyed before.accounts
      → ((a : Account) → p a ≡ true → with_account_id m.source_id a ≡ true)
      → ((a : Account) → p a ≡ true → a.currency ≡ m.currency)
      → count p before.accounts ≡ 1
      → IsKeptIn m.currency m.source_id before.accounts
  IsKeptIn-of_debit keyed narrow kept one = (
    omega (arith, keyed m.source_id, count-le narrow before.accounts),
    All-map _ (λ a. with_account_id m.source_id a ≡ true → a.currency ≡ m.currency) before.accounts
        (λ a f e. kept a (f e)) (agree narrow before.accounts (omega (arith, keyed m.source_id))),
  )
