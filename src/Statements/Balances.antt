-- ===== src/Statements/Balances.antt =====
-- What a statement's balances mean in the ledger.
use online_banking.Base.{
  ℕ, ◌+◌, ◌≡◌, ◌≤◌, sym, subst, Bool, ◌&&◌, inl, inr, List, arith, ok, returns?, ltb, leb, ◌==◌,
}
use online_banking.Base.Int.{ℤ, ◌+ℤ◌, ◌-ℤ◌}
use online_banking.Base.Text.{Text}
use online_banking.Schema.{Account, LedgerEntry, is_debit, is_credit}
use online_banking.Prisma.{sum_column}
use online_banking.Numbers.{Numbers, Prints, magnitude, magnitude_add, magnitude_sub}
use online_banking.Services.{Services, World}
use online_banking.Statements.{
  or_zero, earlier, within, listed_in, Statement, with_transactions, statement_of,
}
use online_banking.Statements.Sums.{
  booked_until, booked_before, amount_of, net_of_sums, net_of_period, or_zero_lem, add_sub,
  turnover, sum_column-le_turnover,
}

module _ (svc : Services) (account : Account) (from to : Text) (start end : ℕ) (w w' : World)
    (r : Statement) (h : statement_of svc account from to start end w ≡ (ok r, w'))
    (modest : turnover account.id w.db.ledger_entries ≤ 75000000000000) where
  abbrev num : Numbers
  num = svc.numbers

  abbrev column : (LedgerEntry → Bool) → ℤ
  column p = sum_column p amount_of w.db.ledger_entries

  abbrev Shown : Text → ℤ → Type 0
  Shown t d = Prints num.decimal_4 t d

  abbrev stored : (LedgerEntry → Bool) → ℤ
  stored p = or_zero (svc.prisma.aggregate_sum LedgerEntry p amount_of w.db.ledger_entries)

  stored-column : (p : LedgerEntry → Bool) → stored p ≡ column p
  stored-column p =
      rw (svc.prisma.aggregate_sum_adds LedgerEntry p amount_of w.db.ledger_entries)
        (or_zero_lem p w.db.ledger_entries)

  abbrev raw : List LedgerEntry
  raw =
      svc.prisma.find_many LedgerEntry (listed_in account.id start end)
        (λ a b. leb b.created_at a.created_at) w.db.ledger_entries

  abbrev number_of : (LedgerEntry → Bool) → num.Number
  number_of p = num.of_decimal (stored p)

  abbrev opening_number : num.Number
  opening_number =
      num.subtract (number_of (earlier is_credit account.id start))
        (number_of (earlier is_debit account.id start))

  parts :
      (r.opening_balance ≡ num.to_fixed_4 opening_number)
      × (r.closing_balance
          ≡ num.to_fixed_4 (
              num.subtract
                (num.add opening_number (number_of (within is_credit account.id start end)))
                (number_of (within is_debit account.id start end))))
      × (r.total_debits ≡ num.to_fixed_4 (number_of (within is_debit account.id start end)))
      × (r.total_credits ≡ num.to_fixed_4 (number_of (within is_credit account.id start end)))
  unfolding statement_of
  parts = elim (returns? (with_transactions svc raw w)) [
    | inl (rest, t, e) ↦ (ground arith, ground arith, ground arith, ground arith)
    | inr (x, t, e) ↦ absurd (ground arith)
  ]

  bounded :
      (q : LedgerEntry → Bool)
      → magnitude (column (λ e. e.account_id == account.id && q e)) ≤ 75000000000000
  bounded q = omega (arith, modest, sum_column-le_turnover account.id q w.db.ledger_entries)

  sum_near :
      (q : LedgerEntry → Bool)
      → num.IsNear 1
          (number_of (λ e. e.account_id == account.id && q e))
          (column (λ e. e.account_id == account.id && q e))
  sum_near q =
      let p : LedgerEntry → Bool = λ e. e.account_id == account.id && q e in
      subst (λ x. num.IsNear 1 (num.of_decimal x) (column p)) (sym (stored-column p))
        (num.of_decimal_near (column p) (omega (arith, bounded q)))

  abbrev credit_before : LedgerEntry → Bool
  credit_before e = is_credit e.side && ltb e.created_at start

  abbrev debit_before : LedgerEntry → Bool
  debit_before e = is_debit e.side && ltb e.created_at start

  abbrev credit_within : LedgerEntry → Bool
  credit_within e = is_credit e.side && (leb start e.created_at && leb e.created_at end)

  abbrev debit_within : LedgerEntry → Bool
  debit_within e = is_debit e.side && (leb start e.created_at && leb e.created_at end)

  abbrev of_account : (LedgerEntry → Bool) → ℤ
  of_account q = column (λ e. e.account_id == account.id && q e)

  opening_near : num.IsNear 3 opening_number (of_account credit_before -ℤ of_account debit_before)
  opening_near =
      num.subtract_near 1 1 _ _ _ _ (omega arith)
        (omega (
          arith,
          magnitude_sub (of_account credit_before) (of_account debit_before),
          bounded credit_before,
          bounded debit_before,
        ))
        (sum_near credit_before) (sum_near debit_before)

  pub total_debits-Shown : Shown r.total_debits (of_account debit_within)
  total_debits-Shown = rw parts.2 (num.to_fixed_4_near 1 _ _ (omega arith) (sum_near debit_within))

  pub total_credits-Shown : Shown r.total_credits (of_account credit_within)
  total_credits-Shown =
      rw parts.3 (num.to_fixed_4_near 1 _ _ (omega arith) (sum_near credit_within))

  pub opening-Shown : Shown r.opening_balance (booked_before account.id start w.db.ledger_entries)
  opening-Shown =
      rw
        (
          parts.0,
          ← net_of_sums (λ e. e.account_id == account.id) (λ e. ltb e.created_at start)
              w.db.ledger_entries,
        )
        (num.to_fixed_4_near 3 _ _ (omega arith) opening_near)

  closing_near :
      num.IsNear 7
        (num.subtract
          (num.add opening_number (number_of (within is_credit account.id start end)))
          (number_of (within is_debit account.id start end)))
        (of_account credit_before
          -ℤ of_account debit_before
          +ℤ of_account credit_within
          -ℤ of_account debit_within)
  closing_near =
      let before = of_account credit_before -ℤ of_account debit_before in
      let less = magnitude_sub (of_account credit_before) (of_account debit_before) in
      let more = magnitude_add before (of_account credit_within) in
      let last = magnitude_sub (before +ℤ of_account credit_within) (of_account debit_within) in
      num.subtract_near 5 1 _ _ _ _ (omega arith)
        (omega (
          arith,
          less,
          more,
          last,
          bounded credit_before,
          bounded debit_before,
          bounded credit_within,
          bounded debit_within,
        ))
        (num.add_near 3 1 _ _ _ _ (omega arith)
          (omega
            (arith, less, more, bounded credit_before, bounded debit_before, bounded credit_within))
          opening_near (sum_near credit_within))
        (sum_near debit_within)

  closing_sum :
      start ≤ end + 1
      → of_account credit_before
          -ℤ of_account debit_before
          +ℤ of_account credit_within
          -ℤ of_account debit_within
        ≡ booked_until account.id end w.db.ledger_entries
  closing_sum le =
      rw
        (
          net_of_sums (λ e. e.account_id == account.id) (λ e. ltb e.created_at start)
              w.db.ledger_entries,
          add_sub,
          net_of_sums (λ e. e.account_id == account.id)
              (λ e. leb start e.created_at && leb e.created_at end) w.db.ledger_entries,
        )
        (net_of_period account.id start end w.db.ledger_entries le)

  pub closing-Shown :
      start ≤ end + 1 → Shown r.closing_balance (booked_until account.id end w.db.ledger_entries)
  closing-Shown le =
      rw (parts.1, ← closing_sum le) (num.to_fixed_4_near 7 _ _ (omega arith) closing_near)
