-- ===== src/Ledger/Sums.antt =====
-- How a patch of one account, and the entries of one movement, change the sums.
use online_banking.Base.{
  ◌≡◌, refl, Bool, true, List, [], ◌∷◌, ◌++◌, arith, inl, inr, if◌then◌else◌, count, patch, All,
  Bool-cases,
}
use online_banking.Base.Int.{ℤ, pos, ◌+ℤ◌, int_laws}
use online_banking.Schema.{Account, LedgerEntry}
use online_banking.Ledger.{sum_where, net, signed}

module _ (f : Account → Account) (d : ℤ)
    (grows : (a : Account) → (f a).available_balance ≡ a.available_balance +ℤ d) where
  module _ (p q : Account → Bool) (same : (a : Account) → p (f a) ≡ p a) where
    sum_where-patch_none :
        (rows : List Account) → count q rows ≡ 0 → sum_where p (patch q f rows) ≡ sum_where p rows
    sum_where-patch_none [] h = refl
    sum_where-patch_none (a ∷ rows) h = ground (arith, sum_where-patch_none rows)

    -- One row is patched: the sum over a test grows if that row satisfies it.
    pub sum_where-patch :
        (b : Bool) (rows : List Account)
        → count q rows ≡ 1
        → All (λ a. q a ≡ true → p a ≡ b) rows
        → sum_where p (patch q f rows) ≡ sum_where p rows +ℤ (if b then d else pos 0)
    sum_where-patch b [] h k = absurd (omega arith)
    sum_where-patch b (a ∷ rows) h k = elim (Bool-cases (q a)) [
      | inl hit ↦ grind (int_laws, sum_where-patch_none rows, same a, grows a, k.0 hit)
      | inr miss ↦ grind (int_laws, sum_where-patch b rows (ground arith) k.1)
    ]

module _ (p : LedgerEntry → Bool) where
  -- An entry at the end adds its own part.
  pub net-append_one :
      (entries : List LedgerEntry) (e : LedgerEntry)
      → net p (entries ++ e ∷ []) ≡ net p entries +ℤ (if p e then signed e else pos 0)
  net-append_one [] e = omega int_laws
  net-append_one (x ∷ entries) e = rw (net-append_one entries e) (omega int_laws)
