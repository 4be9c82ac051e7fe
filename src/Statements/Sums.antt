-- ===== src/Statements/Sums.antt =====
-- Sums over an account's entries.
use online_banking.Base.{
  ℕ, ◌+◌, ◌≡◌, ◌≤◌, refl, sym, Bool, true, false, ◌&&◌, none, some, inl, inr, List, [], ◌∷◌, arith,
  count, Bool-cases, ltb, leb, ◌==◌, if◌then◌else◌,
}
use online_banking.Base.Int.{ℤ, pos, ◌+ℤ◌, ◌-ℤ◌, int_laws}
use online_banking.Schema.{LedgerEntry, LedgerSide, is_debit, is_credit}
use online_banking.Prisma.{sum_column}
use online_banking.Numbers.{magnitude, magnitude_add}
use online_banking.Ledger.{net, signed}
use online_banking.Statements.{end_of_day, or_zero}

-- the entries of an account until a time
abbrev pub booked_until : ℕ → ℕ → List LedgerEntry → ℤ
booked_until id at = net (λ e. e.account_id == id && leb e.created_at at)

abbrev pub booked_before : ℕ → ℕ → List LedgerEntry → ℤ
booked_before id at = net (λ e. e.account_id == id && ltb e.created_at at)

abbrev pub amount_of : LedgerEntry → ℤ
amount_of e = e.amount

sub_add : (a b c d x y : ℤ) → a -ℤ b ≡ x → c -ℤ d ≡ y → (a +ℤ c) -ℤ (b +ℤ d) ≡ x +ℤ y
sub_add a b c d x y h k = rw (← h, ← k) (omega int_laws)

add_add : (a b c d x y : ℤ) → a +ℤ b ≡ x → c +ℤ d ≡ y → (a +ℤ c) +ℤ (b +ℤ d) ≡ x +ℤ y
add_add a b c d x y h k = rw (← h, ← k) (omega int_laws)

pub add_sub : (a b c : ℤ) → a +ℤ b -ℤ c ≡ a +ℤ (b -ℤ c)
add_sub a b c = omega int_laws

-- one entry's part of a difference of two sums
side_part :
    (side : LedgerSide) (b c : Bool) (x : ℤ)
    → (if b && (is_credit side && c) then x else pos 0)
        -ℤ (if b && (is_debit side && c) then x else pos 0)
      ≡ (if b && c then (if is_debit side then pos 0 -ℤ x else x) else pos 0)
side_part LedgerSide.debit true true x = omega int_laws
side_part LedgerSide.debit true false x = omega int_laws
side_part LedgerSide.debit false c x = omega int_laws
side_part LedgerSide.credit true true x = omega int_laws
side_part LedgerSide.credit true false x = omega int_laws
side_part LedgerSide.credit false c x = omega int_laws

-- credits less debits, summed apart, are the net of the entries
pub net_of_sums :
    (q r : LedgerEntry → Bool) (entries : List LedgerEntry)
    → sum_column (λ e. q e && (is_credit e.side && r e)) amount_of entries
        -ℤ sum_column (λ e. q e && (is_debit e.side && r e)) amount_of entries
      ≡ net (λ e. q e && r e) entries
net_of_sums q r [] = omega int_laws
net_of_sums q r (e ∷ entries) =
    sub_add _ _ _ _ _ _ (side_part e.side (q e) (r e) e.amount) (net_of_sums q r entries)

-- a period's end is its beginning with the entries between
period_part :
    (b : Bool) (at start end : ℕ) (x : ℤ)
    → start ≤ end + 1
    → (if b && ltb at start then x else pos 0)
        +ℤ (if b && (leb start at && leb at end) then x else pos 0)
      ≡ (if b && leb at end then x else pos 0)
period_part false at start end x h = omega int_laws
period_part true at start end x h = elim (Bool-cases (ltb at start)) [
  | inl early ↦ elim (Bool-cases (leb at end)) [
    | inl le ↦
        let late : leb start at ≡ false = ground arith in rw (early, late, le) (omega int_laws)
    | inr gt ↦ absurd (ground arith)
  ]
  | inr later ↦ let from : leb start at ≡ true = ground arith in rw (later, from) (omega int_laws)
]

pub net_of_period :
    (id start end : ℕ) (entries : List LedgerEntry)
    → start ≤ end + 1
    → booked_before id start entries
        +ℤ net (λ e. e.account_id == id && (leb start e.created_at && leb e.created_at end)) entries
      ≡ booked_until id end entries
net_of_period id start end [] h = omega int_laws
net_of_period id start end (e ∷ entries) h =
    add_add _ _ _ _ _ _ (period_part (e.account_id == id) e.created_at start end (signed e) h)
      (net_of_period id start end entries h)

pub or_zero_lem :
    (p : LedgerEntry → Bool) (t : List LedgerEntry)
    → or_zero (if count p t == 0 then none else some (sum_column p amount_of t))
      ≡ sum_column p amount_of t
or_zero_lem p t = elim (Bool-cases (count p t == 0)) [
  | inl none_there ↦ rw none_there (sym (empty_sum p t (ground arith)))
  | inr there ↦ rw there refl
]
  where
    empty_sum :
        (p : LedgerEntry → Bool) (t : List LedgerEntry)
        → count p t ≡ 0
        → sum_column p amount_of t ≡ pos 0
    empty_sum p [] h = refl
    empty_sum p (e ∷ t) h = elim (Bool-cases (p e)) [
      | inl hit ↦ absurd (ground arith)
      | inr miss ↦ rw miss (rw (empty_sum p t (ground arith)) (omega int_laws))
    ]

-- how much the account's entries move, whatever their side
abbrev pub turnover : ℕ → List LedgerEntry → ℕ
turnover id [] = 0
turnover id (e ∷ entries) =
    (if e.account_id == id then magnitude e.amount else 0) + turnover id entries

pub sum_column-le_turnover :
    (id : ℕ) (q : LedgerEntry → Bool) (entries : List LedgerEntry)
    → magnitude (sum_column (λ e. e.account_id == id && q e) amount_of entries)
      ≤ turnover id entries
sum_column-le_turnover id q [] = omega arith
sum_column-le_turnover id q (e ∷ entries) =
    let rest = sum_column-le_turnover id q entries in
    let own = e.account_id == id in
    let head : magnitude (if own && q e then e.amount else pos 0)
        ≤ (if own then magnitude e.amount else 0) =
      ground arith in
    omega (
      arith,
      rest,
      head,
      magnitude_add (if own && q e then e.amount else pos 0)
          (sum_column (λ x. x.account_id == id && q x) amount_of entries),
    )

pub end_of_day-ge : (t : ℕ) → t ≤ end_of_day t
unfolding end_of_day
end_of_day-ge t = omega arith
