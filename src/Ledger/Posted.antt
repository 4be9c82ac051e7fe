-- ===== src/Ledger/Posted.antt =====
-- What a posted movement keeps: the money of a currency, the agreement of balances and entries, the
-- balance of each transaction's entries, and that no customer is overdrawn.
use online_banking.Base.{
  ℕ, ◌≡◌, ◌∙◌, ap, refl, Bool, true, false, List, [], ◌∷◌, arith, inl, inr, ◌==◌, if◌then◌else◌,
  count, patch, All, Bool-cases, count-patch, All-patch, All-map, All-intro,
}
use online_banking.Base.Int.{ℤ, pos, ◌+ℤ◌, ◌-ℤ◌, ◌≤ℤ◌, +ℤ_cancel_right, +ℤ_shift, int_laws}
use online_banking.Base.Text.{Text, text_eq}
use online_banking.Schema.{Db, Account}
use online_banking.Payments.Steps.{Movement, with_account_id, decremented, incremented}
use online_banking.Ledger.{
  sum_where, balance_of, total_in, booked_to, imbalance, moved, IsKeyed, Covers, IsPosted, IsBooked,
  Funds, SameMoney, IsNotOverdrawn, IsSound,
}
use online_banking.Ledger.Sums.{sum_where-patch, net-append_one}

abbrev when : Bool → ℤ → ℤ
when b d = if b then d else pos 0

decremented_grows :
    (amount : ℤ) (a : Account)
    → (decremented amount a).available_balance ≡ a.available_balance +ℤ (pos 0 -ℤ amount)
decremented_grows amount a = omega int_laws

-- A test on accounts that is constant on the accounts of a movement sees it in its sum.
module _ (p : Account → Bool) (m : Movement) (rows : List Account) (b c : Bool)
    (same : (amount : ℤ) (a : Account) → p (decremented amount a) ≡ p a)
    (same' : (amount : ℤ) (a : Account) → p (incremented amount a) ≡ p a) where
  sum_where-moved :
      count (with_account_id m.source_id) rows ≡ 1
      → count (with_account_id m.destination_id) rows ≡ 1
      → All (λ a. with_account_id m.source_id a ≡ true → p a ≡ b) rows
      → All (λ a. with_account_id m.destination_id a ≡ true → p a ≡ c) rows
      → sum_where p (moved m rows) +ℤ when b m.amount ≡ sum_where p rows +ℤ when c m.amount
  sum_where-moved one one' hb hc =
      let taken =
        sum_where-patch (decremented m.amount) (pos 0 -ℤ m.amount) (decremented_grows m.amount) p
          (with_account_id m.source_id) (same m.amount) b rows one hb in
      let rows' = patch (with_account_id m.source_id) (decremented m.amount) rows in
      let given =
        sum_where-patch (incremented m.amount) m.amount (λ a. refl) p
          (with_account_id m.destination_id) (same' m.amount) c rows'
          (count-patch (with_account_id m.destination_id) (with_account_id m.source_id)
              (decremented m.amount) rows (λ a. refl)
            ∙ one')
          (All-patch (λ a. with_account_id m.destination_id a ≡ true → p a ≡ c)
            (with_account_id m.source_id) (decremented m.amount) rows
            (λ a _ h e. same m.amount a ∙ h e) hc) in
      rw (given, taken)
        (elim (Bool-cases b) [
          | inl e ↦ rw e (elim (Bool-cases c) [
            | inl e' ↦ rw e' (omega int_laws)
            | inr e' ↦ rw e' (omega int_laws)
          ])
          | inr e ↦ rw e (elim (Bool-cases c) [
            | inl e' ↦ rw e' (omega int_laws)
            | inr e' ↦ rw e' (omega int_laws)
          ])
        ])

module _ {before after : Db} {m : Movement} (posted : IsPosted before after m) where
  -- A movement keeps the money of every currency.
  pub IsPosted-total :
      (currency : Text) → total_in currency after.accounts ≡ total_in currency before.accounts
  IsPosted-total currency =
      let b = text_eq m.currency currency in
      let p : Account → Bool = λ a. text_eq a.currency currency in
      let kept =
        λ (id : ℕ)
            (h : All (λ (a : Account). with_account_id id a ≡ true → a.currency ≡ m.currency)
              before.accounts).
          All-map _ (λ a. with_account_id id a ≡ true → p a ≡ b) before.accounts
            (λ a f e. ap (λ t. text_eq t currency) (f e)) h in
      let sums =
        sum_where-moved p m before.accounts b b (λ x a. refl) (λ x a. refl) posted.source.0
          posted.destination.0 (kept m.source_id posted.source.1)
          (kept m.destination_id posted.destination.1) in
      rw posted.accounts (+ℤ_cancel_right _ _ (when b m.amount) sums)

  pub IsPosted-IsBooked : IsBooked before after m
  IsPosted-IsBooked = record {
    accounts = posted.accounts;
    entries = posted.entries;
    source_one = posted.source.0;
    destination_one = posted.destination.0;
  }

module _ {before after : Db} {m : Movement} (booked : IsBooked before after m) where
  balance_of-moved :
      (id : ℕ)
      → balance_of id after.accounts +ℤ when (m.source_id == id) m.amount
        ≡ balance_of id before.accounts +ℤ when (m.destination_id == id) m.amount
  balance_of-moved id = rw booked.accounts (
      sum_where-moved (with_account_id id) m before.accounts (m.source_id == id)
        (m.destination_id == id) (λ x a. refl) (λ x a. refl) booked.source_one
        booked.destination_one (All-intro _ before.accounts (λ a e. ground arith))
        (All-intro _ before.accounts (λ a e. ground arith)))

  booked_to-posted :
      (id : ℕ)
      → booked_to id after.ledger_entries +ℤ when (m.source_id == id) m.amount
        ≡ booked_to id before.ledger_entries +ℤ when (m.destination_id == id) m.amount
  booked_to-posted id = rw (booked.entries, net-append_one, net-append_one) (grind int_laws)

  imbalance-posted : (t : ℕ) → imbalance t after.ledger_entries ≡ imbalance t before.ledger_entries
  imbalance-posted t = rw (booked.entries, net-append_one, net-append_one) (grind int_laws)

  -- Every account's balance moves with its entries.
  pub IsBooked-in_sync :
      (opening : ℕ → ℤ) (id : ℕ)
      → balance_of id before.accounts ≡ opening id +ℤ booked_to id before.ledger_entries
      → balance_of id after.accounts ≡ opening id +ℤ booked_to id after.ledger_entries
  IsBooked-in_sync opening id h =
      +ℤ_shift _ _ _ _ (opening id) _ _ (balance_of-moved id) (booked_to-posted id) h

  IsKeyed-posted : IsKeyed before.accounts → IsKeyed after.accounts
  IsKeyed-posted keyed id = rw booked.accounts (
      rw
        (count-patch (with_account_id id) (with_account_id m.destination_id) (incremented m.amount)
          (patch (with_account_id m.source_id) (decremented m.amount) before.accounts) (λ a. refl))
        (rw
          (count-patch (with_account_id id) (with_account_id m.source_id) (decremented m.amount)
            before.accounts (λ a. refl))
          (keyed id)))

  IsNotOverdrawn-posted :
      pos 0 ≤ℤ m.amount
      → Funds m.amount m.source_id before.accounts
      → All IsNotOverdrawn before.accounts
      → All IsNotOverdrawn after.accounts
  IsNotOverdrawn-posted nonneg covers h = rw booked.accounts (
      All-patch IsNotOverdrawn (with_account_id m.destination_id) (incremented m.amount)
        (patch (with_account_id m.source_id) (decremented m.amount) before.accounts)
        (λ a _ ok s. grind (int_laws, ok s)) (taken before.accounts covers h))
    where
      taken :
          (rows : List Account)
          → Funds m.amount m.source_id rows
          → All IsNotOverdrawn rows
          → All IsNotOverdrawn (patch (with_account_id m.source_id) (decremented m.amount) rows)
      taken [] c k = tt
      taken (a ∷ rows) c k = elim (Bool-cases (with_account_id m.source_id a)) [
        | inl hit ↦ rw hit ((λ s. omega (int_laws, c.0 hit s)), taken rows c.1 k.1)
        | inr miss ↦ rw miss (k.0, taken rows c.1 k.1)
      ]

  -- A movement from an account with the funds, or from one of the bank's own, keeps all that holds of
  -- the money.
  pub IsBooked-IsSound :
      {opening : ℕ → ℤ}
      → pos 0 ≤ℤ m.amount
      → Funds m.amount m.source_id before.accounts
      → IsSound opening before
      → IsSound opening after
  IsBooked-IsSound {opening} nonneg covers sound = record {
    keyed = IsKeyed-posted sound.keyed;
    not_overdrawn = IsNotOverdrawn-posted nonneg covers sound.not_overdrawn;
    in_sync = λ id. IsBooked-in_sync opening id (sound.in_sync id);
    balanced = λ t. imbalance-posted t ∙ sound.balanced t;
  }

-- A covered movement keeps all that holds of the money.
pub IsPosted-IsSound :
    {opening : ℕ → ℤ} {before after : Db} {m : Movement}
    → IsPosted before after m
    → pos 0 ≤ℤ m.amount
    → Covers m.amount m.source_id before.accounts
    → IsSound opening before
    → IsSound opening after
IsPosted-IsSound {before} {m} posted nonneg covers sound =
    IsBooked-IsSound (IsPosted-IsBooked posted) nonneg
      (All-map _
        (λ a.
          with_account_id m.source_id a ≡ true
          → a.is_system ≡ false
          → m.amount ≤ℤ a.available_balance)
        before.accounts (λ a f e _. f e) covers)
      sound

-- Where no money moves, all that holds of it stays.
pub SameMoney-IsSound :
    {opening : ℕ → ℤ} {before after : Db}
    → SameMoney before after
    → IsSound opening before
    → IsSound opening after
SameMoney-IsSound same sound = record {
  keyed = λ id. rw same.accounts (sound.keyed id);
  not_overdrawn = rw same.accounts sound.not_overdrawn;
  in_sync = λ id. rw (same.accounts, same.entries) (sound.in_sync id);
  balanced = λ t. rw same.entries (sound.balanced t);
}
