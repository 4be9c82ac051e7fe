-- ===== src/Payments/Retries.antt =====
-- The loop that repeats a payment's transaction when the database reports a conflict.
use mathlib.Core.List.{append-nil, append_assoc}
use online_banking.Base.{
  ℕ, zero, suc, ◌+◌, ◌≡◌, refl, sym, ap, subst, ◌&&◌, inl, inr, List, [], ◌++◌, arith, ltb,
  Exception, Result, ok, err, Bool-cases, fun_ext, returns?,
}
use online_banking.Schema.{Db, Notification}
use online_banking.Prisma.Tx.{
  Tx, TxState, begin, notified, Settles, committed, rolled_back, given_up, Transactions,
}
use online_banking.Payments.Steps.{
  with_retries, caught, is_serialization_failure, serializable_retries,
}

-- What a loop that began at `db` has done: the body of one attempt was committed, or none was.
-- Earlier attempts have left notifications at most.
pub data Ran {A : Type 0} (body : ℕ → Tx A) (db : Db) (out : Result A × Db) : Type 0 where
  returned :
      (attempt : ℕ) (sent : List Notification) (a : A) (s : TxState)
      → body attempt (begin (notified db sent)) ≡ (ok a, s)
      → out ≡ (ok a, notified s.db s.outside)
      → Ran body db out
  failed :
      (e : Exception) (sent : List Notification) → out ≡ (err e, notified db sent) → Ran body db out

notified-append :
    (db : Db) (sent more : List Notification)
    → notified (notified db sent) more ≡ notified db (sent ++ more)
notified-append db sent more =
    ap (λ n. record db { notifications = n }) (append_assoc db.notifications sent more)

notified-nil : (db : Db) → db ≡ notified db []
notified-nil db = ap (λ n. record db { notifications = n }) (sym (append-nil db.notifications))

module _ {A : Type 0} (transactions : Transactions) (body : ℕ → Tx A) (db : Db) where
  abbrev attempt_at : ℕ → Db → Result A × Db
  attempt_at n = transactions.run A n (body n)

  module _ (rest : Db → Result A × Db) (attempt : ℕ) (sent : List Notification)
      (next : (more : List Notification) → Ran body db (rest (notified db (sent ++ more)))) where
    caught-Ran :
        (e : Exception) (more : List Notification)
        → Ran body db (caught rest attempt (err e, notified (notified db sent) more))
    caught-Ran e more =
        rw (notified-append db sent more)
          (elim (Bool-cases (is_serialization_failure e && ltb attempt serializable_retries)) [
            | inl again ↦ rw again (next more)
            | inr last ↦ rw last (failed e (sent ++ more) refl)
          ])

    settled-Ran :
        Settles (body attempt) (notified db sent) (attempt_at attempt (notified db sent))
        → Ran body db (caught rest attempt (attempt_at attempt (notified db sent)))
    settled-Ran (committed a s h e) = rw e (returned attempt sent a s h refl)
    settled-Ran (rolled_back x s h e) = rw e (caught-Ran x s.outside)
    settled-Ran (given_up x more abort e) = rw e (caught-Ran x more)

    round-Ran : Ran body db (caught rest attempt (attempt_at attempt (notified db sent)))
    round-Ran = settled-Ran (transactions.run_settles A attempt (body attempt) (notified db sent))

  with_retries-Ran_from :
      (rounds attempt : ℕ) (after : Exception) (sent : List Notification)
      → Ran body db (with_retries rounds attempt after attempt_at (notified db sent))
  unfolding with_retries
  with_retries-Ran_from zero attempt after sent = failed after sent refl
  with_retries-Ran_from (suc rounds) attempt after sent =
      round-Ran (λ db'. with_retries rounds (attempt + 1) after attempt_at db') attempt sent
        (λ more. with_retries-Ran_from rounds (attempt + 1) after (sent ++ more))

  pub with_retries-Ran :
      (rounds attempt : ℕ) (after : Exception)
      → Ran body db (with_retries rounds attempt after attempt_at db)
  with_retries-Ran rounds attempt after =
      subst (λ x. Ran body db (with_retries rounds attempt after attempt_at x))
        (sym (notified-nil db)) (with_retries-Ran_from rounds attempt after [])

module _ {A : Type 0} (run : ℕ → Db → Result A × Db) (after after' : Exception) where
  same_rounds :
      (rounds attempt : ℕ)
      → suc rounds + attempt ≡ suc serializable_retries
      → (db : Db)
      → with_retries (suc rounds) attempt after run db
        ≡ with_retries (suc rounds) attempt after' run db
  unfolding with_retries
  same_rounds zero attempt last db = elim (returns? (run attempt db)) [
    | inl (a, t, e) ↦ rw (e, with_retries) refl
    | inr (x, t, e) ↦ rw (e, with_retries) (ground arith)
  ]
  same_rounds (suc rounds) attempt left db =
      ap (λ rest. caught rest attempt (run attempt db))
        (fun_ext (λ db'. same_rounds rounds (attempt + 1) (omega arith) db'))

  -- The exception behind the loop is never thrown: the fifth attempt returns or throws its own.
  pub with_retries-after :
      (db : Db)
      → with_retries serializable_retries 1 after run db
        ≡ with_retries serializable_retries 1 after' run db
  with_retries-after db = same_rounds 4 1 refl db
