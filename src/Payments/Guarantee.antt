-- ===== src/Payments/Guarantee.antt =====
-- From what one transaction's body does to what a request does, its guards and retries included.
use online_banking.Base.{ℕ, List, ◌≡◌, refl, ap, Result, ok}
use online_banking.Schema.{Db, Notification}
use online_banking.Prisma.Tx.{Tx, TxState, begin, notified}
use online_banking.Services.{World}
use online_banking.Payments.Types.{ServiceResult}
use online_banking.Payments.Steps.{Movement}
use online_banking.Payments.Outcome.{IsSettled, IsSettled-SameMoney, Outcome, settled, taken_back}
use online_banking.Payments.Retries.{Ran, returned, failed}

module _ {B : Type 0} (body : ℕ → Tx (ServiceResult B)) (Allowed : ℕ → Movement → Type 0)
    (Replays : B → Type 0) (w : World)
    (settles : (attempt : ℕ) (sent : List Notification) (s' : TxState) (r : ServiceResult B)
      → body attempt (begin (notified w.db sent)) ≡ (ok r, s')
      → IsSettled (Allowed attempt) Replays (notified w.db sent) s'.db r) where
  pub Ran-Outcome :
      (out : Result (ServiceResult B) × Db)
      → Ran body w.db out
      → Outcome Allowed Replays w (out.0, record w { db = out.1 })
  Ran-Outcome out (returned attempt sent r s h e) =
      settled attempt r (ap (λ o. o.0) e)
        (rw e (
          IsSettled-SameMoney {before' = notified w.db sent} {after' = s.db}
            (record { accounts = refl; entries = refl })
            (record { accounts = refl; entries = refl }) (settles attempt sent s r h)))
        refl
  Ran-Outcome out (failed x sent e) = taken_back sent (rw e) (ap (λ o. o.1) e) refl
