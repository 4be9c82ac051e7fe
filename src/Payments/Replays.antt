-- ===== src/Payments/Replays.antt =====
-- What the answer of an existing key is, for the payments to a beneficiary and to a merchant.
use online_banking.Base.{
  ℕ, ◌≡◌, refl, ap, true, not, Option, none, some, Memᴰ, arith, Exception, ok, throw_if, ◌>>◌, inl,
  inr, Bool-cases,
}
use online_banking.Base.Text.{Text, text_eq→eq}
use online_banking.Schema.{IdempotencyKey, IdempotencyStatus}
use online_banking.Schema.Json.{Json}
use online_banking.Prisma.{Prisma}
use online_banking.Prisma.Tx.{TxState}
use online_banking.Payments.Types.{ServiceResult}
use online_banking.Payments.Steps.{Movement, by_user_and_key}
use online_banking.Payments.Existing.{same_hash, existing_outcome}
use online_banking.Payments.Outcome.{IsRecorded, IsStored, listed, IsSettled, replayed}

same_hash-IsRecorded :
    (hash : Text) (stored : Option Text) → same_hash hash stored ≡ true → IsRecorded hash stored
same_hash-IsRecorded hash none h = cc
same_hash-IsRecorded hash (some t) h = ap some (text_eq→eq t hash h)

module _ {B : Type 0} (r : ServiceResult B) (s s' : TxState) where
  existing_outcome-completed :
      (status : IdempotencyStatus) (answer : Option B)
      → existing_outcome status answer s ≡ (ok r, s')
      → (status ≡ IdempotencyStatus.completed)
        × (answer ≡ some r.body)
        × (r.http_status ≡ 200)
        × (s' ≡ s)
  existing_outcome-completed IdempotencyStatus.completed (some body) h =
      (refl, ground arith, ground arith, ground arith)
  existing_outcome-completed IdempotencyStatus.completed none h = cc
  existing_outcome-completed IdempotencyStatus.failed answer h = cc
  existing_outcome-completed IdempotencyStatus.in_progress answer h = cc

  -- An existing key that gives a result gives its stored answer, if it is completed and was recorded
  -- with the request's hash, and moves nothing.
  pub existing_outcome-IsSettled :
      (prisma : Prisma) (user_id : ℕ) (key hash : Text) (parse : Option Json → Option B)
      (row : IdempotencyKey) (e : Exception) (Allowed : Movement → Type 0)
      → Memᴰ row s.db.idempotency_keys
      → by_user_and_key user_id key row ≡ true
      → (throw_if (not (same_hash hash row.request_hash)) e
            >> existing_outcome row.status (parse row.response_payload))
          s
        ≡ (ok r, s')
      → IsSettled Allowed
          (IsStored prisma user_id key (IsRecorded hash) parse s.db.idempotency_keys)
          s.db
          s'.db
          r
  existing_outcome-IsSettled prisma user_id key hash parse row e Allowed there own h =
      elim (Bool-cases (same_hash hash row.request_hash)) [
        | inr differs ↦ absurd (ground arith)
        | inl same ↦
            let (done, given, status, kept) =
              existing_outcome-completed row.status (parse row.response_payload) (ground arith) in
            replayed status
              (record {
                row = row;
                known = listed there;
                own = own;
                completed = done;
                fits = same_hash-IsRecorded hash row.request_hash same;
                answer = given;
              })
              (record { accounts = rw kept refl; entries = rw kept refl })
      ]
