-- ===== src/Prisma/Tx.antt =====
-- The callback of `prisma.$transaction`, and what running one may do. `TxState.outside` collects the
-- notifications that the callback writes over the client's own connection and not over `tx`
-- (backend/src/notifications/notifications.service.ts uses `this.prisma`): a rollback keeps those.
use online_banking.Base.{
  ℕ, ◌≡◌, List, [], ◌++◌, Exec, Result, ok, err, Exception, serialization_failure, database_error,
}
use online_banking.Schema.{Db, Notification}

pub record TxState : Type 0 where
  pub db : Db
  pub outside : List Notification

abbrev pub Tx : Type 0 → Type 0
Tx A = Exec TxState A

abbrev pub begin : Db → TxState
begin db = record { db = db; outside = [] }

-- the database with the notifications that were written beside a transaction
abbrev pub notified : Db → List Notification → Db
notified db sent = record db { notifications = db.notifications ++ sent }

-- The exceptions that the database itself raises when it gives up a transaction.
pub data IsAbort : Exception → Type 0 where
  conflicting : IsAbort serialization_failure
  failing : (n : ℕ) → IsAbort (database_error n)

-- How a transaction may end: it commits what the callback wrote, it rolls back because the
-- callback threw, or the database gives it up, at any statement or at the commit.
pub data Settles {A : Type 0} (body : Tx A) (db : Db) (out : Result A × Db) : Type 0 where
  committed :
      (a : A) (s : TxState)
      → body (begin db) ≡ (ok a, s)
      → out ≡ (ok a, notified s.db s.outside)
      → Settles body db out
  rolled_back :
      (e : Exception) (s : TxState)
      → body (begin db) ≡ (err e, s)
      → out ≡ (err e, notified db s.outside)
      → Settles body db out
  given_up :
      (e : Exception) (sent : List Notification)
      → IsAbort e
      → out ≡ (err e, notified db sent)
      → Settles body db out

-- `$transaction` of the client. The number tells the attempts of one request apart.
pub record Transactions : Type 1 where
  pub run : (A : Type 0) → ℕ → Tx A → Db → Result A × Db
  pub run_settles :
      (A : Type 0) (attempt : ℕ) (body : Tx A) (db : Db) → Settles body db (run A attempt body db)
