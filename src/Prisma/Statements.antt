-- ===== src/Prisma/Statements.antt =====
-- The client's statements on one table of `tx`; a table is a read and a write of the database.
use online_banking.Base.{ℕ, Bool, none, some, List, ok, err, unique_violation, record_not_found}
use online_banking.Schema.{
  Db, Account, Transaction, LedgerEntry, IdempotencyKey, AuditEvent, Notification,
}
use online_banking.Prisma.{Prisma, created, violated}
use online_banking.Prisma.Tx.{Tx, TxState}

pub record Table (R : Type 0) : Type 0 where
  pub rows : Db → List R
  pub replaced : Db → List R → Db

abbrev pub account_table : Table Account
account_table = record { rows = λ db. db.accounts; replaced = λ db t. record db { accounts = t } }

abbrev pub transaction_table : Table Transaction
transaction_table = record {
  rows = λ db. db.transactions;
  replaced = λ db t. record db { transactions = t };
}

abbrev pub ledger_entry_table : Table LedgerEntry
ledger_entry_table = record {
  rows = λ db. db.ledger_entries;
  replaced = λ db t. record db { ledger_entries = t };
}

abbrev pub idempotency_key_table : Table IdempotencyKey
idempotency_key_table = record {
  rows = λ db. db.idempotency_keys;
  replaced = λ db t. record db { idempotency_keys = t };
}

abbrev pub audit_event_table : Table AuditEvent
audit_event_table = record {
  rows = λ db. db.audit_events;
  replaced = λ db t. record db { audit_events = t };
}

abbrev pub notification_table : Table Notification
notification_table = record {
  rows = λ db. db.notifications;
  replaced = λ db t. record db { notifications = t };
}

module _ (prisma : Prisma) {R : Type 0} (table : Table R) where
  abbrev written : TxState → List R → TxState
  written s t = record s { db = table.replaced s.db t }

  -- `tx.<table>.create({ data })`
  abbrev pub insert : R → Tx (Unit {0})
  insert r s = elim (prisma.create R r (table.rows s.db)) [
    | created t ↦ (ok tt, written s t)
    | violated t ↦ (err unique_violation, written s t)
  ]

  -- `tx.<table>.updateMany({ where, data })`, which returns the count
  abbrev pub update_all : (R → Bool) → (R → R) → Tx ℕ
  update_all p f s = let (n, t) = prisma.update_many R p f (table.rows s.db) in (ok n, written s t)

  -- `tx.<table>.update({ where, data })` by a unique field
  abbrev pub update_one : (R → Bool) → (R → R) → Tx (Unit {0})
  update_one p f s = elim (prisma.update R p f (table.rows s.db)) [
    | some t ↦ (ok tt, written s t)
    | none ↦ (err record_not_found, s)
  ]
