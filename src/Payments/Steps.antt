-- ===== src/Payments/Steps.antt =====
-- The statements that the three payment transactions of backend/src/payments/payments.service.ts
-- have in common, and the loop that repeats a transaction.
use online_banking.Base.{
  ℕ, zero, suc, ◌+◌, Bool, true, false, ◌&&◌, Option, none, some, [], ◌∷◌, ◌++◌, Exception,
  serialization_failure, Result, ok, err, ◌>>◌, ◌==◌, ltb, if◌then◌else◌, String,
}
use online_banking.Base.Int.{ℤ, ◌+ℤ◌, ◌-ℤ◌}
use online_banking.Base.Text.{Text, codes, text_eq, trim, to_upper_case, is_empty}
use online_banking.Schema.{
  Db, Account, Transaction, LedgerEntry, LedgerSide, IdempotencyKey, IdempotencyStatus,
  Notification, CustomerProfile,
}
use online_banking.Schema.Json.{Json}
use online_banking.Prisma.{Prisma, created, violated}
use online_banking.Prisma.Tx.{Tx}
use online_banking.Prisma.Statements.{
  insert, update_all, update_one, account_table, transaction_table, ledger_entry_table,
  idempotency_key_table, audit_event_table,
}

abbrev pub ron : Text
ron = codes "RON"

-- `(dto.currency ?? 'RON').trim().toUpperCase()`
unfoldable pub normalize_currency : Option Text → Text
unfolding trim to_upper_case
normalize_currency none = to_upper_case (trim ron)
normalize_currency (some currency) = to_upper_case (trim currency)

-- `description || null`
abbrev pub or_null : Option Text → Option Text
or_null none = none
or_null (some s) = if is_empty s then none else some s

-- The number of attempts, `SERIALIZABLE_RETRIES`.
abbrev pub serializable_retries : ℕ
serializable_retries = 5

-- `IDEMPOTENCY_TTL_MS`
abbrev pub idempotency_ttl_ms : ℕ
idempotency_ttl_ms = 86400000

unfoldable pub is_serialization_failure : Exception → Bool
is_serialization_failure serialization_failure = true
is_serialization_failure e = false

module _ {A : Type 0} where
  -- the `catch` of one round: the next rounds, or the exception again
  abbrev pub caught : (Db → Result A × Db) → ℕ → Result A × Db → Result A × Db
  caught rest attempt (ok a, db) = (ok a, db)
  caught rest attempt (err e, db) =
      if is_serialization_failure e && ltb attempt serializable_retries
      then rest db
      else (err e, db)

  -- `for (let attempt = …; attempt <= SERIALIZABLE_RETRIES; attempt += 1)` with the rounds that are
  -- left, and the exception behind the loop
  unfoldable pub with_retries : ℕ → ℕ → Exception → (ℕ → Db → Result A × Db) → Db → Result A × Db
  unfolding is_serialization_failure
  with_retries zero attempt after run db = (err after, db)
  with_retries (suc rounds) attempt after run db =
      caught (λ db'. with_retries rounds (attempt + 1) after run db') attempt (run attempt db)

abbrev pub by_user : ℕ → CustomerProfile → Bool
by_user user_id p = p.user_id == user_id

-- `where: { userId_key: { userId, key } }`
abbrev pub by_user_and_key : ℕ → Text → IdempotencyKey → Bool
by_user_and_key user_id key row = row.user_id == user_id && text_eq row.key key

abbrev pub with_account_id : ℕ → Account → Bool
with_account_id id a = a.id == id

abbrev pub decremented : ℤ → Account → Account
decremented amount a = record a { available_balance = a.available_balance -ℤ amount }

abbrev pub incremented : ℤ → Account → Account
incremented amount a = record a { available_balance = a.available_balance +ℤ amount }

-- One movement of money, as the rows that record it say it.
pub record Movement : Type 0 where
  pub transaction_id : ℕ
  pub source_id : ℕ
  pub destination_id : ℕ
  pub amount : ℤ
  pub currency : Text
  pub credit_sequence : ℕ
  pub at : ℕ

abbrev pub debit_entry : Movement → LedgerEntry
debit_entry m = record {
  transaction_id = m.transaction_id;
  account_id = m.source_id;
  side = LedgerSide.debit;
  amount = m.amount;
  currency = m.currency;
  sequence = 0;
  created_at = m.at;
}

abbrev pub credit_entry : Movement → LedgerEntry
credit_entry m = record {
  transaction_id = m.transaction_id;
  account_id = m.destination_id;
  side = LedgerSide.credit;
  amount = m.amount;
  currency = m.currency;
  sequence = m.credit_sequence;
  created_at = m.at;
}

module _ (prisma : Prisma) where
  -- `tx.account.updateMany` that takes the amount away, where the test holds
  unfoldable pub debit : (Account → Bool) → ℤ → Tx ℕ
  debit p amount = update_all prisma account_table p (decremented amount)

  -- the credit, the transaction's row and its two ledger entries
  unfoldable pub credit_and_record : Movement → Transaction → Tx (Unit {0})
  credit_and_record m row = do
    update_one prisma account_table (with_account_id m.destination_id) (incremented m.amount)
    insert prisma transaction_table row
    insert prisma ledger_entry_table (debit_entry m)
    insert prisma ledger_entry_table (credit_entry m)

  unfoldable pub audit : ℕ → String → ℕ → ℕ → Tx (Unit {0})
  audit user_id action transaction_id now = insert prisma audit_event_table (record {
    actor_user_id = user_id;
    action = action;
    resource_type = "Transaction";
    resource_id = transaction_id;
    ip_address = none;
    user_agent = none;
    created_at = now;
  })

  -- `NotificationsService.create`, called inside a transaction's callback: over the client's own
  -- connection, and a failure is only logged
  unfoldable pub notify : Notification → Tx (Unit {0})
  notify n s = elim (prisma.create Notification n (s.db.notifications ++ s.outside)) [
    | created _ ↦ (ok tt, record s { outside = s.outside ++ n ∷ [] })
    | violated _ ↦ (ok tt, s)
  ]

  -- the idempotency key is completed with the response
  unfoldable pub complete_key : ℕ → Json → ℕ → Tx (Unit {0})
  complete_key id body now =
      update_one prisma idempotency_key_table (λ k. k.id == id)
        (λ k. record k {
          status = IdempotencyStatus.completed;
          response_payload = some body;
          http_status = some 201;
          completed_at = some now;
        })

  -- `update({ data: { status: FAILED } })`
  unfoldable pub fail_key : ℕ → Tx (Unit {0})
  fail_key id =
      update_one prisma idempotency_key_table (λ k. k.id == id)
        (λ k. record k { status = IdempotencyStatus.failed })
