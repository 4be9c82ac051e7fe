-- ===== src/Payments/Existing.antt =====
-- What the payments to a beneficiary and to a merchant have in common: an existing idempotency key,
-- and the account that pays (backend/src/payments/payments.service.ts).
use online_banking.Base.{
  ℕ, Bool, false, not, ◌&&◌, Option, none, some, conflict, bad_request, pure, throw, ◌==◌,
}
use online_banking.Base.Text.{Text, text_eq}
use online_banking.Schema.{Account, account_is_active, IdempotencyStatus}
use online_banking.Prisma.Tx.{Tx}
use online_banking.Payments.Types.{ServiceResult}

-- `stored === hash`
abbrev pub same_hash : Text → Option Text → Bool
same_hash hash none = false
same_hash hash (some stored) = text_eq stored hash

-- What an existing key gives, by its status and its stored response.
abbrev pub existing_outcome : {B : Type 0} → IdempotencyStatus → Option B → Tx (ServiceResult B)
existing_outcome IdempotencyStatus.completed (some body) =
    pure (record { http_status = 200; body = body })
existing_outcome IdempotencyStatus.failed _ =
    throw (bad_request "Previous attempt with this key failed")
existing_outcome _ _ = throw (conflict "A request with this key is currently in progress")

-- the `where` of a payment's source account
abbrev pub spendable : ℕ → ℕ → Text → Account → Bool
spendable id customer_id currency a =
    a.id == id
    && (a.customer_id == customer_id
        && (account_is_active a.status && (text_eq a.currency currency && not a.is_system)))
