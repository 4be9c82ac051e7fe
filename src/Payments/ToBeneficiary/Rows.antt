-- ===== src/Payments/ToBeneficiary/Rows.antt =====
-- The rows that a payment to a beneficiary looks for and writes
-- (`executeBeneficiaryTransferTx` of backend/src/payments/payments.service.ts).
use online_banking.Base.{ℕ, ◌+◌, Bool, not, ◌&&◌, Option, none, some, ◌==◌}
use online_banking.Base.Int.{ℤ, leb_ℤ}
use online_banking.Base.Text.{Text, text_eq}
use online_banking.Schema.{
  Account, account_is_active, Transaction, TransactionType, TransactionStatus, IdempotencyKey,
  IdempotencyStatus, Notification,
}
use text.Mathlib.Text.{◌==◌ as str_eq}
use online_banking.Services.{Draw}
use online_banking.Payments.Steps.{or_null, idempotency_ttl_ms, Movement}

-- the `where` of an account of this bank with the payee's IBAN
abbrev pub internal_account : Text → Text → Account → Bool
internal_account iban currency a =
    text_eq a.iban iban
    && (account_is_active a.status && (text_eq a.currency currency && not a.is_system))

-- the `where` of the external settlement account
abbrev pub external_settlement : Text → Account → Bool
external_settlement currency a =
    str_eq a.account_type "EXTERNAL_SETTLEMENT"
    && (a.is_system && (account_is_active a.status && text_eq a.currency currency))

-- the `where` of the beneficiary's debit
abbrev pub covered : ℕ → ℤ → Account → Bool
covered id amount a = a.id == id && leb_ℤ amount a.available_balance

-- Where the money goes: the account's id, and its customer if the payee banks here.
pub record Destination : Type 0 where
  pub account_id : ℕ
  pub internal : Bool
  pub customer_id : ℕ

unfoldable pub beneficiary_row : Movement → Option Text → ℕ → Transaction
beneficiary_row m description customer_id = record {
  id = m.transaction_id;
  type = TransactionType.beneficiary_transfer;
  status = TransactionStatus.posted;
  amount = m.amount;
  currency = m.currency;
  description = or_null description;
  customer_id = some customer_id;
  from_account_id = some m.source_id;
  to_account_id = some m.destination_id;
  idempotency_key_id = none;
  created_at = m.at;
  posted_at = none;
}

abbrev pub outgoing_notice : ℕ → Text → ℕ → ℕ → Notification
outgoing_notice user_id message id now = record {
  id = id;
  user_id = user_id;
  type = "BENEFICIARY_TRANSFER_POSTED";
  title = "Transfer Successful";
  message = message;
  created_at = now;
  read_at = none;
}

abbrev pub incoming_notice : ℕ → Text → ℕ → ℕ → Notification
incoming_notice user_id message id now = record {
  id = id;
  user_id = user_id;
  type = "INCOMING_TRANSFER_RECEIVED";
  title = "Incoming Transfer Received";
  message = message;
  created_at = now;
  read_at = none;
}

abbrev pub beneficiary_transfer_key : ℕ → Text → Text → Draw → IdempotencyKey
beneficiary_transfer_key user_id key hash d = record {
  id = d.key_id;
  key = key;
  user_id = user_id;
  scope = "POST /payments/transfer-to-beneficiary";
  request_hash = some hash;
  status = IdempotencyStatus.in_progress;
  response_payload = none;
  http_status = none;
  completed_at = none;
  expires_at = d.now + idempotency_ttl_ms;
}
