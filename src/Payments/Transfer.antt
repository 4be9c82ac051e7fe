-- ===== src/Payments/Transfer.antt =====
-- `transfer` and `executeTransferTx` of backend/src/payments/payments.service.ts: a transfer
-- between two accounts of one customer.
pub mod Effect
pub mod Repeat
pub mod Posts
pub mod Guarantee
use online_banking.Base.{
  ℕ, ◌+◌, Bool, false, not, ◌&&◌, ◌||◌, Option, none, some, ◌++◌, conflict, bad_request,
  plain_error, err, pure, throw, gets, throw_if, or_throw, ◌>>=◌, ◌>>◌, ◌==◌, if◌then◌else◌,
}
use online_banking.Base.Int.{ℤ, leb_ℤ}
use online_banking.Base.Text.{Text, codes, text_eq, trim, is_empty}
use online_banking.Schema.{
  CustomerProfile, Account, account_is_active, Transaction, TransactionType, TransactionStatus,
  IdempotencyKey, IdempotencyStatus, Notification,
}
use online_banking.Prisma.{Prisma, created, violated}
use online_banking.Prisma.Tx.{Tx}
use online_banking.Auth.Types.{JwtAccessPayload}
use online_banking.Services.{Services, Service, Draw, on_db}
use online_banking.Payments.Types.{
  CreateTransferDto, TransferSuccessResponse, ServiceResult, Formats, internal_transfer,
}
use online_banking.Payments.Payloads.{
  stable_request_hash, parse_completed_payload, transfer_to_json,
}
use online_banking.Payments.Steps.{
  by_user, by_user_and_key, idempotency_ttl_ms, serializable_retries, with_retries, debit,
  credit_and_record, audit, notify, complete_key, Movement, normalize_currency,
}
use online_banking.Payments.Fraud.{
  Challenge, run_mock_fraud_check, require_verified, require_key, require_ron,
}

-- `stored && stored !== hash`: a hash that is missing or empty matches every request.
unfoldable pub hash_differs : Text → Option Text → Bool
hash_differs hash none = false
hash_differs hash (some stored) = not (is_empty stored) && not (text_eq stored hash)

-- The answer that a completed key gives again.
unfoldable pub replay_transfer : Text → IdempotencyKey → Tx (ServiceResult TransferSuccessResponse)
unfolding hash_differs
replay_transfer hash row = do
  throw_if (hash_differs hash row.request_hash)
      (conflict "Idempotency key was already used with a different request body.")
  body ←
      or_throw (parse_completed_payload row.response_payload)
        (conflict "Stored idempotency response is invalid or missing.")
  pure (record { http_status = 200; body = body })

-- What an existing key gives, by its status; nothing where there is no key yet.
unfoldable pub existing_transfer :
    Text → IdempotencyStatus → IdempotencyKey → Tx (ServiceResult TransferSuccessResponse)
unfolding replay_transfer
existing_transfer hash IdempotencyStatus.completed row = replay_transfer hash row
existing_transfer hash status row =
    throw (conflict "This idempotency key is not available for a new transfer.")

-- After a violated unique constraint: the row that another request has created.
unfoldable pub raced_transfer :
    Text → IdempotencyStatus → IdempotencyKey → Tx (ServiceResult TransferSuccessResponse)
unfolding replay_transfer
raced_transfer hash IdempotencyStatus.completed row = replay_transfer hash row
raced_transfer hash IdempotencyStatus.failed row =
    throw (conflict "This idempotency key already failed and cannot be reused.")
raced_transfer hash IdempotencyStatus.in_progress row =
    throw (conflict "Transfer is already in progress for this idempotency key.")

abbrev pub owned_active : ℕ → ℕ → Account → Bool
owned_active id customer_id a =
    a.id == id && (a.customer_id == customer_id && account_is_active a.status)

-- the `where` of the debit
abbrev pub transfer_source : ℕ → ℕ → Text → ℤ → Account → Bool
transfer_source id customer_id currency amount a =
    owned_active id customer_id a
    && (text_eq a.currency currency && leb_ℤ amount a.available_balance)

unfoldable pub transfer_row : Movement → Option Text → ℕ → ℕ → Transaction
transfer_row m description customer_id key_id = record {
  id = m.transaction_id;
  type = TransactionType.internal_transfer;
  status = TransactionStatus.posted;
  amount = m.amount;
  currency = m.currency;
  description = description;
  customer_id = some customer_id;
  from_account_id = some m.source_id;
  to_account_id = some m.destination_id;
  idempotency_key_id = some key_id;
  created_at = m.at;
  posted_at = some m.at;
}

transfer_notice : ℕ → Text → ℕ → ℕ → Notification
transfer_notice user_id message id now = record {
  id = id;
  user_id = user_id;
  type = "PAYMENT_TRANSFER_POSTED";
  title = "Transfer Successful";
  message = message;
  created_at = now;
  read_at = none;
}

abbrev pub transfer_key : ℕ → Text → Text → Draw → IdempotencyKey
transfer_key user_id key hash d = record {
  id = d.key_id;
  key = key;
  user_id = user_id;
  scope = "POST /payments/transfer";
  request_hash = some hash;
  status = IdempotencyStatus.in_progress;
  response_payload = none;
  http_status = none;
  completed_at = none;
  expires_at = d.now + idempotency_ttl_ms;
}

module _ (prisma : Prisma) (fmt : Formats) where
  transfer_message : ℤ → Text → Text
  transfer_message amount currency =
      codes "Your internal transfer of "
      ++ (fmt.to_text amount ++ (codes " " ++ (currency ++ codes " has been posted.")))

  transfer_body : Movement → TransferSuccessResponse
  transfer_body m = record {
    transaction_id = fmt.uuid m.transaction_id;
    status = codes "POSTED";
    source_account_id = fmt.uuid m.source_id;
    destination_account_id = fmt.uuid m.destination_id;
    amount = fmt.to_fixed_2 m.amount;
    currency = m.currency;
  }

  -- from the debit to the completed key
  unfoldable pub post_transfer :
      ℕ
      → Account
      → Account
      → Text
      → ℤ
      → Option Text
      → ℕ
      → Draw
      → Tx (ServiceResult TransferSuccessResponse)
  unfolding debit credit_and_record audit notify complete_key transfer_message transfer_body
      transfer_row transfer_notice
  post_transfer user_id source destination currency amount description customer_id d = do
    taken ← debit prisma (transfer_source source.id customer_id currency amount) amount
    throw_if (not (taken == 1)) (bad_request "Insufficient funds in source account")
    let m : Movement = record {
      transaction_id = d.transaction_id;
      source_id = source.id;
      destination_id = destination.id;
      amount = amount;
      currency = currency;
      credit_sequence = 1;
      at = d.now;
    }
    credit_and_record prisma m (transfer_row m description customer_id d.key_id)
    audit prisma user_id "PAYMENT_TRANSFER_POSTED" d.transaction_id d.now
    notify prisma (transfer_notice user_id (transfer_message amount currency) d.notice_id d.now)
    complete_key prisma d.key_id (transfer_to_json (transfer_body m)) d.now
    pure (record { http_status = 201; body = transfer_body m })

  -- from the customer's profile to the end, once the key has been claimed
  unfoldable pub claimed_transfer :
      ℕ → CreateTransferDto → Text → ℤ → Draw → Tx (ServiceResult TransferSuccessResponse)
  claimed_transfer user_id dto currency amount d = do
    found ← gets (λ s. prisma.find CustomerProfile (by_user user_id) s.db.profiles)
    profile ← or_throw found (bad_request "Customer profile not found for user")
    from ←
        gets
          (λ s. prisma.find Account (owned_active dto.source_account_id profile.id) s.db.accounts)
    to ← gets (λ s.
        prisma.find Account (owned_active dto.destination_account_id profile.id) s.db.accounts)
    source ← or_throw from (bad_request "Source account not found or not allowed")
    destination ← or_throw to (bad_request "Destination account not found or not allowed")
    throw_if (not (text_eq source.currency currency) || not (text_eq destination.currency currency))
        (bad_request "Source, destination, and request currency must match")
    post_transfer user_id source destination currency amount dto.description profile.id d

  -- creates the key, or answers for the one that another request has created meanwhile
  unfoldable pub new_transfer :
      ℕ
      → CreateTransferDto
      → Text
      → Text
      → ℤ
      → Text
      → Draw
      → Tx (ServiceResult TransferSuccessResponse)
  new_transfer user_id dto key currency amount hash d s =
      elim (prisma.create IdempotencyKey (transfer_key user_id key hash d) s.db.idempotency_keys) [
        | created t ↦
            claimed_transfer user_id dto currency amount d
              (record s { db = record s.db { idempotency_keys = t } })
        | violated t ↦ elim (prisma.find IdempotencyKey (by_user_and_key user_id key) t) [
          | none ↦ (err (conflict "Idempotency key conflict; please retry the request."), s)
          | some row ↦ raced_transfer hash row.status row s
        ]
      ]

  unfoldable pub execute_transfer_tx :
      ℕ
      → CreateTransferDto
      → Text
      → Text
      → ℤ
      → Text
      → Draw
      → Tx (ServiceResult TransferSuccessResponse)
  execute_transfer_tx user_id dto key currency amount hash d s =
      elim (prisma.find IdempotencyKey (by_user_and_key user_id key) s.db.idempotency_keys) [
        | some row ↦ existing_transfer hash row.status row s
        | none ↦ new_transfer user_id dto key currency amount hash d s
      ]

module _ (svc : Services) where
  unfoldable pub transfer :
      JwtAccessPayload
      → CreateTransferDto
      → Text
      → Bool
      → Challenge
      → (ℕ → Draw)
      → Service (ServiceResult TransferSuccessResponse)
  transfer user dto idempotency_key skip_fraud_check c draws = do
    require_key idempotency_key
    require_verified svc user.sub
    throw_if (dto.source_account_id == dto.destination_account_id)
        (bad_request "sourceAccountId and destinationAccountId must differ")
    let currency = normalize_currency dto.currency
    require_ron currency
    if skip_fraud_check
        then pure tt
        else run_mock_fraud_check svc user.sub (trim idempotency_key) dto.amount
            (internal_transfer dto) c
    let hash = stable_request_hash svc.formats dto currency
    on_db (
        with_retries serializable_retries 1 (plain_error "Transfer failed after retries")
          (λ attempt. svc.transactions.run (ServiceResult TransferSuccessResponse) attempt (
            execute_transfer_tx svc.prisma svc.formats user.sub dto (trim idempotency_key) currency
              dto.amount hash (draws attempt))))
