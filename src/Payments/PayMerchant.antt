-- ===== src/Payments/PayMerchant.antt =====
-- `payMerchant` and `executeMerchantPaymentTx` of backend/src/payments/payments.service.ts: a
-- payment to a merchant's settlement account.
pub mod Effect
pub mod Guarantee
use online_banking.Base.{
  ℕ, ◌+◌, Bool, not, ◌&&◌, Option, none, some, ◌++◌, bad_request, conflict, database_error, pure,
  throw, gets, throw_if, or_throw, ◌>>=◌, ◌>>◌, ◌==◌, if◌then◌else◌,
}
use online_banking.Base.Int.{ℤ, pos, leb_ℤ}
use online_banking.Base.Text.{Text, codes, text_eq, trim}
use online_banking.Schema.{
  CustomerProfile, Account, account_is_active, Merchant, merchant_is_active, Transaction,
  TransactionType, TransactionStatus, IdempotencyKey, IdempotencyStatus, Notification,
}
use online_banking.Prisma.{Prisma}
use online_banking.Prisma.Tx.{Tx}
use online_banking.Prisma.Statements.{insert, idempotency_key_table, notification_table}
use online_banking.Auth.Types.{JwtAccessPayload}
use online_banking.Services.{Services, Service, Draw, on_db}
use online_banking.Payments.Types.{
  PayMerchantDto, MerchantPaymentSuccessResponse, ServiceResult, Formats, merchant_payment,
}
use online_banking.Payments.Payloads.{
  stable_merchant_request_hash, parse_merchant_completed_payload, merchant_to_json,
}
use online_banking.Payments.Steps.{
  by_user_and_key, or_null, idempotency_ttl_ms, serializable_retries, with_retries, debit,
  credit_and_record, audit, complete_key, fail_key, Movement, normalize_currency, with_account_id,
}
use online_banking.Payments.Fraud.{
  Challenge, run_mock_fraud_check, require_verified, require_key, require_ron,
}
use online_banking.Payments.Existing.{same_hash, existing_outcome, spendable}

unfoldable pub existing_merchant_payment :
    Text → IdempotencyKey → Tx (ServiceResult MerchantPaymentSuccessResponse)
existing_merchant_payment hash row = do
  throw_if (not (same_hash hash row.request_hash))
      (conflict "Idempotency key reused with different request payload")
  existing_outcome row.status (parse_merchant_completed_payload row.response_payload)

-- the `where` of the merchant payment's debit
abbrev pub merchant_source : ℕ → ℕ → Text → ℤ → Account → Bool
merchant_source id customer_id currency amount a =
    spendable id customer_id currency a && leb_ℤ amount a.available_balance

unfoldable pub merchant_row : Movement → Option Text → ℕ → ℕ → Transaction
merchant_row m description customer_id key_id = record {
  id = m.transaction_id;
  type = TransactionType.merchant_payment;
  status = TransactionStatus.posted;
  amount = m.amount;
  currency = m.currency;
  description = or_null description;
  customer_id = some customer_id;
  from_account_id = some m.source_id;
  to_account_id = some m.destination_id;
  idempotency_key_id = some key_id;
  created_at = m.at;
  posted_at = some m.at;
}

merchant_notice : ℕ → Text → ℕ → ℕ → Notification
merchant_notice user_id message id now = record {
  id = id;
  user_id = user_id;
  type = "MERCHANT_PAYMENT_POSTED";
  title = "Merchant Payment Posted";
  message = message;
  created_at = now;
  read_at = none;
}

abbrev pub merchant_payment_key : ℕ → Text → Text → Draw → IdempotencyKey
merchant_payment_key user_id key hash d = record {
  id = d.key_id;
  key = key;
  user_id = user_id;
  scope = "POST /payments/pay-merchant";
  request_hash = some hash;
  status = IdempotencyStatus.in_progress;
  response_payload = none;
  http_status = none;
  completed_at = none;
  expires_at = d.now + idempotency_ttl_ms;
}

module _ (prisma : Prisma) (fmt : Formats) where
  merchant_message : Text → ℤ → Text → Text
  merchant_message name amount currency =
      codes "Your payment to "
      ++ (name
          ++ (codes " of "
              ++ (fmt.to_fixed_2 amount ++ (codes " " ++ (currency ++ codes " has been posted.")))))

  merchant_body : Movement → ℕ → MerchantPaymentSuccessResponse
  merchant_body m merchant_id = record {
    transaction_id = fmt.uuid m.transaction_id;
    status = codes "POSTED";
    source_account_id = fmt.uuid m.source_id;
    merchant_id = fmt.uuid merchant_id;
    amount = fmt.to_fixed_2 m.amount;
    currency = m.currency;
  }

  -- from the debit to the notification, which is written over `tx` here
  unfoldable pub post_merchant_payment :
      ℕ
      → Account
      → Merchant
      → Text
      → ℤ
      → Option Text
      → ℕ
      → Draw
      → Tx (ServiceResult MerchantPaymentSuccessResponse)
  unfolding debit credit_and_record audit complete_key fail_key merchant_message merchant_body
      merchant_row merchant_notice
  post_merchant_payment user_id source merchant currency amount description profile_id d = do
    taken ← debit prisma (merchant_source source.id profile_id currency amount) amount
    if taken == 1
        then pure tt
        else (do fail_key prisma d.key_id; throw (bad_request "Insufficient funds"))
    let m : Movement = record {
      transaction_id = d.transaction_id;
      source_id = source.id;
      destination_id = merchant.settlement_account_id;
      amount = amount;
      currency = currency;
      credit_sequence = 1;
      at = d.now;
    }
    credit_and_record prisma m (merchant_row m description profile_id d.key_id)
    complete_key prisma d.key_id (merchant_to_json (merchant_body m merchant.id)) d.now
    audit prisma user_id "MERCHANT_PAYMENT_POSTED" d.transaction_id d.now
    insert prisma notification_table
        (merchant_notice user_id (merchant_message merchant.name amount currency) d.notice_id d.now)
    pure (record { http_status = 201; body = merchant_body m merchant.id })

  -- The merchant, if it is active; the join of its settlement account follows the foreign key.
  unfoldable pub active_merchant : ℕ → Text → Tx Merchant
  active_merchant id currency = do
    found ←
        gets (λ s.
          prisma.find Merchant (λ m. m.id == id && merchant_is_active m.status) s.db.merchants)
    merchant ← or_throw found (bad_request "Merchant not found or inactive")
    joined ←
        gets
          (λ s. prisma.find Account (with_account_id merchant.settlement_account_id) s.db.accounts)
    settlement ← or_throw joined (database_error 0)
    throw_if (not (account_is_active settlement.status))
        (bad_request "Merchant not found or inactive")
    throw_if (not (text_eq settlement.currency currency))
        (bad_request "Merchant settlement currency does not match request currency")
    pure merchant

  -- from the source account to the end, once the key has been created
  unfoldable pub claimed_merchant_payment :
      ℕ → ℕ → PayMerchantDto → Text → ℤ → Draw → Tx (ServiceResult MerchantPaymentSuccessResponse)
  claimed_merchant_payment user_id profile_id dto currency amount d = do
    from ← gets (λ s.
        prisma.find Account (spendable dto.source_account_id profile_id currency) s.db.accounts)
    source ← or_throw from (bad_request "Source account not found or invalid")
    merchant ← active_merchant dto.merchant_id currency
    post_merchant_payment user_id source merchant currency amount dto.description profile_id d

  unfoldable pub execute_merchant_payment_tx :
      ℕ
      → ℕ
      → PayMerchantDto
      → Text
      → Text
      → ℤ
      → Text
      → Draw
      → Tx (ServiceResult MerchantPaymentSuccessResponse)
  execute_merchant_payment_tx user_id profile_id dto key currency amount hash d s =
      elim (prisma.find IdempotencyKey (by_user_and_key user_id key) s.db.idempotency_keys) [
        | some row ↦ existing_merchant_payment hash row s
        | none ↦
            (do
              insert prisma idempotency_key_table (merchant_payment_key user_id key hash d)
              claimed_merchant_payment user_id profile_id dto currency amount d)
              s
      ]

module _ (svc : Services) where
  -- the rest of the request, once the customer's profile is known to be verified
  unfoldable pub verified_merchant_payment :
      JwtAccessPayload
      → CustomerProfile
      → PayMerchantDto
      → Text
      → Bool
      → Challenge
      → (ℕ → Draw)
      → Service (ServiceResult MerchantPaymentSuccessResponse)
  verified_merchant_payment user profile dto idempotency_key skip_fraud_check c draws = do
    let currency = normalize_currency dto.currency
    require_ron currency
    throw_if (leb_ℤ dto.amount (pos 0)) (bad_request "Amount must be greater than zero")
    if skip_fraud_check
        then pure tt
        else run_mock_fraud_check svc user.sub (trim idempotency_key) dto.amount
            (merchant_payment dto) c
    let hash = stable_merchant_request_hash svc.formats dto currency
    on_db (
        with_retries serializable_retries 1 (bad_request "Merchant payment failed after retries")
          (λ attempt. svc.transactions.run (ServiceResult MerchantPaymentSuccessResponse) attempt (
            execute_merchant_payment_tx svc.prisma svc.formats user.sub profile.id dto
              (trim idempotency_key) currency dto.amount hash (draws attempt))))

  unfoldable pub pay_merchant :
      JwtAccessPayload
      → PayMerchantDto
      → Text
      → Bool
      → Challenge
      → (ℕ → Draw)
      → Service (ServiceResult MerchantPaymentSuccessResponse)
  pay_merchant user dto idempotency_key skip_fraud_check c draws = do
    require_key idempotency_key
    profile ← require_verified svc user.sub
    verified_merchant_payment user profile dto idempotency_key skip_fraud_check c draws
