-- ===== src/Payments/ToBeneficiary.antt =====
-- `transferToBeneficiary` and `executeBeneficiaryTransferTx` of
-- backend/src/payments/payments.service.ts: a transfer to a saved payee, whose account is another
-- one of this bank or stands behind the external settlement account.
pub mod Route
pub mod Effect
pub mod Guarantee
pub mod Rows
use online_banking.Base.{
  ℕ, ◌+◌, Bool, true, false, not, ◌&&◌, Option, none, some, ◌++◌, conflict, bad_request,
  database_error, ok, err, pure, throw, gets, throw_if, or_throw, ◌>>=◌, ◌>>◌, ◌==◌, if◌then◌else◌,
}
use online_banking.Base.Int.{ℤ, leb_ℤ, ltb_ℤ}
use online_banking.Base.Text.{Text, codes, text_eq, trim}
use online_banking.Schema.{
  CustomerProfile, Account, account_is_active, Beneficiary, beneficiary_is_active, Transaction,
  TransactionType, TransactionStatus, IdempotencyKey, IdempotencyStatus, Notification,
}
use text.Mathlib.Text.{◌==◌ as str_eq}
use online_banking.Prisma.{Prisma}
use online_banking.Prisma.Tx.{Tx}
use online_banking.Prisma.Statements.{insert, idempotency_key_table}
use online_banking.Auth.Types.{JwtAccessPayload}
use online_banking.Services.{Services, Service, Draw, on_db}
use online_banking.Payments.Types.{
  TransferToBeneficiaryDto, BeneficiaryTransferSuccessResponse, ServiceResult, Formats,
  beneficiary_transfer,
}
use online_banking.Payments.Payloads.{
  stable_beneficiary_request_hash, parse_beneficiary_completed_payload, beneficiary_to_json,
}
use online_banking.Payments.Steps.{
  by_user_and_key, or_null, idempotency_ttl_ms, serializable_retries, with_retries, debit,
  credit_and_record, audit, notify, complete_key, fail_key, Movement, normalize_currency,
}
use online_banking.Payments.Fraud.{
  Challenge, run_mock_fraud_check, require_verified, require_key, require_ron,
}
use online_banking.Payments.Existing.{same_hash, existing_outcome, spendable}
use online_banking.Payments.ToBeneficiary.Rows.{
  internal_account, external_settlement, covered, Destination, beneficiary_row, outgoing_notice,
  incoming_notice, beneficiary_transfer_key,
}

unfoldable pub existing_beneficiary_transfer :
    Text → IdempotencyKey → Tx (ServiceResult BeneficiaryTransferSuccessResponse)
existing_beneficiary_transfer hash row = do
  throw_if (not (same_hash hash row.request_hash))
      (conflict "Idempotency key reused with different request payload")
  existing_outcome row.status (parse_beneficiary_completed_payload row.response_payload)

module _ (prisma : Prisma) (fmt : Formats) where
  unfoldable pub resolve_destination : Text → Text → Tx Destination
  resolve_destination iban currency s =
      elim (prisma.find Account (internal_account iban currency) s.db.accounts) [
        | some a ↦
            (ok (record { account_id = a.id; internal = true; customer_id = a.customer_id }), s)
        | none ↦ elim (prisma.find Account (external_settlement currency) s.db.accounts) [
          | some a ↦
              (ok (record { account_id = a.id; internal = false; customer_id = a.customer_id }), s)
          | none ↦ (err (bad_request "External settlement account not found"), s)
        ]
      ]

  -- a customer that an `include` joins: the foreign key says that there is one
  unfoldable pub customer_of : ℕ → Tx CustomerProfile
  customer_of id = do
    found ← gets (λ s. prisma.find CustomerProfile (λ p. p.id == id) s.db.profiles)
    or_throw found (database_error 0)

  outgoing_message : Text → ℤ → Text → Text
  outgoing_message name amount currency =
      codes "Your transfer to "
      ++ (name
          ++ (codes " of "
              ++ (fmt.to_fixed_2 amount ++ (codes " " ++ (currency ++ codes " has been posted.")))))

  incoming_message : Text → ℤ → Text → Text
  incoming_message name amount currency =
      codes "You received "
      ++ (fmt.to_fixed_2 amount
          ++ (codes " " ++ (currency ++ (codes " from " ++ (name ++ codes ".")))))

  beneficiary_body : Movement → Beneficiary → Bool → BeneficiaryTransferSuccessResponse
  beneficiary_body m b internal = record {
    transaction_id = fmt.uuid m.transaction_id;
    status = codes "POSTED";
    source_account_id = fmt.uuid m.source_id;
    beneficiary_id = fmt.uuid b.id;
    beneficiary_iban = b.iban;
    amount = fmt.to_fixed_2 m.amount;
    currency = m.currency;
    internal_beneficiary = internal;
  }

  -- both notifications; the payee's only if another user of this bank has the account
  unfoldable pub notify_parties :
      ℕ → CustomerProfile → Option ℕ → Beneficiary → ℤ → Text → Draw → Tx (Unit {0})
  unfolding notify outgoing_message incoming_message
  notify_parties user_id sender none b amount currency d =
      notify prisma (
        outgoing_notice user_id (outgoing_message b.display_name amount currency) d.notice_id d.now)
  notify_parties user_id sender (some payee) b amount currency d = do
    notify prisma (
        outgoing_notice user_id (outgoing_message b.display_name amount currency) d.notice_id d.now)
    if payee == user_id
        then pure tt
        else notify prisma (
            incoming_notice payee (incoming_message sender.full_legal_name amount currency)
              d.second_notice_id d.now)

  -- the user behind an internal account, whom `matchedInternal.customer` joins
  unfoldable pub payee_of : Destination → Tx (Option ℕ)
  unfolding customer_of
  payee_of to =
      if to.internal
      then (do customer ← customer_of to.customer_id; pure (some customer.user_id))
      else pure none

  -- from the debit to the completed key and the notifications
  unfoldable pub post_beneficiary_transfer :
      ℕ
      → Account
      → CustomerProfile
      → Beneficiary
      → Destination
      → Option ℕ
      → Text
      → ℤ
      → Option Text
      → ℕ
      → Draw
      → Tx (ServiceResult BeneficiaryTransferSuccessResponse)
  unfolding debit credit_and_record audit complete_key fail_key beneficiary_body beneficiary_row
      notify_parties
  post_beneficiary_transfer user_id source sender b to payee currency amount description profile_id
        d =
      do
        taken ← debit prisma (covered source.id amount) amount
        if taken == 1 then pure tt else (do
          fail_key prisma d.key_id
          throw (conflict "Insufficient funds or concurrent update"))
        let m : Movement = record {
          transaction_id = d.transaction_id;
          source_id = source.id;
          destination_id = to.account_id;
          amount = amount;
          currency = currency;
          credit_sequence = 1;
          at = d.now;
        }
        credit_and_record prisma m (beneficiary_row m description profile_id)
        complete_key prisma d.key_id (beneficiary_to_json (beneficiary_body m b to.internal)) d.now
        audit prisma user_id "BENEFICIARY_TRANSFER_POSTED" d.transaction_id d.now
        notify_parties user_id sender payee b amount currency d
        pure (record { http_status = 201; body = beneficiary_body m b to.internal })

  -- from the source account to the end, once the key has been created
  unfoldable pub claimed_beneficiary_transfer :
      ℕ
      → ℕ
      → TransferToBeneficiaryDto
      → Text
      → ℤ
      → Draw
      → Tx (ServiceResult BeneficiaryTransferSuccessResponse)
  claimed_beneficiary_transfer user_id profile_id dto currency amount d = do
    from ← gets (λ s.
        prisma.find Account (spendable dto.source_account_id profile_id currency) s.db.accounts)
    source ← or_throw from (bad_request "Source account not found or invalid")
    sender ← customer_of source.customer_id
    if ltb_ℤ source.available_balance amount
        then (do fail_key prisma d.key_id; throw (bad_request "Insufficient funds"))
        else pure tt
    saved ← gets (λ s.
        prisma.find Beneficiary
          (λ b.
            b.id == dto.beneficiary_id
            && (b.customer_id == profile_id && beneficiary_is_active b.status))
          s.db.beneficiaries)
    b ← or_throw saved (bad_request "Beneficiary not found or invalid")
    to ← resolve_destination b.iban currency
    payee ← payee_of to
    throw_if (source.id == to.account_id)
        (bad_request "Cannot transfer to the same account via beneficiary")
    post_beneficiary_transfer user_id source sender b to payee currency amount dto.description
        profile_id d

  unfoldable pub execute_beneficiary_transfer_tx :
      ℕ
      → ℕ
      → TransferToBeneficiaryDto
      → Text
      → Text
      → ℤ
      → Text
      → Draw
      → Tx (ServiceResult BeneficiaryTransferSuccessResponse)
  execute_beneficiary_transfer_tx user_id profile_id dto key currency amount hash d s =
      elim (prisma.find IdempotencyKey (by_user_and_key user_id key) s.db.idempotency_keys) [
        | some row ↦ existing_beneficiary_transfer hash row s
        | none ↦
            (do
              insert prisma idempotency_key_table (beneficiary_transfer_key user_id key hash d)
              claimed_beneficiary_transfer user_id profile_id dto currency amount d)
              s
      ]

module _ (svc : Services) where
  -- the rest of the request, once the customer's profile is known to be verified
  unfoldable pub verified_beneficiary_transfer :
      JwtAccessPayload
      → CustomerProfile
      → TransferToBeneficiaryDto
      → Text
      → Bool
      → Challenge
      → (ℕ → Draw)
      → Service (ServiceResult BeneficiaryTransferSuccessResponse)
  verified_beneficiary_transfer user profile dto idempotency_key skip_fraud_check c draws = do
    let currency = normalize_currency dto.currency
    require_ron currency
    if skip_fraud_check
        then pure tt
        else run_mock_fraud_check svc user.sub (trim idempotency_key) dto.amount
            (beneficiary_transfer dto) c
    let hash = stable_beneficiary_request_hash svc.formats dto currency
    on_db (
        with_retries serializable_retries 1 (bad_request "Transfer failed after retries")
          (λ attempt.
            svc.transactions.run (ServiceResult BeneficiaryTransferSuccessResponse) attempt (
              execute_beneficiary_transfer_tx svc.prisma svc.formats user.sub profile.id dto
                (trim idempotency_key) currency dto.amount hash (draws attempt))))

  unfoldable pub transfer_to_beneficiary :
      JwtAccessPayload
      → TransferToBeneficiaryDto
      → Text
      → Bool
      → Challenge
      → (ℕ → Draw)
      → Service (ServiceResult BeneficiaryTransferSuccessResponse)
  transfer_to_beneficiary user dto idempotency_key skip_fraud_check c draws = do
    require_key idempotency_key
    profile ← require_verified svc user.sub
    verified_beneficiary_transfer user profile dto idempotency_key skip_fraud_check c draws
