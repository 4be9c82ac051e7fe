-- ===== src/Payments/Payloads.antt =====
-- Stored responses of backend/src/payments/payments.service.ts: request hashes, and what is read
-- back from `IdempotencyKey.responsePayload`. `to_json` is the body as Prisma stores it.
use online_banking.Base.{true, Option, none, some, if◌then◌else◌}
use online_banking.Base.Text.{Text}
use online_banking.Schema.Json.{
  Json, bool, str, obj, Props, end, prop, get, as_string, as_boolean, is_true, as_object,
}
use online_banking.Payments.Types.{
  CreateTransferDto, TransferToBeneficiaryDto, PayMerchantDto, TransferSuccessResponse,
  BeneficiaryTransferSuccessResponse, MerchantPaymentSuccessResponse, of_transfer, of_beneficiary,
  of_merchant, Formats,
}

infixl 5 ◌>>=◌
abbrev ◌>>=◌ : {A B : Type 0} → Option A → (A → Option B) → Option B
none >>= k = none
some a >>= k = k a

-- `raw?.ledgerBalanced === true`, the last conjunct of each test
abbrev when_balanced : {A : Type 0} → Props → A → Option A
when_balanced o a = if is_true (get "ledgerBalanced" o) then some a else none

unfoldable pub stable_request_hash : Formats → CreateTransferDto → Text → Text
stable_request_hash fmt dto currency = fmt.digest (
    of_transfer dto.amount currency dto.description dto.destination_account_id
      dto.source_account_id)

unfoldable pub stable_beneficiary_request_hash : Formats → TransferToBeneficiaryDto → Text → Text
stable_beneficiary_request_hash fmt dto currency =
    fmt.digest
      (of_beneficiary dto.amount currency dto.description dto.beneficiary_id dto.source_account_id)

unfoldable pub stable_merchant_request_hash : Formats → PayMerchantDto → Text → Text
stable_merchant_request_hash fmt dto currency =
    fmt.digest
      (of_merchant dto.amount currency dto.description dto.merchant_id dto.source_account_id)

-- A missing payload (`null` or `undefined`) is no object.
abbrev object_of : Option Json → Option Props
object_of none = none
object_of (some raw) = as_object raw

unfoldable pub parse_completed_payload : Option Json → Option TransferSuccessResponse
parse_completed_payload raw = do
  o ← object_of raw
  transaction_id ← as_string (get "transactionId" o)
  status ← as_string (get "status" o)
  source_account_id ← as_string (get "sourceAccountId" o)
  destination_account_id ← as_string (get "destinationAccountId" o)
  amount ← as_string (get "amount" o)
  currency ← as_string (get "currency" o)
  when_balanced o (record {
    transaction_id = transaction_id;
    status = status;
    source_account_id = source_account_id;
    destination_account_id = destination_account_id;
    amount = amount;
    currency = currency;
  })

unfoldable pub parse_beneficiary_completed_payload :
    Option Json → Option BeneficiaryTransferSuccessResponse
parse_beneficiary_completed_payload raw = do
  o ← object_of raw
  transaction_id ← as_string (get "transactionId" o)
  status ← as_string (get "status" o)
  source_account_id ← as_string (get "sourceAccountId" o)
  beneficiary_id ← as_string (get "beneficiaryId" o)
  beneficiary_iban ← as_string (get "beneficiaryIban" o)
  amount ← as_string (get "amount" o)
  currency ← as_string (get "currency" o)
  internal_beneficiary ← as_boolean (get "internalBeneficiary" o)
  when_balanced o (record {
    transaction_id = transaction_id;
    status = status;
    source_account_id = source_account_id;
    beneficiary_id = beneficiary_id;
    beneficiary_iban = beneficiary_iban;
    amount = amount;
    currency = currency;
    internal_beneficiary = internal_beneficiary;
  })

unfoldable pub parse_merchant_completed_payload :
    Option Json → Option MerchantPaymentSuccessResponse
parse_merchant_completed_payload raw = do
  o ← object_of raw
  transaction_id ← as_string (get "transactionId" o)
  status ← as_string (get "status" o)
  source_account_id ← as_string (get "sourceAccountId" o)
  merchant_id ← as_string (get "merchantId" o)
  amount ← as_string (get "amount" o)
  currency ← as_string (get "currency" o)
  when_balanced o (record {
    transaction_id = transaction_id;
    status = status;
    source_account_id = source_account_id;
    merchant_id = merchant_id;
    amount = amount;
    currency = currency;
  })

-- Each response has `ledgerBalanced: true`.
unfoldable pub transfer_to_json : TransferSuccessResponse → Json
transfer_to_json r = obj (
    prop "transactionId" (str r.transaction_id) (
      prop "status" (str r.status) (
        prop "sourceAccountId" (str r.source_account_id) (
          prop "destinationAccountId" (str r.destination_account_id) (
            prop "amount" (str r.amount)
              (prop "currency" (str r.currency) (prop "ledgerBalanced" (bool true) end)))))))

unfoldable pub beneficiary_to_json : BeneficiaryTransferSuccessResponse → Json
beneficiary_to_json r = obj (
    prop "transactionId" (str r.transaction_id) (
      prop "status" (str r.status) (
        prop "sourceAccountId" (str r.source_account_id) (
          prop "beneficiaryId" (str r.beneficiary_id) (
            prop "beneficiaryIban" (str r.beneficiary_iban) (
              prop "amount" (str r.amount) (
                prop "currency" (str r.currency) (
                  prop "internalBeneficiary" (bool r.internal_beneficiary)
                    (prop "ledgerBalanced" (bool true) end)))))))))

unfoldable pub merchant_to_json : MerchantPaymentSuccessResponse → Json
merchant_to_json r = obj (
    prop "transactionId" (str r.transaction_id) (
      prop "status" (str r.status) (
        prop "sourceAccountId" (str r.source_account_id) (
          prop "merchantId" (str r.merchant_id) (
            prop "amount" (str r.amount)
              (prop "currency" (str r.currency) (prop "ledgerBalanced" (bool true) end)))))))
