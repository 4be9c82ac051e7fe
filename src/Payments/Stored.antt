-- ===== src/Payments/Stored.antt =====
-- A stored response is read back as it was written.
use online_banking.Base.{◌≡◌, refl, some}
use online_banking.Payments.Types.{
  TransferSuccessResponse, BeneficiaryTransferSuccessResponse, MerchantPaymentSuccessResponse,
}
use online_banking.Payments.Payloads.{
  parse_completed_payload, parse_beneficiary_completed_payload, parse_merchant_completed_payload,
  transfer_to_json, beneficiary_to_json, merchant_to_json,
}

-- The response of a transfer, stored as JSON, is read back as it was.
pub parse_completed_payload-transfer_to_json :
    (r : TransferSuccessResponse) → parse_completed_payload (some (transfer_to_json r)) ≡ some r
unfolding parse_completed_payload transfer_to_json
parse_completed_payload-transfer_to_json r = refl

-- The response of a payment to a beneficiary, stored as JSON, is read back as it was.
parse_beneficiary_completed_payload-beneficiary_to_json :
    (r : BeneficiaryTransferSuccessResponse)
    → parse_beneficiary_completed_payload (some (beneficiary_to_json r)) ≡ some r
unfolding parse_beneficiary_completed_payload beneficiary_to_json
parse_beneficiary_completed_payload-beneficiary_to_json r = refl

-- The response of a payment to a merchant, stored as JSON, is read back as it was.
parse_merchant_completed_payload-merchant_to_json :
    (r : MerchantPaymentSuccessResponse)
    → parse_merchant_completed_payload (some (merchant_to_json r)) ≡ some r
unfolding parse_merchant_completed_payload merchant_to_json
parse_merchant_completed_payload-merchant_to_json r = refl

-- The responses of the three kinds of payment, stored as JSON, are read back as they were.
pub stored_responses :
    (own : TransferSuccessResponse) (sent : BeneficiaryTransferSuccessResponse)
    (paid : MerchantPaymentSuccessResponse)
    → (parse_completed_payload (some (transfer_to_json own)) ≡ some own)
      × (parse_beneficiary_completed_payload (some (beneficiary_to_json sent)) ≡ some sent)
      × (parse_merchant_completed_payload (some (merchant_to_json paid)) ≡ some paid)
stored_responses own sent paid = (
  parse_completed_payload-transfer_to_json own,
  parse_beneficiary_completed_payload-beneficiary_to_json sent,
  parse_merchant_completed_payload-merchant_to_json paid,
)
