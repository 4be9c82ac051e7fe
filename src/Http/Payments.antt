-- ===== src/Http/Payments.antt =====
-- backend/src/payments/payments.controller.ts and the crediting of an account in
-- backend/src/admin/admin.controller.ts.
use online_banking.Base.{ℕ, false, Option, none, some, []}
use online_banking.Base.Text.{Text}
use online_banking.Services.{Services, Service, Draw}
use online_banking.Auth.Types.{Signing}
use online_banking.Payments.Types.{
  CreateTransferDto, TransferToBeneficiaryDto, PayMerchantDto, ServiceResult,
  TransferSuccessResponse, BeneficiaryTransferSuccessResponse, MerchantPaymentSuccessResponse,
}
use online_banking.Payments.Fraud.{Challenge}
use online_banking.Payments.Transfer.{transfer}
use online_banking.Payments.ToBeneficiary.{transfer_to_beneficiary}
use online_banking.Payments.PayMerchant.{pay_merchant}
use online_banking.Payments.StepUp.{Payment, confirm_step_up}
use online_banking.Admin.Credit.{AdminCreditDto, AdminCreditResponse, credit_account}
use online_banking.Http.{Caller, admitted, admitted_admin, guarded, checked}
use online_banking.Http.Bodies.{
  transformed_transfer, transfer_is_valid, beneficiary_transfer_is_valid, merchant_payment_is_valid,
  credit_is_valid, otp_is_valid,
}

-- `idempotencyKey ?? ''`
abbrev pub or_empty : Option Text → Text
or_empty none = []
or_empty (some key) = key

module _ (svc : Services) (signing : Signing) (caller : Caller) where
  unfoldable pub transfer_request :
      CreateTransferDto
      → Option Text
      → Challenge
      → (ℕ → Draw)
      → Service (ServiceResult TransferSuccessResponse)
  transfer_request dto key c draws = guarded (admitted svc signing caller) λ user.
      checked (transfer_is_valid (transformed_transfer dto))
        (transfer svc user (transformed_transfer dto) (or_empty key) false c draws)

  unfoldable pub beneficiary_request :
      TransferToBeneficiaryDto
      → Option Text
      → Challenge
      → (ℕ → Draw)
      → Service (ServiceResult BeneficiaryTransferSuccessResponse)
  beneficiary_request dto key c draws = guarded (admitted svc signing caller) λ user.
      checked (beneficiary_transfer_is_valid dto)
        (transfer_to_beneficiary svc user dto (or_empty key) false c draws)

  unfoldable pub merchant_request :
      PayMerchantDto
      → Option Text
      → Challenge
      → (ℕ → Draw)
      → Service (ServiceResult MerchantPaymentSuccessResponse)
  merchant_request dto key c draws = guarded (admitted svc signing caller) λ user.
      checked (merchant_payment_is_valid dto)
        (pay_merchant svc user dto (or_empty key) false c draws)

  unfoldable pub confirm_request :
      (challenge_id : ℕ) → Text → Challenge → (ℕ → Draw) → Service Payment
  confirm_request id otp c draws =
      guarded (admitted svc signing caller)
        λ user. checked (otp_is_valid otp) (confirm_step_up svc user id otp c draws)

  unfoldable pub credit_request :
      (account_id : ℕ) → AdminCreditDto → Draw → Service AdminCreditResponse
  credit_request account_id dto d =
      guarded (admitted_admin svc signing caller)
        λ user. checked (credit_is_valid dto) (credit_account svc user.sub account_id dto d)
