-- ===== src/Payments/StepUp.antt =====
-- `confirmStepUp` of backend/src/payments/payments.service.ts: a payment above the threshold is
-- made once its one-time password has been given.
pub mod Laws
pub mod Fair
pub mod Stores
pub mod Flow
use online_banking.Base.{
  ℕ, true, not, Option, none, some, bad_request, Result, ok, err, if◌then◌else◌,
}
use online_banking.Base.Text.{Text, text_eq}
use online_banking.Auth.Types.{JwtAccessPayload}
use online_banking.Redis.{step_up, CacheValue, challenge, password}
use online_banking.Services.{Services, Service, World, Draw}
use online_banking.Payments.Types.{
  PendingPayment, internal_transfer, beneficiary_transfer, merchant_payment, ServiceResult,
  TransferSuccessResponse, BeneficiaryTransferSuccessResponse, MerchantPaymentSuccessResponse,
}
use online_banking.Payments.Fraud.{Challenge}
use online_banking.Payments.Transfer.{transfer}
use online_banking.Payments.ToBeneficiary.{transfer_to_beneficiary}
use online_banking.Payments.PayMerchant.{pay_merchant}

-- The result of one of the three payments.
pub data Payment : Type 0 where
  transferred : ServiceResult TransferSuccessResponse → Payment
  sent : ServiceResult BeneficiaryTransferSuccessResponse → Payment
  paid : ServiceResult MerchantPaymentSuccessResponse → Payment

abbrev pub tagged : {A : Type 0} → (A → Payment) → Result A × World → Result Payment × World
tagged f (ok a, w) = (ok (f a), w)
tagged f (err e, w) = (err e, w)

module _ (svc : Services) where
  -- the dispatch on the type of the stored payment, with the fraud check skipped
  unfoldable pub resume :
      JwtAccessPayload → PendingPayment → Text → Challenge → (ℕ → Draw) → Service Payment
  resume user (internal_transfer dto) key c draws w =
      tagged transferred (transfer svc user dto key true c draws w)
  resume user (beneficiary_transfer dto) key c draws w =
      tagged sent (transfer_to_beneficiary svc user dto key true c draws w)
  resume user (merchant_payment dto) key c draws w =
      tagged paid (pay_merchant svc user dto key true c draws w)

  -- what is stored under the challenge's key
  unfoldable pub answer_challenge :
      JwtAccessPayload → ℕ → Text → Challenge → (ℕ → Draw) → Option CacheValue → Service Payment
  answer_challenge user id otp c draws none w =
      (err (bad_request "Challenge expired or not found"), w)
  answer_challenge user id otp c draws (some (password _)) w = (err (bad_request "Invalid OTP"), w)
  answer_challenge user id otp c draws (some (challenge pending key stored)) w =
      if not (text_eq stored otp)
      then (err (bad_request "Invalid OTP"), w)
      else resume user pending key c draws
          (record w { cache = svc.redis.del (step_up user.sub id) w.cache })

  unfoldable pub confirm_step_up :
      JwtAccessPayload → ℕ → Text → Challenge → (ℕ → Draw) → Service Payment
  confirm_step_up user id otp c draws w =
      answer_challenge user id otp c draws (svc.redis.get c.now (step_up user.sub id) w.cache) w
