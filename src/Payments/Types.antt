-- ===== src/Payments/Types.antt =====
-- The requests and responses of backend/src/payments (dto/*.ts, payments.types.ts), and the bodies
-- that request hashes are taken of. A response's amount is the text that `toFixed(2)` gives.
use online_banking.Base.{ℕ, Bool, Option}
use online_banking.Base.Int.{ℤ}
use online_banking.Base.Text.{Text}

pub record CreateTransferDto : Type 0 where
  pub source_account_id : ℕ
  pub destination_account_id : ℕ
  pub amount : ℤ
  pub currency : Option Text
  pub description : Option Text

pub record TransferToBeneficiaryDto : Type 0 where
  pub source_account_id : ℕ
  pub beneficiary_id : ℕ
  pub amount : ℤ
  pub currency : Option Text
  pub description : Option Text

pub record PayMerchantDto : Type 0 where
  pub source_account_id : ℕ
  pub merchant_id : ℕ
  pub amount : ℤ
  pub currency : Option Text
  pub description : Option Text

pub record TransferSuccessResponse : Type 0 where
  pub transaction_id : Text
  pub status : Text
  pub source_account_id : Text
  pub destination_account_id : Text
  pub amount : Text
  pub currency : Text

pub record BeneficiaryTransferSuccessResponse : Type 0 where
  pub transaction_id : Text
  pub status : Text
  pub source_account_id : Text
  pub beneficiary_id : Text
  pub beneficiary_iban : Text
  pub amount : Text
  pub currency : Text
  pub internal_beneficiary : Bool

pub record MerchantPaymentSuccessResponse : Type 0 where
  pub transaction_id : Text
  pub status : Text
  pub source_account_id : Text
  pub merchant_id : Text
  pub amount : Text
  pub currency : Text

pub record ServiceResult (B : Type 0) : Type 0 where
  pub http_status : ℕ
  pub body : B

-- What is serialised and hashed for a request.
pub data Canonical : Type 0 where
  of_transfer : (amount : ℤ) (currency : Text) → Option Text → (destination source : ℕ) → Canonical
  of_beneficiary :
      (amount : ℤ) (currency : Text) → Option Text → (beneficiary source : ℕ) → Canonical
  of_merchant : (amount : ℤ) (currency : Text) → Option Text → (merchant source : ℕ) → Canonical

-- The kinds of payment that a step-up challenge can hold, with the request's body.
pub data PendingPayment : Type 0 where
  internal_transfer : CreateTransferDto → PendingPayment
  beneficiary_transfer : TransferToBeneficiaryDto → PendingPayment
  merchant_payment : PayMerchantDto → PendingPayment

-- Other libraries' functions on which the payment service rests: the SHA-256 digest of a request's
-- JSON text, decimal numbers printed with all or with two digits, and the text of a uuid.
pub record Formats : Type 0 where
  pub digest : Canonical → Text
  pub to_text : ℤ → Text
  pub to_fixed_2 : ℤ → Text
  pub uuid : ℕ → Text
