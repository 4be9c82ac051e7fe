-- ===== src/Http/Bodies.antt =====
-- What the decorators of the request bodies ask for (backend/src/*/dto/*.dto.ts), which the
-- `ValidationPipe` of backend/src/main.ts checks before a controller's method runs. Ids and texts have
-- their types here, so only bounds are tested.
use online_banking.Base.{
  ℕ, ◌%◌, ◌&&◌, Bool, true, false, not, Option, none, some, length, leb, [], ◌∷◌, ◌==◌,
  if◌then◌else◌,
}
use online_banking.Base.Int.{ℤ, pos, pos_part, ltb_ℤ, leb_ℤ}
use online_banking.Base.Text.{Text, trim, is_empty}
use online_banking.Payments.Types.{CreateTransferDto, TransferToBeneficiaryDto, PayMerchantDto}
use online_banking.Payments.Steps.{ron}
use online_banking.Admin.Credit.{AdminCreditDto}
use online_banking.Auth.Types.{LoginDto, RegisterDto}
use online_banking.Beneficiaries.{CreateBeneficiaryDto}

-- `@IsOptional() @MaxLength(255)`
abbrev short_or_missing : ℕ → Option Text → Bool
short_or_missing n none = true
short_or_missing n (some t) = leb (length t) n

-- `@IsOptional() @IsNotEmpty()`
abbrev missing_or_not_empty : Option Text → Bool
missing_or_not_empty none = true
missing_or_not_empty (some t) = not (is_empty t)

-- `@IsNotEmpty()` of a field that must be there
abbrev not_empty : Option Text → Bool
not_empty none = false
not_empty (some t) = not (is_empty t)

-- at most two decimals, of an amount above zero in ten-thousandths
abbrev two_decimals : ℤ → Bool
two_decimals amount = pos_part amount % 100 == 0

-- `@Min(0.01)` and `@Max(1e12)`
abbrev at_least_a_cent : ℤ → Bool
at_least_a_cent amount = leb_ℤ (pos 100) amount

abbrev at_most_a_trillion : ℤ → Bool
at_most_a_trillion amount = leb_ℤ amount (pos 10000000000000000)

-- the `@Transform` of the currency of a transfer, and its `@IsNotEmpty`
abbrev transform_currency : Option Text → Option Text
transform_currency none = some ron
transform_currency (some t) = if is_empty t then some ron else some (trim t)

abbrev pub transformed_transfer : CreateTransferDto → CreateTransferDto
transformed_transfer dto = record dto { currency = transform_currency dto.currency }

unfoldable pub transfer_is_valid : CreateTransferDto → Bool
transfer_is_valid dto =
    at_least_a_cent dto.amount
    && (at_most_a_trillion dto.amount
        && (two_decimals dto.amount
            && (missing_or_not_empty dto.currency && short_or_missing 255 dto.description)))

unfoldable pub beneficiary_transfer_is_valid : TransferToBeneficiaryDto → Bool
beneficiary_transfer_is_valid dto =
    ltb_ℤ (pos 0) dto.amount
    && (two_decimals dto.amount && (not_empty dto.currency && short_or_missing 255 dto.description))

unfoldable pub merchant_payment_is_valid : PayMerchantDto → Bool
merchant_payment_is_valid dto =
    at_least_a_cent dto.amount
    && (at_most_a_trillion dto.amount
        && (two_decimals dto.amount
            && (not_empty dto.currency && short_or_missing 255 dto.description)))

unfoldable pub credit_is_valid : AdminCreditDto → Bool
credit_is_valid dto =
    at_least_a_cent dto.amount
    && (two_decimals dto.amount
        && (not (is_empty dto.currency) && short_or_missing 255 dto.description))

-- `@Length(6, 6)`
unfoldable pub otp_is_valid : Text → Bool
otp_is_valid otp = length otp == 6

-- `@Matches(/^\d{6}$/)`
unfoldable pub mfa_otp_is_valid : Text → Bool
mfa_otp_is_valid otp = length otp == 6 && is_digits otp
  where
    is_digits : Text → Bool
    is_digits [] = true
    is_digits (c ∷ t) = leb 48 c && (leb c 57 && is_digits t)

-- `@MinLength(8)`; the form of an address is the library's to judge
unfoldable pub login_is_valid : (is_email : Text → Bool) → LoginDto → Bool
login_is_valid is_email dto = is_email dto.email && leb 8 (length dto.password)

abbrev name_is_valid : Text → Bool
name_is_valid t = not (is_empty t) && leb (length t) 100

unfoldable pub register_is_valid : (is_email : Text → Bool) → RegisterDto → Bool
register_is_valid is_email dto =
    is_email dto.email
    && (leb (length dto.email) 255
        && (leb 8 (length dto.password)
            && (name_is_valid dto.first_name && name_is_valid dto.last_name)))

unfoldable pub beneficiary_is_valid : CreateBeneficiaryDto → Bool
beneficiary_is_valid dto =
    name_is_valid dto.name
    && (not (is_empty dto.iban) && (leb (length dto.iban) 34 && short_or_missing 100 dto.alias))
