-- ===== src/Schema/Enums.antt =====
-- The enums of backend/prisma/schema.prisma, with the equality tests that queries make on them.
use mathlib.Core.Bool.{Bool, true, false}

pub data AccountStatus : Type 0 where
  active frozen closed : AccountStatus

pub data BeneficiaryStatus : Type 0 where
  active archived : BeneficiaryStatus

pub data KycStatus : Type 0 where
  pending verified rejected : KycStatus

pub data TransactionType : Type 0 where
  internal_transfer external_transfer fee adjustment reversal admin_credit : TransactionType
  beneficiary_transfer merchant_payment : TransactionType

pub data TransactionStatus : Type 0 where
  pending posted failed reversed : TransactionStatus

pub data LedgerSide : Type 0 where
  debit credit : LedgerSide

pub data CardType : Type 0 where
  debit virtual : CardType

pub data CardStatus : Type 0 where
  active blocked closed : CardStatus

pub data MerchantStatus : Type 0 where
  active inactive : MerchantStatus

pub data IdempotencyStatus : Type 0 where
  in_progress completed failed : IdempotencyStatus

abbrev pub account_is_active : AccountStatus → Bool
account_is_active AccountStatus.active = true
account_is_active _ = false

abbrev pub beneficiary_is_active : BeneficiaryStatus → Bool
beneficiary_is_active BeneficiaryStatus.active = true
beneficiary_is_active _ = false

abbrev pub kyc_is_verified : KycStatus → Bool
kyc_is_verified KycStatus.verified = true
kyc_is_verified _ = false

abbrev pub merchant_is_active : MerchantStatus → Bool
merchant_is_active MerchantStatus.active = true
merchant_is_active _ = false

abbrev pub card_is_closed : CardStatus → Bool
card_is_closed CardStatus.closed = true
card_is_closed _ = false

abbrev pub is_debit : LedgerSide → Bool
is_debit LedgerSide.debit = true
is_debit LedgerSide.credit = false

abbrev pub is_credit : LedgerSide → Bool
is_credit LedgerSide.debit = false
is_credit LedgerSide.credit = true
