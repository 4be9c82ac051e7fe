-- ===== src/Payments/Fraud/Gate.antt =====
-- No payment above the threshold is made before its one-time password has been given.
use online_banking.Base.{
  ℕ, ◌≡◌, refl, true, Result, false, Bool, arith, holds, some, ltb, ◌+◌, err, step_up_required,
  if◌then◌else◌, none,
}
use online_banking.Base.Int.{ltb_ℤ, ℤ}
use online_banking.Base.Text.{Text, trim}
use online_banking.Schema.{IdempotencyKey}
use online_banking.Redis.{step_up, challenge}
use online_banking.Auth.Types.{JwtAccessPayload}
use online_banking.Services.{Services, World, Draw}
use online_banking.Payments.Types.{
  PendingPayment, CreateTransferDto, TransferToBeneficiaryDto, PayMerchantDto,
}
use online_banking.Payments.Steps.{by_user_and_key}
use online_banking.Payments.Outcome.{is_ok}
use online_banking.Payments.Fraud.{
  Challenge, step_up_threshold, is_completed, run_mock_fraud_check, require_verified,
}
use online_banking.Payments.Transfer.{transfer}
use online_banking.Payments.ToBeneficiary.{transfer_to_beneficiary, verified_beneficiary_transfer}
use online_banking.Payments.PayMerchant.{pay_merchant, verified_merchant_payment}

-- stopped without a change of the database
abbrev pub IsStopped : {A : Type 0} → World → Result A × World → Type 0
IsStopped w r = (is_ok r.0 ≡ false) × (r.1.db ≡ w.db)

module _ (svc : Services) (w : World) where
  abbrev pub has_completed : ℕ → Text → Bool
  has_completed user key =
      holds (λ k. is_completed k.status)
        (svc.prisma.find IdempotencyKey (by_user_and_key user key) w.db.idempotency_keys)

  -- Above the threshold, and unless a payment under the same key is completed, the check throws the
  -- step-up exception, leaves the database as it is, and stores a challenge that is read back, with
  -- its payment, key and password, until 300 seconds have passed and never afterwards.
  pub run_mock_fraud_check-demands :
      (user : ℕ) (key : Text) (amount : ℤ) (pending : PendingPayment) (c : Challenge) (later : ℕ)
      → ltb_ℤ step_up_threshold amount ≡ true
      → has_completed user key ≡ false
      → ((run_mock_fraud_check svc user key amount pending c w).0 ≡ err (step_up_required c.id 300))
        × ((run_mock_fraud_check svc user key amount pending c w).1.db ≡ w.db)
        × (svc.redis.get later
              (step_up user c.id)
              (run_mock_fraud_check svc user key amount pending c w).1.cache
            ≡ (if ltb later (c.now + 300000) then some (challenge pending key c.otp) else none))
  unfolding run_mock_fraud_check
  run_mock_fraud_check-demands user key amount pending c later high fresh = rw high (
      rw fresh (
        refl,
        refl,
        svc.redis.get_set_ex later c.now 300 (step_up user c.id) (challenge pending key c.otp)
            w.cache,
      ))

  module _ (user : JwtAccessPayload) (key : Text) (c : Challenge) (draws : ℕ → Draw)
      (fresh : has_completed user.sub (trim key) ≡ false) where
    -- A transfer above the threshold is stopped.
    transfer-needs_step_up :
        (dto : CreateTransferDto)
        → ltb_ℤ step_up_threshold dto.amount ≡ true
        → IsStopped w (transfer svc user dto key false c draws w)
    unfolding transfer run_mock_fraud_check require_verified
    transfer-needs_step_up dto high = ground arith

    -- A payment to a beneficiary above the threshold is stopped.
    transfer_to_beneficiary-needs_step_up :
        (dto : TransferToBeneficiaryDto)
        → ltb_ℤ step_up_threshold dto.amount ≡ true
        → IsStopped w (transfer_to_beneficiary svc user dto key false c draws w)
    unfolding transfer_to_beneficiary verified_beneficiary_transfer run_mock_fraud_check
        require_verified
    transfer_to_beneficiary-needs_step_up dto high = ground arith

    -- A payment to a merchant above the threshold is stopped.
    pay_merchant-needs_step_up :
        (dto : PayMerchantDto)
        → ltb_ℤ step_up_threshold dto.amount ≡ true
        → IsStopped w (pay_merchant svc user dto key false c draws w)
    unfolding pay_merchant verified_merchant_payment run_mock_fraud_check require_verified
    pay_merchant-needs_step_up dto high = ground arith

    -- Payments above the threshold that ask for the fraud check, under a key that is not completed,
    -- give no result and leave the database as it is, of whichever of the three kinds they are.
    pub payments_need_step_up :
        (own : CreateTransferDto) (sent : TransferToBeneficiaryDto) (paid : PayMerchantDto)
        → ltb_ℤ step_up_threshold own.amount ≡ true
        → ltb_ℤ step_up_threshold sent.amount ≡ true
        → ltb_ℤ step_up_threshold paid.amount ≡ true
        → IsStopped w (transfer svc user own key false c draws w)
          × IsStopped w (transfer_to_beneficiary svc user sent key false c draws w)
          × IsStopped w (pay_merchant svc user paid key false c draws w)
    payments_need_step_up own sent paid high high' high'' = (
      transfer-needs_step_up own high,
      transfer_to_beneficiary-needs_step_up sent high',
      pay_merchant-needs_step_up paid high'',
    )
