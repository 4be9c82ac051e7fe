-- ===== src/Payments/StepUp/Stores.antt =====
-- What the payments do to the cache: nothing, or the one challenge of a payment above the threshold.
use online_banking.Base.{
  ℕ, ◌≡◌, refl, Bool, true, some, none, arith, inl, inr, Bool-cases, Option-cases, ap, ok, err,
  step_up_required, ◌>>=◌, ◌⊎◌, Option,
}
use online_banking.Base.Int.{ltb_ℤ}
use online_banking.Base.Text.{Text, trim, is_empty, text_eq}
use online_banking.Redis.{CacheValue, challenge, password, Cache, step_up}
use online_banking.Services.{Services, Service, World, Draw}
use online_banking.Schema.{CustomerProfile, kyc_is_verified}
use online_banking.Payments.Steps.{by_user, normalize_currency, ron}
use online_banking.Auth.Types.{JwtAccessPayload}
use online_banking.Payments.Types.{
  PendingPayment, internal_transfer, beneficiary_transfer, merchant_payment, CreateTransferDto,
  TransferToBeneficiaryDto, PayMerchantDto,
}
use online_banking.Payments.Fraud.{
  Challenge, step_up_threshold, run_mock_fraud_check, require_verified,
}
use online_banking.Payments.Fraud.Gate.{has_completed}
use online_banking.Payments.Transfer.{transfer}
use online_banking.Payments.ToBeneficiary.{transfer_to_beneficiary, verified_beneficiary_transfer}
use online_banking.Payments.PayMerchant.{pay_merchant, verified_merchant_payment}
use online_banking.Payments.StepUp.Laws.{amount_of, resume-keeps_cache}
use online_banking.Payments.StepUp.{answer_challenge, confirm_step_up}
use online_banking.Payments.StepUp.Fair.{CacheStep, kept, stored, deleted}

-- a method that makes at most one step in the cache
abbrev pub StepsCache : {A : Type 0} → Services → Service A → Type 0
StepsCache svc m = (w : World) → CacheStep svc w.cache (m w).1.cache

module _ (svc : Services) where
  module _ (user : JwtAccessPayload) (key : Text) (skip : Bool) (c : Challenge)
      (draws : ℕ → Draw) where
    -- the cache is as it was, or the payment was above the threshold and its challenge is in it
    abbrev Stores : PendingPayment → World → Cache → Type 0
    Stores pending w after =
        (after ≡ w.cache)
        ⊎ ((ltb_ℤ step_up_threshold (amount_of pending) ≡ true)
            × (after
                ≡ svc.redis.set_ex c.now 300 (step_up user.sub c.id)
                    (challenge pending (trim key) c.otp) w.cache))

    Stores-CacheStep :
        (pending : PendingPayment) (w : World) (after : Cache)
        → Stores pending w after
        → CacheStep svc w.cache after
    Stores-CacheStep pending w after (inl same) = kept same
    Stores-CacheStep pending w after (inr (high, e)) =
        stored c.now 300 (step_up user.sub c.id) (challenge pending (trim key) c.otp) (ground arith)
          e

    run_mock_fraud_check-cases :
        (pending : PendingPayment) (w : World)
        → (run_mock_fraud_check svc user.sub (trim key) (amount_of pending) pending c w
            ≡ (ok tt, w))
          ⊎ ((ltb_ℤ step_up_threshold (amount_of pending) ≡ true)
              × (run_mock_fraud_check svc user.sub (trim key) (amount_of pending) pending c w ≡ (
                err (step_up_required c.id 300),
                record w {
                  cache =
                      svc.redis.set_ex c.now 300
                        (step_up user.sub c.id)
                        (challenge pending (trim key) c.otp)
                        w.cache;
                },
              )))
    unfolding run_mock_fraud_check
    run_mock_fraud_check-cases pending w =
        elim (Bool-cases (ltb_ℤ step_up_threshold (amount_of pending))) [
          | inr low ↦ inl (rw low refl)
          | inl high ↦ elim (Bool-cases (has_completed svc w user.sub (trim key))) [
            | inl done ↦ inl (rw high (rw done refl))
            | inr fresh ↦ inr (high, rw high (rw fresh refl))
          ]
        ]

    -- A transfer stores at most the challenge of its own payment.
    pub transfer-StepsCache :
        (dto : CreateTransferDto) → StepsCache svc (transfer svc user dto key skip c draws)
    unfolding transfer require_verified run_mock_fraud_check
    transfer-StepsCache dto w = Stores-CacheStep (internal_transfer dto) w _ (ground arith)

    verified_beneficiary_transfer-Stores :
        (profile : CustomerProfile) (dto : TransferToBeneficiaryDto) (w : World)
        → Stores
            (beneficiary_transfer dto)
            w
            (verified_beneficiary_transfer svc user profile dto key skip c draws w).1.cache
    unfolding verified_beneficiary_transfer
    verified_beneficiary_transfer-Stores profile dto w =
        elim (Bool-cases (text_eq (normalize_currency dto.currency) ron)) [
          | inr foreign ↦ inl (rw foreign refl)
          | inl local ↦ elim (Bool-cases skip) [
            | inl skipped ↦ inl (rw (local, skipped) refl)
            | inr asked ↦ elim (run_mock_fraud_check-cases (beneficiary_transfer dto) w) [
              | inl passed ↦
                  inl (rw (local, asked) (rw (passed, ◌>>=◌) (ap (λ x. x.1.cache) passed)))
              | inr (high, stopped) ↦
                  inr (high, rw (local, asked) (rw (stopped, ◌>>=◌) (ap (λ x. x.1.cache) stopped)))
            ]
          ]
        ]

    -- A payment to a beneficiary stores at most the challenge of its own payment.
    pub transfer_to_beneficiary-StepsCache :
        (dto : TransferToBeneficiaryDto)
        → StepsCache svc (transfer_to_beneficiary svc user dto key skip c draws)
    unfolding transfer_to_beneficiary require_verified
    transfer_to_beneficiary-StepsCache dto w =
        elim (Option-cases (svc.prisma.find CustomerProfile (by_user user.sub) w.db.profiles)) [
          | inl missing ↦ kept (ground arith)
          | inr (p, found) ↦ elim (Bool-cases (is_empty (trim key))) [
            | inl without ↦ kept (ground arith)
            | inr with_key ↦ elim (Bool-cases (kyc_is_verified p.kyc_status)) [
              | inr unverified ↦ kept (ground arith)
              | inl verified ↦
                  let run : transfer_to_beneficiary svc user dto key skip c draws w
                      ≡ verified_beneficiary_transfer svc user p dto key skip c draws w =
                    ground arith in
                  rw run (
                    Stores-CacheStep (beneficiary_transfer dto) w _
                      (verified_beneficiary_transfer-Stores p dto w))
            ]
          ]
        ]

    -- A payment to a merchant stores at most the challenge of its own payment.
    pub pay_merchant-StepsCache :
        (dto : PayMerchantDto) → StepsCache svc (pay_merchant svc user dto key skip c draws)
    unfolding pay_merchant verified_merchant_payment require_verified run_mock_fraud_check
    pay_merchant-StepsCache dto w = Stores-CacheStep (merchant_payment dto) w _ (ground arith)

  module _ (user : JwtAccessPayload) (c : Challenge) (draws : ℕ → Draw) (id : ℕ) (otp : Text) where
    answer_challenge-CacheStep :
        (found : Option CacheValue) (w : World)
        → CacheStep svc w.cache (answer_challenge svc user id otp c draws found w).1.cache
    unfolding answer_challenge
    answer_challenge-CacheStep none w = kept refl
    answer_challenge-CacheStep (some (password _)) w = kept refl
    answer_challenge-CacheStep (some (challenge pending key stored_otp)) w =
        elim (Bool-cases (text_eq stored_otp otp)) [
          | inr wrong ↦ rw wrong (kept refl)
          | inl right ↦ rw right (
              deleted (step_up user.sub id) (
                resume-keeps_cache svc user c draws pending key
                  (record w { cache = svc.redis.del (step_up user.sub id) w.cache })))
        ]

    -- A confirmation at most takes its own challenge from the cache.
    pub confirm_step_up-StepsCache : StepsCache svc (confirm_step_up svc user id otp c draws)
    unfolding confirm_step_up
    confirm_step_up-StepsCache w =
        answer_challenge-CacheStep (svc.redis.get c.now (step_up user.sub id) w.cache) w
