-- ===== src/Payments/Fraud.antt =====
-- `runMockFraudCheck` and the guards that every payment request passes first
-- (backend/src/payments/payments.service.ts).
pub mod Check
pub mod Gate
use online_banking.Base.{
  ℕ, Bool, true, false, not, none, some, bad_request, forbidden, step_up_required, ok, err, pure,
  throw, gets, throw_if, modify, ◌>>=◌, ◌>>◌, holds, if◌then◌else◌,
}
use online_banking.Base.Int.{ℤ, pos, ltb_ℤ}
use online_banking.Base.Text.{Text, text_eq, trim, is_empty}
use online_banking.Schema.{CustomerProfile, IdempotencyKey, IdempotencyStatus, kyc_is_verified}
use online_banking.Services.{Services, Service}
use online_banking.Redis.{step_up, challenge}
use online_banking.Payments.Types.{PendingPayment}
use online_banking.Payments.Steps.{by_user, by_user_and_key, ron}

-- 1000 in ten-thousandths
abbrev pub step_up_threshold : ℤ
step_up_threshold = pos 10000000

abbrev pub is_completed : IdempotencyStatus → Bool
is_completed IdempotencyStatus.completed = true
is_completed _ = false

-- The random challenge id and one-time password of a check, and the time.
pub record Challenge : Type 0 where
  pub id : ℕ
  pub otp : Text
  pub now : ℕ

module _ (svc : Services) where
  -- the challenge is stored for 300 seconds, then the exception is thrown
  unfoldable pub demand_step_up : ℕ → Text → PendingPayment → Challenge → Service (Unit {0})
  demand_step_up user_id key pending c = do
    modify (λ w. record w {
      cache =
          svc.redis.set_ex c.now 300 (step_up user_id c.id) (challenge pending key c.otp) w.cache;
    })
    throw (step_up_required c.id 300)

  unfoldable pub run_mock_fraud_check :
      ℕ → Text → ℤ → PendingPayment → Challenge → Service (Unit {0})
  unfolding demand_step_up
  run_mock_fraud_check user_id key amount pending c =
      if ltb_ℤ step_up_threshold amount
      then (do
        existing ← gets (λ w.
            svc.prisma.find IdempotencyKey (by_user_and_key user_id key) w.db.idempotency_keys)
        if holds (λ k. is_completed k.status) existing
            then pure tt
            else demand_step_up user_id key pending c)
      else pure tt

  -- `if (!profile || profile.kycStatus !== 'VERIFIED') throw …`
  unfoldable pub require_verified : ℕ → Service CustomerProfile
  require_verified user_id w =
      elim (svc.prisma.find CustomerProfile (by_user user_id) w.db.profiles) [
        | none ↦ (err (forbidden "KYC_REQUIRED"), w)
        | some p ↦
            (if kyc_is_verified p.kyc_status then ok p else err (forbidden "KYC_REQUIRED"), w)
      ]

-- the `x-idempotency-key` header
abbrev pub require_key : Text → Service (Unit {0})
require_key key =
    throw_if (is_empty (trim key)) (bad_request "x-idempotency-key header is required")

-- the normalised currency, which must be RON
abbrev pub require_ron : Text → Service (Unit {0})
require_ron currency =
    throw_if (not (text_eq currency ron)) (bad_request "Only RON currency is supported in MVP")
