-- ===== src/Payments/StepUp/Flow.antt =====
-- A payment that was stopped for its password is taken up by the confirmation.
use online_banking.Base.{ℕ, ◌+◌, ◌≡◌, refl, true, false, ltb}
use online_banking.Base.Int.{ℤ, ltb_ℤ}
use online_banking.Base.Text.{Text, text_eq_refl}
use online_banking.Redis.{step_up}
use online_banking.Services.{Services, World, Draw}
use online_banking.Auth.Types.{JwtAccessPayload}
use online_banking.Payments.Types.{PendingPayment}
use online_banking.Payments.Fraud.{Challenge, step_up_threshold, run_mock_fraud_check}
use online_banking.Payments.Fraud.Gate.{has_completed, run_mock_fraud_check-demands}
use online_banking.Payments.StepUp.{resume, answer_challenge, confirm_step_up}

module _ (svc : Services) (user : JwtAccessPayload) (c later : Challenge) (draws : ℕ → Draw)
    (w : World) where
  -- the world after the check has stopped a payment
  abbrev pub stopped : Text → ℤ → PendingPayment → World
  stopped key amount pending = (run_mock_fraud_check svc user.sub key amount pending c w).1

  -- A payment above the threshold whose key is not completed is taken up by the confirmation that
  -- names its challenge and password within 300 seconds: the payment that was stored is run for the
  -- same user under the same key, with the challenge taken from the cache and the check skipped.
  pub confirm_step_up-run_mock_fraud_check :
      (key : Text) (amount : ℤ) (pending : PendingPayment)
      → ltb_ℤ step_up_threshold amount ≡ true
      → has_completed svc w user.sub key ≡ false
      → ltb later.now (c.now + 300000) ≡ true
      → confirm_step_up svc user c.id c.otp later draws (stopped key amount pending)
        ≡ resume svc user pending key later draws (record (stopped key amount pending) {
          cache = svc.redis.del (step_up user.sub c.id) (stopped key amount pending).cache;
        })
  unfolding confirm_step_up answer_challenge
  confirm_step_up-run_mock_fraud_check key amount pending high fresh in_time =
      let demanded =
        run_mock_fraud_check-demands svc w user.sub key amount pending c later.now high fresh in
      rw (demanded.2, in_time) (rw (text_eq_refl c.otp) refl)
