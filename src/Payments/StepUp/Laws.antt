-- ===== src/Payments/StepUp/Laws.antt =====
-- A challenge is answered once, and only by its password.
use online_banking.Base.{
  ℕ, ◌≡◌, refl, true, false, none, some, inl, inr, arith, Option, Bool-cases, Result, ok, err,
}
use online_banking.Base.Int.{ℤ, pos, ◌≤ℤ◌}
use online_banking.Base.Text.{Text, text_eq}
use online_banking.Redis.{step_up, CacheValue, challenge, password}
use online_banking.Auth.Types.{JwtAccessPayload}
use online_banking.Services.{Services, World, Draw}
use online_banking.Ledger.{IsSound}
use online_banking.Payments.Types.{
  PendingPayment, internal_transfer, beneficiary_transfer, merchant_payment, CreateTransferDto,
  TransferToBeneficiaryDto, PayMerchantDto,
}
use online_banking.Payments.Fraud.{Challenge, require_verified}
use online_banking.Payments.Outcome.{is_ok}
use online_banking.Payments.Transfer.{transfer}
use online_banking.Payments.Transfer.Guarantee.{transfer-IsSound}
use online_banking.Payments.ToBeneficiary.{transfer_to_beneficiary, verified_beneficiary_transfer}
use online_banking.Payments.ToBeneficiary.Guarantee.{transfer_to_beneficiary-IsSound}
use online_banking.Payments.PayMerchant.{pay_merchant, verified_merchant_payment}
use online_banking.Payments.PayMerchant.Guarantee.{pay_merchant-IsSound}
use online_banking.Payments.StepUp.{
  Payment, transferred, sent, paid, tagged, resume, answer_challenge, confirm_step_up,
}

abbrev pub amount_of : PendingPayment → ℤ
amount_of (internal_transfer dto) = dto.amount
amount_of (beneficiary_transfer dto) = dto.amount
amount_of (merchant_payment dto) = dto.amount

tagged_world : {A : Type 0} (f : A → Payment) (x : Result A × World) → (tagged f x).1 ≡ x.1
tagged_world f (ok a, w) = refl
tagged_world f (err e, w) = refl

module _ (svc : Services) (user : JwtAccessPayload) (c : Challenge) (draws : ℕ → Draw) where
  transfer-keeps_cache :
      (dto : CreateTransferDto) (key : Text) (w : World)
      → (transfer svc user dto key true c draws w).1.cache ≡ w.cache
  unfolding transfer require_verified
  transfer-keeps_cache dto key w = ground arith

  transfer_to_beneficiary-keeps_cache :
      (dto : TransferToBeneficiaryDto) (key : Text) (w : World)
      → (transfer_to_beneficiary svc user dto key true c draws w).1.cache ≡ w.cache
  unfolding transfer_to_beneficiary verified_beneficiary_transfer require_verified
  transfer_to_beneficiary-keeps_cache dto key w = ground arith

  pay_merchant-keeps_cache :
      (dto : PayMerchantDto) (key : Text) (w : World)
      → (pay_merchant svc user dto key true c draws w).1.cache ≡ w.cache
  unfolding pay_merchant verified_merchant_payment require_verified
  pay_merchant-keeps_cache dto key w = ground arith

  pub resume-keeps_cache :
      (pending : PendingPayment) (key : Text) (w : World)
      → (resume svc user pending key c draws w).1.cache ≡ w.cache
  unfolding resume
  resume-keeps_cache (internal_transfer dto) key w =
      rw (tagged_world transferred (transfer svc user dto key true c draws w))
        (transfer-keeps_cache dto key w)
  resume-keeps_cache (beneficiary_transfer dto) key w =
      rw (tagged_world sent (transfer_to_beneficiary svc user dto key true c draws w))
        (transfer_to_beneficiary-keeps_cache dto key w)
  resume-keeps_cache (merchant_payment dto) key w =
      rw (tagged_world paid (pay_merchant svc user dto key true c draws w))
        (pay_merchant-keeps_cache dto key w)

  resume-IsSound :
      (opening : ℕ → ℤ) (pending : PendingPayment) (key : Text) (w : World)
      → pos 0 ≤ℤ amount_of pending
      → IsSound opening w.db
      → IsSound opening (resume svc user pending key c draws w).1.db
  unfolding resume
  resume-IsSound opening (internal_transfer dto) key w nonneg sound =
      rw (tagged_world transferred (transfer svc user dto key true c draws w))
        (transfer-IsSound svc user dto key true c draws w opening nonneg sound)
  resume-IsSound opening (beneficiary_transfer dto) key w nonneg sound =
      rw (tagged_world sent (transfer_to_beneficiary svc user dto key true c draws w))
        (transfer_to_beneficiary-IsSound svc user dto key true c draws w opening nonneg sound)
  resume-IsSound opening (merchant_payment dto) key w nonneg sound =
      rw (tagged_world paid (pay_merchant svc user dto key true c draws w))
        (pay_merchant-IsSound svc user dto key true c draws w opening sound)

  answer_challenge-refuses :
      (id : ℕ) (otp : Text) (w : World) (found : Option CacheValue)
      → ((pending : PendingPayment) (key stored : Text)
          → found ≡ some (challenge pending key stored)
          → text_eq stored otp ≡ false)
      → (is_ok (answer_challenge svc user id otp c draws found w).0 ≡ false)
        × ((answer_challenge svc user id otp c draws found w).1 ≡ w)
  unfolding answer_challenge
  answer_challenge-refuses id otp w none h = (refl, refl)
  answer_challenge-refuses id otp w (some (password _)) h = (refl, refl)
  answer_challenge-refuses id otp w (some (challenge pending key stored)) h =
      rw (h pending key stored refl) (refl, refl)

  answer_challenge-IsSound :
      (id : ℕ) (otp : Text) (w : World) (opening : ℕ → ℤ) (found : Option CacheValue)
      → ((pending : PendingPayment) (key stored : Text)
          → found ≡ some (challenge pending key stored)
          → pos 0 ≤ℤ amount_of pending)
      → IsSound opening w.db
      → IsSound opening (answer_challenge svc user id otp c draws found w).1.db
  unfolding answer_challenge
  answer_challenge-IsSound id otp w opening none h sound = sound
  answer_challenge-IsSound id otp w opening (some (password _)) h sound = sound
  answer_challenge-IsSound id otp w opening (some (challenge pending key stored)) h sound =
      elim (Bool-cases (text_eq stored otp)) [
        | inr wrong ↦ rw wrong sound
        | inl right ↦
            rw right (resume-IsSound opening pending key _ (h pending key stored refl) sound)
      ]

  module _ (id : ℕ) (otp : Text) (w : World) where
    -- Without a challenge that this user may answer, or with another password than the stored one, a
    -- confirmation gives no result and changes nothing at all: the challenge may be tried again.
    pub confirm_step_up-refuses :
        ((pending : PendingPayment) (key stored : Text)
          → svc.redis.get c.now (step_up user.sub id) w.cache ≡ some (challenge pending key stored)
          → text_eq stored otp ≡ false)
        → (is_ok (confirm_step_up svc user id otp c draws w).0 ≡ false)
          × ((confirm_step_up svc user id otp c draws w).1 ≡ w)
    unfolding confirm_step_up
    confirm_step_up-refuses wrong =
        answer_challenge-refuses id otp w (svc.redis.get c.now (step_up user.sub id) w.cache) wrong

    -- A challenge that has been answered with its password is gone, whatever became of the payment:
    -- no later confirmation finds it.
    pub confirm_step_up-once :
        (pending : PendingPayment) (key stored : Text) (later : ℕ)
        → svc.redis.get c.now (step_up user.sub id) w.cache ≡ some (challenge pending key stored)
        → text_eq stored otp ≡ true
        → svc.redis.get later
            (step_up user.sub id)
            (confirm_step_up svc user id otp c draws w).1.cache
          ≡ none
    unfolding confirm_step_up answer_challenge
    confirm_step_up-once pending key stored later found right = rw found (
        rw right (
          rw
            (resume-keeps_cache pending key
              (record w { cache = svc.redis.del (step_up user.sub id) w.cache }))
            (svc.redis.get_del later (step_up user.sub id) w.cache)))

    -- Balances, entries and overdrafts stay sound, whatever a confirmation does, if the payment of
    -- the stored challenge has an amount that is not negative.
    pub confirm_step_up-IsSound :
        (opening : ℕ → ℤ)
        → ((pending : PendingPayment) (key stored : Text)
            → svc.redis.get c.now (step_up user.sub id) w.cache
              ≡ some (challenge pending key stored)
            → pos 0 ≤ℤ amount_of pending)
        → IsSound opening w.db
        → IsSound opening (confirm_step_up svc user id otp c draws w).1.db
    unfolding confirm_step_up
    confirm_step_up-IsSound opening nonneg sound =
        answer_challenge-IsSound id otp w opening
          (svc.redis.get c.now (step_up user.sub id) w.cache) nonneg sound
