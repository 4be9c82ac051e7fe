-- ===== src/Payments/PayMerchant/Guarantee.antt =====
-- What a request to pay a merchant may do.
use online_banking.Base.{
  ℕ, ◌≡◌, refl, ◌⊎◌, inl, inr, Bool, true, false, none, some, arith, Result, pure, if◌then◌else◌,
  bad_request, Option-cases, Bool-cases,
}
use online_banking.Base.Int.{ℤ, pos, negsuc, leb_ℤ, ◌≤ℤ◌}
use online_banking.Base.Text.{Text, trim, text_eq}
use online_banking.Schema.{Db, CustomerProfile, kyc_is_verified}
use online_banking.Prisma.Tx.{Tx}
use online_banking.Auth.Types.{JwtAccessPayload}
use online_banking.Services.{Services, Service, World, Draw, on_db}
use online_banking.Ledger.{IsKeyed, IsSound}
use online_banking.Payments.Types.{
  PayMerchantDto, ServiceResult, MerchantPaymentSuccessResponse, merchant_payment,
}
use online_banking.Payments.Payloads.{
  stable_merchant_request_hash, parse_merchant_completed_payload,
}
use online_banking.Payments.Steps.{
  Movement, by_user, with_retries, serializable_retries, normalize_currency, ron,
}
use online_banking.Payments.Fraud.{Challenge, run_mock_fraud_check, require_verified}
use online_banking.Payments.Fraud.Check.{skip_or_check, pass-bind, stop-bind}
use online_banking.Payments.Outcome.{
  IsRecorded, IsStored, Outcome, rejected, is_ok, Outcome-IsSound, IsSettled-elsewhere,
}
use online_banking.Payments.Retries.{with_retries-Ran}
use online_banking.Payments.Guarantee.{Ran-Outcome}
use online_banking.Payments.PayMerchant.{
  verified_merchant_payment, pay_merchant, execute_merchant_payment_tx,
}
use online_banking.Payments.PayMerchant.Effect.{IsToMerchant, execute_merchant_payment_tx-IsSettled}

-- The movements that a user's request allows: the user has a verified customer's profile, and the
-- amount is positive.
pub record IsPaidToMerchant (w : World) (user_id : ℕ) (dto : PayMerchantDto) (currency : Text)
    (d : Draw) (m : Movement) : Type 0 where
  pub profile : CustomerProfile
  pub own : by_user user_id profile ≡ true
  pub verified : kyc_is_verified profile.kyc_status ≡ true
  pub positive : leb_ℤ dto.amount (pos 0) ≡ false
  pub to_merchant : IsToMerchant w.db dto currency dto.amount d m

not_leb_zero : (x : ℤ) → leb_ℤ x (pos 0) ≡ false → pos 0 ≤ℤ x
not_leb_zero (pos n) h = ground arith
not_leb_zero (negsuc n) h = ground arith

module _ (svc : Services) (user : JwtAccessPayload) (dto : PayMerchantDto) (key : Text)
    (skip : Bool) (c : Challenge) (draws : ℕ → Draw) (w : World) where
  abbrev body_of : CustomerProfile → ℕ → Tx (ServiceResult MerchantPaymentSuccessResponse)
  body_of profile attempt =
      execute_merchant_payment_tx svc.prisma svc.formats user.sub profile.id dto (trim key)
        (normalize_currency dto.currency) dto.amount
        (stable_merchant_request_hash svc.formats dto (normalize_currency dto.currency))
        (draws attempt)

  abbrev run_of : CustomerProfile → Db → Result (ServiceResult MerchantPaymentSuccessResponse) × Db
  run_of profile =
      with_retries serializable_retries 1 (bad_request "Merchant payment failed after retries")
        (λ attempt.
          svc.transactions.run (ServiceResult MerchantPaymentSuccessResponse) attempt
            (body_of profile attempt))

  abbrev check_of : Service (Unit {0})
  check_of =
      if skip
      then pure tt
      else run_mock_fraud_check svc user.sub (trim key) dto.amount (merchant_payment dto) c

  guarded :
      (profile : CustomerProfile)
      → ((verified_merchant_payment svc user profile dto key skip c draws w
            ≡ on_db (run_of profile) w)
          × (leb_ℤ dto.amount (pos 0) ≡ false))
        ⊎ ((is_ok (verified_merchant_payment svc user profile dto key skip c draws w).0 ≡ false)
            × ((verified_merchant_payment svc user profile dto key skip c draws w).1.db ≡ w.db))
  unfolding verified_merchant_payment
  guarded profile = elim (Bool-cases (text_eq (normalize_currency dto.currency) ron)) [
    | inr foreign ↦ inr (ground arith)
    | inl ron_it_is ↦ elim (Bool-cases (leb_ℤ dto.amount (pos 0))) [
      | inl low ↦ inr (ground arith)
      | inr high ↦
          elim (skip_or_check svc user.sub (trim key) dto.amount (merchant_payment dto) skip c w) [
            | inl passed ↦ inl (
              rw ron_it_is (rw high (pass-bind check_of (λ _. on_db (run_of profile)) passed)),
              high,
            )
            | inr (refused, same) ↦ inr (
                rw ron_it_is
                  (rw high (stop-bind check_of (λ _. on_db (run_of profile)) refused same)))
          ]
    ]
  ]

  entered :
      (profile : CustomerProfile)
      → svc.prisma.find CustomerProfile (by_user user.sub) w.db.profiles ≡ some profile
      → ((kyc_is_verified profile.kyc_status ≡ true)
          × (pay_merchant svc user dto key skip c draws w
              ≡ verified_merchant_payment svc user profile dto key skip c draws w))
        ⊎ ((is_ok (pay_merchant svc user dto key skip c draws w).0 ≡ false)
            × ((pay_merchant svc user dto key skip c draws w).1.db ≡ w.db))
  unfolding pay_merchant require_verified
  entered profile found = ground arith

  unknown :
      svc.prisma.find CustomerProfile (by_user user.sub) w.db.profiles ≡ none
      → (is_ok (pay_merchant svc user dto key skip c draws w).0 ≡ false)
        × ((pay_merchant svc user dto key skip c draws w).1.db ≡ w.db)
  unfolding pay_merchant require_verified
  unknown missing = ground arith

  -- A request to pay a merchant, where no account is there twice, ends in one of these ways. It is
  -- answered with 201 and a positive amount goes, covered by the source's balance, from the account
  -- named to the settlement account of the active merchant named; or it is answered with 200 and the
  -- body that is stored with the user's completed key of that name, recorded with this request's
  -- hash, and no balance and no entry has changed; or it fails and the
  -- database is as it was; or its transactions are taken back and leave notifications at most.
  pub pay_merchant-Outcome :
      IsKeyed w.db.accounts
      → Outcome
          (λ n. IsPaidToMerchant w user.sub dto (normalize_currency dto.currency) (draws n))
          (IsStored svc.prisma user.sub
            (trim key)
            (IsRecorded
              (stable_merchant_request_hash svc.formats dto (normalize_currency dto.currency)))
            parse_merchant_completed_payload
            w.db.idempotency_keys)
          w
          (pay_merchant svc user dto key skip c draws w)
  pay_merchant-Outcome keyed =
      elim (Option-cases (svc.prisma.find CustomerProfile (by_user user.sub) w.db.profiles)) [
        | inl missing ↦ rejected (unknown missing).0 (unknown missing).1
        | inr (profile, found) ↦ elim (entered profile found) [
          | inr (refused, same) ↦ rejected refused same
          | inl (verified, passed) ↦ rw passed (elim (guarded profile) [
            | inr (refused, same) ↦ rejected refused same
            | inl (ran, high) ↦ rw ran (
                Ran-Outcome (body_of profile)
                  (λ n. IsPaidToMerchant w user.sub dto (normalize_currency dto.currency) (draws n))
                  _ w
                  (λ n sent s' r h.
                    IsSettled-elsewhere (record { accounts = refl; entries = refl })
                      (λ m k. record {
                        profile = profile;
                        own = svc.prisma.find_holds CustomerProfile _ _ _ found;
                        verified = verified;
                        positive = high;
                        to_merchant = record {
                          merchant = k.merchant;
                          settlement = k.settlement;
                          listed = k.listed;
                          named = k.named;
                          exists = k.exists;
                          settles = k.settles;
                          active = k.active;
                          kept = k.kept;
                          movement = k.movement;
                        };
                      })
                      (execute_merchant_payment_tx-IsSettled svc.prisma svc.formats user.sub
                        profile.id dto (trim key) _ dto.amount _ (draws n) _ s' r keyed h))
                  (run_of profile w.db)
                  (with_retries-Ran svc.transactions (body_of profile) w.db serializable_retries 1
                    (bad_request "Merchant payment failed after retries")))
          ])
        ]
      ]

  -- Balances, entries and overdrafts stay sound, whatever a request to pay a merchant does.
  pub pay_merchant-IsSound :
      (opening : ℕ → ℤ)
      → IsSound opening w.db
      → IsSound opening (pay_merchant svc user dto key skip c draws w).1.db
  pay_merchant-IsSound opening sound =
      Outcome-IsSound (λ n m k. rw k.to_merchant.movement (not_leb_zero dto.amount k.positive))
        (pay_merchant-Outcome sound.keyed) sound
