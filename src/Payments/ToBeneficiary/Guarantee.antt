-- ===== src/Payments/ToBeneficiary/Guarantee.antt =====
-- What a request to pay a beneficiary may do.
use online_banking.Base.{
  ℕ, ◌≡◌, refl, ◌⊎◌, inl, inr, Bool, true, false, none, some, arith, Result, pure, if◌then◌else◌,
  bad_request, Option-cases, Bool-cases,
}
use online_banking.Base.Int.{ℤ, pos, ◌≤ℤ◌}
use online_banking.Base.Text.{Text, trim, text_eq}
use online_banking.Schema.{Db, CustomerProfile, kyc_is_verified}
use online_banking.Prisma.Tx.{Tx}
use online_banking.Auth.Types.{JwtAccessPayload}
use online_banking.Services.{Services, Service, World, Draw, on_db}
use online_banking.Ledger.{IsKeyed, IsSound}
use online_banking.Payments.Types.{
  TransferToBeneficiaryDto, ServiceResult, BeneficiaryTransferSuccessResponse, beneficiary_transfer,
}
use online_banking.Payments.Payloads.{
  stable_beneficiary_request_hash, parse_beneficiary_completed_payload,
}
use online_banking.Payments.Steps.{
  Movement, by_user, with_retries, serializable_retries, normalize_currency, ron,
}
use online_banking.Payments.Fraud.{Challenge, run_mock_fraud_check, require_verified}
use online_banking.Payments.Fraud.Check.{skip_or_check, pass-bind, stop-bind}
use online_banking.Payments.Outcome.{
  IsRecorded, IsStored, Outcome, rejected, is_ok, Outcome-IsSound, IsSettled-elsewhere,
}
use online_banking.Payments.Retries.{with_retries-Ran}
use online_banking.Payments.Guarantee.{Ran-Outcome}
use online_banking.Payments.ToBeneficiary.{
  verified_beneficiary_transfer, transfer_to_beneficiary, execute_beneficiary_transfer_tx,
}
use online_banking.Payments.ToBeneficiary.Effect.{execute_beneficiary_transfer_tx-IsSettled}
use online_banking.Payments.ToBeneficiary.Route.{IsToPayee}

-- The movements that a user's request allows: the user has a verified customer's profile, and the
-- payee is one of the customer's.
pub record IsOwnPayment (w : World) (user_id : ℕ) (dto : TransferToBeneficiaryDto) (currency : Text)
    (d : Draw) (m : Movement) : Type 0 where
  pub profile : CustomerProfile
  pub own : by_user user_id profile ≡ true
  pub verified : kyc_is_verified profile.kyc_status ≡ true
  pub to_payee : IsToPayee w.db profile.id dto currency dto.amount d m

module _ (svc : Services) (user : JwtAccessPayload) (dto : TransferToBeneficiaryDto) (key : Text)
    (skip : Bool) (c : Challenge) (draws : ℕ → Draw) (w : World) where
  abbrev body_of : CustomerProfile → ℕ → Tx (ServiceResult BeneficiaryTransferSuccessResponse)
  body_of profile attempt =
      execute_beneficiary_transfer_tx svc.prisma svc.formats user.sub profile.id dto (trim key)
        (normalize_currency dto.currency) dto.amount
        (stable_beneficiary_request_hash svc.formats dto (normalize_currency dto.currency))
        (draws attempt)

  abbrev run_of :
      CustomerProfile → Db → Result (ServiceResult BeneficiaryTransferSuccessResponse) × Db
  run_of profile =
      with_retries serializable_retries 1 (bad_request "Transfer failed after retries") (λ attempt.
        svc.transactions.run (ServiceResult BeneficiaryTransferSuccessResponse) attempt
          (body_of profile attempt))

  abbrev check_of : Service (Unit {0})
  check_of =
      if skip
      then pure tt
      else run_mock_fraud_check svc user.sub (trim key) dto.amount (beneficiary_transfer dto) c

  guarded :
      (profile : CustomerProfile)
      → (verified_beneficiary_transfer svc user profile dto key skip c draws w
          ≡ on_db (run_of profile) w)
        ⊎ ((is_ok (verified_beneficiary_transfer svc user profile dto key skip c draws w).0 ≡ false)
            × ((verified_beneficiary_transfer svc user profile dto key skip c draws w).1.db ≡ w.db))
  unfolding verified_beneficiary_transfer
  guarded profile = elim (Bool-cases (text_eq (normalize_currency dto.currency) ron)) [
    | inr foreign ↦ inr (ground arith)
    | inl ron_it_is ↦
        elim (skip_or_check svc user.sub (trim key) dto.amount (beneficiary_transfer dto) skip c
          w) [
            | inl passed ↦
                inl (rw ron_it_is (pass-bind check_of (λ _. on_db (run_of profile)) passed))
            | inr (refused, same) ↦
                inr (rw ron_it_is (stop-bind check_of (λ _. on_db (run_of profile)) refused same))
          ]
  ]

  entered :
      (profile : CustomerProfile)
      → svc.prisma.find CustomerProfile (by_user user.sub) w.db.profiles ≡ some profile
      → ((kyc_is_verified profile.kyc_status ≡ true)
          × (transfer_to_beneficiary svc user dto key skip c draws w
              ≡ verified_beneficiary_transfer svc user profile dto key skip c draws w))
        ⊎ ((is_ok (transfer_to_beneficiary svc user dto key skip c draws w).0 ≡ false)
            × ((transfer_to_beneficiary svc user dto key skip c draws w).1.db ≡ w.db))
  unfolding transfer_to_beneficiary require_verified
  entered profile found = ground arith

  unknown :
      svc.prisma.find CustomerProfile (by_user user.sub) w.db.profiles ≡ none
      → (is_ok (transfer_to_beneficiary svc user dto key skip c draws w).0 ≡ false)
        × ((transfer_to_beneficiary svc user dto key skip c draws w).1.db ≡ w.db)
  unfolding transfer_to_beneficiary require_verified
  unknown missing = ground arith

  -- A request to pay a beneficiary, where no account is there twice, ends in one of these ways. It is
  -- answered with 201 and the amount goes, covered by the source's balance, from the account named to
  -- another, which is that of the saved payee or the external settlement account; or it is answered
  -- with 200 and the body that is stored with the user's completed key of that name, recorded with
  -- this request's hash, and no balance and no entry has changed; or it fails and the
  -- database is as it was; or its transactions are taken back and leave notifications at most.
  pub transfer_to_beneficiary-Outcome :
      IsKeyed w.db.accounts
      → Outcome
          (λ n. IsOwnPayment w user.sub dto (normalize_currency dto.currency) (draws n))
          (IsStored svc.prisma user.sub
            (trim key)
            (IsRecorded
              (stable_beneficiary_request_hash svc.formats dto (normalize_currency dto.currency)))
            parse_beneficiary_completed_payload
            w.db.idempotency_keys)
          w
          (transfer_to_beneficiary svc user dto key skip c draws w)
  transfer_to_beneficiary-Outcome keyed =
      elim (Option-cases (svc.prisma.find CustomerProfile (by_user user.sub) w.db.profiles)) [
        | inl missing ↦ rejected (unknown missing).0 (unknown missing).1
        | inr (profile, found) ↦ elim (entered profile found) [
          | inr (refused, same) ↦ rejected refused same
          | inl (verified, passed) ↦ rw passed (elim (guarded profile) [
            | inr (refused, same) ↦ rejected refused same
            | inl ran ↦ rw ran (
                Ran-Outcome (body_of profile)
                  (λ n. IsOwnPayment w user.sub dto (normalize_currency dto.currency) (draws n)) _ w
                  (λ n sent s' r h.
                    IsSettled-elsewhere (record { accounts = refl; entries = refl })
                      (λ m k. record {
                        profile = profile;
                        own = svc.prisma.find_holds CustomerProfile _ _ _ found;
                        verified = verified;
                        to_payee = record {
                          account = k.account;
                          payee = k.payee;
                          listed = k.listed;
                          saved = k.saved;
                          exists = k.exists;
                          route = k.route;
                          distinct = k.distinct;
                          movement = k.movement;
                        };
                      })
                      (execute_beneficiary_transfer_tx-IsSettled svc.prisma svc.formats user.sub
                        profile.id dto (trim key) _ dto.amount _ (draws n) _ s' r keyed h))
                  (run_of profile w.db)
                  (with_retries-Ran svc.transactions (body_of profile) w.db serializable_retries 1
                    (bad_request "Transfer failed after retries")))
          ])
        ]
      ]

  -- Balances, entries and overdrafts stay sound, whatever a request to pay a beneficiary does.
  pub transfer_to_beneficiary-IsSound :
      (opening : ℕ → ℤ)
      → pos 0 ≤ℤ dto.amount
      → IsSound opening w.db
      → IsSound opening (transfer_to_beneficiary svc user dto key skip c draws w).1.db
  transfer_to_beneficiary-IsSound opening nonneg sound =
      Outcome-IsSound (λ n m k. rw k.to_payee.movement nonneg)
        (transfer_to_beneficiary-Outcome sound.keyed) sound
