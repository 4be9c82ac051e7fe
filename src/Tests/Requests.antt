-- ===== src/Tests/Requests.antt =====
-- The theorems on requests, keys and challenges, applied to the small bank.
use online_banking.Base.{
  ◌+◌, ◌≡◌, refl, true, false, none, some, [], ◌∷◌, arith, ok, err, step_up_required, if◌then◌else◌,
  ltb,
}
use online_banking.Base.Int.{pos, ◌+ℤ◌, ◌-ℤ◌}
use online_banking.Base.Text.{Text, codes, text_eq}
use online_banking.Redis.{challenge, step_up}
use online_banking.Prisma.Memory.{memory}
use online_banking.Prisma.Tx.{TxState, begin}
use online_banking.Payments.Types.{
  PendingPayment, merchant_payment, ServiceResult, TransferSuccessResponse,
  BeneficiaryTransferSuccessResponse, MerchantPaymentSuccessResponse,
}
use online_banking.Payments.Payloads.{
  parse_completed_payload, parse_beneficiary_completed_payload, parse_merchant_completed_payload,
  transfer_to_json, beneficiary_to_json, merchant_to_json,
}
use online_banking.Payments.Stored.{stored_responses}
use online_banking.Payments.Outcome.{is_ok}
use online_banking.Payments.Fraud.{run_mock_fraud_check}
use online_banking.Payments.Fraud.Gate.{
  run_mock_fraud_check-demands, IsStopped, payments_need_step_up,
}
use online_banking.Payments.Transfer.{
  transfer, execute_transfer_tx, new_transfer, claimed_transfer, post_transfer,
}
use online_banking.Payments.Transfer.Repeat.{execute_transfer_tx-repeats}
use online_banking.Payments.ToBeneficiary.{transfer_to_beneficiary}
use online_banking.Payments.PayMerchant.{pay_merchant}
use online_banking.Payments.StepUp.{confirm_step_up}
use online_banking.Payments.StepUp.Laws.{confirm_step_up-refuses, confirm_step_up-once}
use online_banking.Fixtures.{
  services, plain_formats, bank, world, challenged, challenged_payment, ann, draw, drawn,
  between_own, to_payee, to_shop, ron_text,
}

abbrev response : TransferSuccessResponse
response = record {
  transaction_id = 2001 ∷ [];
  status = codes "POSTED";
  source_account_id = 101 ∷ [];
  destination_account_id = 102 ∷ [];
  amount = 30000 ∷ [];
  currency = ron_text;
}

abbrev sent_response : BeneficiaryTransferSuccessResponse
sent_response = record {
  transaction_id = 2001 ∷ [];
  status = codes "POSTED";
  source_account_id = 101 ∷ [];
  beneficiary_id = 301 ∷ [];
  beneficiary_iban = 201 ∷ [];
  amount = 500 ∷ [];
  currency = ron_text;
  internal_beneficiary = true;
}

abbrev paid_response : MerchantPaymentSuccessResponse
paid_response = record {
  transaction_id = 2001 ∷ [];
  status = codes "POSTED";
  source_account_id = 101 ∷ [];
  merchant_id = 401 ∷ [];
  amount = 500 ∷ [];
  currency = ron_text;
}

stored_responses_example :
    (parse_completed_payload (some (transfer_to_json response)) ≡ some response)
    × (parse_beneficiary_completed_payload (some (beneficiary_to_json sent_response))
        ≡ some sent_response)
    × (parse_merchant_completed_payload (some (merchant_to_json paid_response))
        ≡ some paid_response)
stored_responses_example = stored_responses response sent_response paid_response

-- the first transfer under the key
abbrev posted : ServiceResult TransferSuccessResponse
posted = record { http_status = 201; body = response }

abbrev after_posting : TxState
after_posting =
    (execute_transfer_tx memory plain_formats 1 (between_own (pos 30000)) (codes "k") ron_text
      (pos 30000) (codes "h") (draw 1) (begin bank)).1

first_posted :
    execute_transfer_tx memory plain_formats 1
      (between_own (pos 30000))
      (codes "k")
      ron_text
      (pos 30000)
      (codes "h")
      (draw 1)
      (begin bank)
    ≡ (ok posted, after_posting)
unfolding execute_transfer_tx new_transfer claimed_transfer post_transfer ◌+ℤ◌ ◌-ℤ◌
first_posted = refl

execute_transfer_tx-repeats_example :
    execute_transfer_tx memory plain_formats 1
      (between_own (pos 30000))
      (codes "k")
      ron_text
      (pos 30000)
      (codes "h")
      (draw 2)
      (begin after_posting.db)
    ≡ (ok (record { http_status = 200; body = response }), begin after_posting.db)
execute_transfer_tx-repeats_example =
    execute_transfer_tx-repeats memory plain_formats 1 (between_own (pos 30000)) (codes "k")
      ron_text (pos 30000) (codes "h") (draw 1) (draw 2) (begin bank) after_posting
      (begin after_posting.db) posted first_posted refl refl

run_mock_fraud_check-demands_example :
    ((run_mock_fraud_check services 1
        (codes "k")
        (pos 10000001)
        (merchant_payment (to_shop (pos 10000001)))
        drawn
        world).0
      ≡ err (step_up_required 77 300))
    × ((run_mock_fraud_check services 1
          (codes "k")
          (pos 10000001)
          (merchant_payment (to_shop (pos 10000001)))
          drawn
          world).1.db
        ≡ bank)
    × (services.redis.get 60000
          (step_up 1 77)
          (run_mock_fraud_check services 1
            (codes "k")
            (pos 10000001)
            (merchant_payment (to_shop (pos 10000001)))
            drawn
            world).1.cache
        ≡ (if ltb 60000 (50000 + 300000)
            then some (challenge (merchant_payment (to_shop (pos 10000001))) (codes "k") drawn.otp)
            else none))
run_mock_fraud_check-demands_example =
    run_mock_fraud_check-demands services world 1 (codes "k") (pos 10000001)
      (merchant_payment (to_shop (pos 10000001))) drawn 60000 refl refl

payments_need_step_up_example :
    IsStopped world
      (transfer services ann (between_own (pos 10000001)) (codes "k") false drawn draw world)
    × IsStopped world (
        transfer_to_beneficiary services ann
          (to_payee 301 (pos 10000001))
          (codes "k")
          false
          drawn
          draw
          world)
    × IsStopped world
        (pay_merchant services ann (to_shop (pos 10000001)) (codes "k") false drawn draw world)
payments_need_step_up_example =
    payments_need_step_up services world ann (codes "k") drawn draw refl
      (between_own (pos 10000001)) (to_payee 301 (pos 10000001)) (to_shop (pos 10000001)) refl refl
      refl

-- every password that is stored for the challenge differs from another one
other_password :
    (pending : PendingPayment) (key stored : Text)
    → services.redis.get drawn.now (step_up 1 77) challenged.cache
      ≡ some (challenge pending key stored)
    → text_eq stored (codes "999999") ≡ false
other_password pending key stored h =
    let same : drawn.otp ≡ stored = ground arith in rw (← same) refl

confirm_step_up-refuses_example :
    (is_ok (confirm_step_up services ann 77 (codes "999999") drawn draw challenged).0 ≡ false)
    × ((confirm_step_up services ann 77 (codes "999999") drawn draw challenged).1 ≡ challenged)
confirm_step_up-refuses_example =
    confirm_step_up-refuses services ann drawn draw 77 (codes "999999") challenged other_password

confirm_step_up-once_example :
    services.redis.get 61000
      (step_up 1 77)
      (confirm_step_up services ann 77 (codes "123456") drawn draw challenged).1.cache
    ≡ none
confirm_step_up-once_example =
    confirm_step_up-once services ann drawn draw 77 (codes "123456") challenged challenged_payment
      (codes "k") drawn.otp 61000 refl refl
