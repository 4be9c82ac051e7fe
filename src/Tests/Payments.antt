-- ===== src/Tests/Payments.antt =====
-- Runs of the payment service on the small bank.
use online_banking.Base.{
  ℕ, ◌≡◌, refl, true, false, List, [], ◌∷◌, map, Result, ok, err, step_up_required, bad_request,
  conflict,
}
use online_banking.Base.Int.{ℤ, pos, negsuc, ◌+ℤ◌, ◌-ℤ◌}
use online_banking.Base.Text.{codes, trim}
use online_banking.Payments.Steps.{normalize_currency, with_retries}
use online_banking.Payments.Fraud.{require_verified, run_mock_fraud_check}
use online_banking.Services.{World}
use online_banking.Payments.Transfer.{
  transfer, execute_transfer_tx, new_transfer, claimed_transfer, post_transfer, existing_transfer,
}
use online_banking.Payments.Payloads.{
  parse_completed_payload, transfer_to_json, stable_request_hash,
}
use online_banking.Fixtures.{services, world, ann, draw, drawn, between_own}

abbrev balances : World → List ℤ
balances w = map (λ a. a.available_balance) w.db.accounts

abbrev http : {B : Type 0} → Result B → (B → ℕ) → ℕ
http (ok b) f = f b
http (err e) f = 0

-- what the runs of a transfer unfold
transfer_code : Unit {0}
unfolding transfer parse_completed_payload transfer_to_json normalize_currency trim ◌+ℤ◌ ◌-ℤ◌
    with_retries require_verified run_mock_fraud_check execute_transfer_tx new_transfer
    claimed_transfer post_transfer existing_transfer stable_request_hash
transfer_code = tt

abbrev pub moved : World
moved = (transfer services ann (between_own (pos 30000)) (codes " k ") false drawn draw world).1

-- The money moves once: the second request with the key gets the stored answer.
transfer_runs :
    (balances moved ≡ pos 49970000 ∷ pos 30000 ∷ pos 70000 ∷ negsuc 9999 ∷ pos 0 ∷ [])
    × (http
          (transfer services ann (between_own (pos 30000)) (codes "k") false drawn draw moved).0
          (λ b. b.http_status)
        ≡ 200)
    × (balances
          (transfer services ann (between_own (pos 30000)) (codes "k") false drawn draw moved).1
        ≡ balances moved)
unfolding transfer_code
transfer_runs = (refl, refl, refl)

transfer_stops :
    ((transfer services ann (between_own (pos 30001)) (codes "k") false drawn draw moved).0
      ≡ err (conflict "Idempotency key was already used with a different request body."))
    × ((transfer services ann (between_own (pos 50000001)) (codes "k") true drawn draw world).0
        ≡ err (bad_request "Insufficient funds in source account"))
    × ((transfer services ann (between_own (pos 10000001)) (codes "k") false drawn draw world).0
        ≡ err (step_up_required 77 300))
unfolding transfer_code
transfer_stops = (refl, refl, refl)
