-- ===== src/Tests/Money.antt =====
-- The theorems on money, applied to the small bank.
use online_banking.Base.{
  ℕ, ◌≡◌, refl, false, some, List, arith, bad_request, plain_error, serialization_failure, err,
  Result,
}
use online_banking.Base.Int.{ℤ, pos, ◌+ℤ◌, ◌≤ℤ◌}
use online_banking.Base.Text.{codes, trim}
use online_banking.Schema.{Db}
use online_banking.Redis.{challenge, step_up}
use online_banking.Ledger.{IsKeyed, IsSound, balance_of}
use online_banking.Payments.Types.{PendingPayment, beneficiary_transfer}
use online_banking.Payments.Steps.{normalize_currency, with_retries, serializable_retries}
use online_banking.Payments.Outcome.{Outcome, IsStored, IsRecorded, IsUncontested}
use online_banking.Payments.Payloads.{
  stable_request_hash, stable_beneficiary_request_hash, stable_merchant_request_hash,
  parse_completed_payload, parse_beneficiary_completed_payload, parse_merchant_completed_payload,
}
use online_banking.Payments.Retries.{with_retries-after}
use online_banking.Payments.Transfer.{transfer}
use online_banking.Payments.Transfer.Effect.{IsTransfer}
use online_banking.Payments.Transfer.Guarantee.{transfer-Outcome, transfer-IsSound}
use online_banking.Payments.ToBeneficiary.{transfer_to_beneficiary}
use online_banking.Payments.ToBeneficiary.Guarantee.{
  IsOwnPayment, transfer_to_beneficiary-Outcome, transfer_to_beneficiary-IsSound,
}
use online_banking.Payments.PayMerchant.{pay_merchant}
use online_banking.Payments.PayMerchant.Guarantee.{
  IsPaidToMerchant, pay_merchant-Outcome, pay_merchant-IsSound,
}
use online_banking.Payments.StepUp.{confirm_step_up}
use online_banking.Payments.StepUp.Laws.{amount_of, confirm_step_up-IsSound}
use online_banking.Fixtures.{
  services, bank, world, challenged, ann, draw, drawn, between_own, to_payee, to_shop,
}

abbrev pub opening_balance : ℕ → ℤ
opening_balance id = balance_of id bank.accounts

pub bank-IsKeyed : IsKeyed bank.accounts
bank-IsKeyed id = ground arith

pub bank-IsSound : IsSound opening_balance bank
unfolding ◌+ℤ◌
bank-IsSound = record {
  keyed = bank-IsKeyed;
  not_overdrawn =
      (λ e. omega arith, (λ e. omega arith, (λ e. omega arith, (λ e. cc, (λ e. cc, tt)))));
  in_sync = λ id. grind arith;
  balanced = λ t. refl;
}

transfer-IsSound_example :
    IsSound opening_balance
      (transfer services ann (between_own (pos 30000)) (codes "k") false drawn draw world).1.db
transfer-IsSound_example =
    transfer-IsSound services ann (between_own (pos 30000)) (codes "k") false drawn draw world
      opening_balance (omega arith) bank-IsSound

transfer_to_beneficiary-IsSound_example :
    IsSound opening_balance
      (transfer_to_beneficiary services ann
        (to_payee 301 (pos 500))
        (codes "k")
        false
        drawn
        draw
        world).1.db
transfer_to_beneficiary-IsSound_example =
    transfer_to_beneficiary-IsSound services ann (to_payee 301 (pos 500)) (codes "k") false drawn
      draw world opening_balance (omega arith) bank-IsSound

pay_merchant-IsSound_example :
    IsSound opening_balance
      (pay_merchant services ann (to_shop (pos 500)) (codes "k") false drawn draw world).1.db
pay_merchant-IsSound_example =
    pay_merchant-IsSound services ann (to_shop (pos 500)) (codes "k") false drawn draw world
      opening_balance bank-IsSound

-- the amount that the stored challenge holds
stored_amount :
    (pending : PendingPayment) (key stored : List ℕ)
    → services.redis.get drawn.now (step_up 1 77) challenged.cache
      ≡ some (challenge pending key stored)
    → pos 0 ≤ℤ amount_of pending
stored_amount pending key stored h =
    let same : beneficiary_transfer (to_payee 302 (pos 20000000)) ≡ pending = ground arith in
    rw (← same) (omega arith)

confirm_step_up-IsSound_example :
    IsSound opening_balance
      (confirm_step_up services ann 77 (codes "123456") drawn draw challenged).1.db
confirm_step_up-IsSound_example =
    confirm_step_up-IsSound services ann drawn draw 77 (codes "123456") challenged opening_balance
      stored_amount bank-IsSound

transfer-Outcome_example :
    Outcome
      (λ n.
        IsTransfer
          (between_own (pos 30000))
          (normalize_currency (between_own (pos 30000)).currency)
          (pos 30000)
          (draw n))
      (IsStored services.prisma 1
        (trim (codes "k"))
        (IsUncontested (
          stable_request_hash services.formats
            (between_own (pos 30000))
            (normalize_currency (between_own (pos 30000)).currency)))
        parse_completed_payload
        world.db.idempotency_keys)
      world
      (transfer services ann (between_own (pos 30000)) (codes "k") false drawn draw world)
transfer-Outcome_example =
    transfer-Outcome services ann (between_own (pos 30000)) (codes "k") false drawn draw world
      bank-IsKeyed

transfer_to_beneficiary-Outcome_example :
    Outcome
      (λ n.
        IsOwnPayment world 1
          (to_payee 302 (pos 500))
          (normalize_currency (to_payee 302 (pos 500)).currency)
          (draw n))
      (IsStored services.prisma 1
        (trim (codes "k"))
        (IsRecorded (
          stable_beneficiary_request_hash services.formats
            (to_payee 302 (pos 500))
            (normalize_currency (to_payee 302 (pos 500)).currency)))
        parse_beneficiary_completed_payload
        world.db.idempotency_keys)
      world
      (transfer_to_beneficiary services ann
        (to_payee 302 (pos 500))
        (codes "k")
        false
        drawn
        draw
        world)
transfer_to_beneficiary-Outcome_example =
    transfer_to_beneficiary-Outcome services ann (to_payee 302 (pos 500)) (codes "k") false drawn
      draw world bank-IsKeyed

pay_merchant-Outcome_example :
    Outcome
      (λ n.
        IsPaidToMerchant world 1
          (to_shop (pos 500))
          (normalize_currency (to_shop (pos 500)).currency)
          (draw n))
      (IsStored services.prisma 1
        (trim (codes "k"))
        (IsRecorded (
          stable_merchant_request_hash services.formats
            (to_shop (pos 500))
            (normalize_currency (to_shop (pos 500)).currency)))
        parse_merchant_completed_payload
        world.db.idempotency_keys)
      world
      (pay_merchant services ann (to_shop (pos 500)) (codes "k") false drawn draw world)
pay_merchant-Outcome_example =
    pay_merchant-Outcome services ann (to_shop (pos 500)) (codes "k") false drawn draw world
      bank-IsKeyed

-- a run that the database always gives up
abbrev conflicting_run : ℕ → Db → Result ℕ × Db
conflicting_run n db = (err serialization_failure, db)

with_retries-after_example :
    with_retries serializable_retries 1 (bad_request "a") conflicting_run bank
    ≡ with_retries serializable_retries 1 (plain_error "b") conflicting_run bank
with_retries-after_example =
    with_retries-after conflicting_run (bad_request "a") (plain_error "b") bank
