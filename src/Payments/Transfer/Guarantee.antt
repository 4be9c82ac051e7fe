-- ===== src/Payments/Transfer/Guarantee.antt =====
-- What a request to transfer may do.
use online_banking.Base.{ℕ, ◌≡◌, ◌⊎◌, inl, inr, Bool, false, arith, Result, plain_error}
use online_banking.Base.Int.{ℤ, pos, ◌≤ℤ◌}
use online_banking.Base.Text.{Text, trim}
use online_banking.Schema.{Db}
use online_banking.Prisma.Tx.{Tx}
use online_banking.Auth.Types.{JwtAccessPayload}
use online_banking.Services.{Services, World, Draw, on_db}
use online_banking.Ledger.{IsKeyed, IsSound}
use online_banking.Payments.Types.{CreateTransferDto, ServiceResult, TransferSuccessResponse}
use online_banking.Payments.Payloads.{stable_request_hash, parse_completed_payload}
use online_banking.Payments.Steps.{with_retries, serializable_retries, normalize_currency}
use online_banking.Payments.Fraud.{Challenge, run_mock_fraud_check, require_verified}
use online_banking.Payments.Outcome.{
  IsUncontested, IsStored, Outcome, rejected, is_ok, Outcome-IsSound,
}
use online_banking.Payments.Retries.{with_retries-Ran}
use online_banking.Payments.Guarantee.{Ran-Outcome}
use online_banking.Payments.Transfer.{transfer, execute_transfer_tx}
use online_banking.Payments.Transfer.Effect.{IsTransfer, execute_transfer_tx-IsSettled}

module _ (svc : Services) (user : JwtAccessPayload) (dto : CreateTransferDto) (key : Text)
    (skip : Bool) (c : Challenge) (draws : ℕ → Draw) (w : World) where
  abbrev body_of : ℕ → Tx (ServiceResult TransferSuccessResponse)
  body_of attempt =
      execute_transfer_tx svc.prisma svc.formats user.sub dto (trim key)
        (normalize_currency dto.currency) dto.amount
        (stable_request_hash svc.formats dto (normalize_currency dto.currency)) (draws attempt)

  abbrev run_of : Db → Result (ServiceResult TransferSuccessResponse) × Db
  run_of =
      with_retries serializable_retries 1 (plain_error "Transfer failed after retries") (λ attempt.
        svc.transactions.run (ServiceResult TransferSuccessResponse) attempt (body_of attempt))

  guarded :
      (transfer svc user dto key skip c draws w ≡ on_db run_of w)
      ⊎ ((is_ok (transfer svc user dto key skip c draws w).0 ≡ false)
          × ((transfer svc user dto key skip c draws w).1.db ≡ w.db))
  unfolding transfer run_mock_fraud_check require_verified
  guarded = ground arith

  -- A request to transfer, where no account is there twice, ends in one of these ways. It is answered
  -- with 201 and the movement that it asks for is posted, covered by the source's balance; or it is
  -- answered with 200 and the body that is stored with the user's completed key of that name, which
  -- the database has or the insertion of this one met, and whose recorded hash, if there is one, is
  -- this request's, and no balance and no entry has changed; or it fails and the
  -- database is as it was; or its transactions are taken back and leave notifications at most.
  pub transfer-Outcome :
      IsKeyed w.db.accounts
      → Outcome
          (λ n. IsTransfer dto (normalize_currency dto.currency) dto.amount (draws n))
          (IsStored svc.prisma user.sub
            (trim key)
            (IsUncontested (stable_request_hash svc.formats dto (normalize_currency dto.currency)))
            parse_completed_payload
            w.db.idempotency_keys)
          w
          (transfer svc user dto key skip c draws w)
  transfer-Outcome keyed = elim guarded [
    | inl ran ↦ rw ran (
        Ran-Outcome body_of
          (λ n. IsTransfer dto (normalize_currency dto.currency) dto.amount (draws n)) _ w
          (λ n sent s' r h.
            execute_transfer_tx-IsSettled svc.prisma svc.formats user.sub dto (trim key) _
              dto.amount _ (draws n) _ s' r keyed h)
          (run_of w.db)
          (with_retries-Ran svc.transactions body_of w.db serializable_retries 1
            (plain_error "Transfer failed after retries")))
    | inr (refused, same) ↦ rejected refused same
  ]

  -- Balances stay the opening balances with the entries booked, entries stay balanced, and no
  -- customer becomes overdrawn, whatever a request to transfer an amount that is not negative does.
  pub transfer-IsSound :
      (opening : ℕ → ℤ)
      → pos 0 ≤ℤ dto.amount
      → IsSound opening w.db
      → IsSound opening (transfer svc user dto key skip c draws w).1.db
  transfer-IsSound opening nonneg sound =
      Outcome-IsSound (λ n m e. rw e nonneg) (transfer-Outcome sound.keyed) sound
