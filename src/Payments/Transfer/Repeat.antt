-- ===== src/Payments/Transfer/Repeat.antt =====
-- A transfer that is asked for again under its key is answered again and moves nothing.
use online_banking.Base.{
  ℕ, ◌≡◌, refl, Bool, some, inl, inr, [], ◌∷◌, ◌++◌, patch, arith, ok, ◌==◌, List, Option,
  Option-cases,
}
use online_banking.Base.Int.{ℤ}
use online_banking.Base.Text.{Text, text_eq_refl}
use online_banking.Schema.{CustomerProfile, Account, IdempotencyKey, IdempotencyStatus}
use online_banking.Schema.Json.{Json}
use online_banking.Prisma.{Prisma, Created-cases}
use online_banking.Prisma.Tx.{TxState}
use online_banking.Services.{Draw}
use online_banking.Payments.Types.{
  CreateTransferDto, TransferSuccessResponse, ServiceResult, Formats,
}
use online_banking.Payments.Payloads.{transfer_to_json}
use online_banking.Payments.Stored.{parse_completed_payload-transfer_to_json}
use online_banking.Payments.Steps.{by_user, by_user_and_key}
use online_banking.Payments.Keys.{find_appended}
use online_banking.Payments.Transfer.{
  hash_differs, replay_transfer, existing_transfer, raced_transfer, transfer_key, owned_active,
  post_transfer, claimed_transfer, new_transfer, execute_transfer_tx,
}

abbrev pub completed_as : Json → ℕ → IdempotencyKey → IdempotencyKey
completed_as body now k = record k {
  status = IdempotencyStatus.completed;
  response_payload = some body;
  http_status = some 201;
  completed_at = some now;
}

abbrev has_id : ℕ → IdempotencyKey → Bool
has_id id k = k.id == id

-- a transaction that answers 201, and what it has done to the table of keys
abbrev Completes :
    Draw
    → List IdempotencyKey
    → List IdempotencyKey
    → ServiceResult TransferSuccessResponse
    → Type 0
Completes d before after r =
    after ≡ patch (has_id d.key_id) (completed_as (transfer_to_json r.body) d.now) before

module _ (prisma : Prisma) (fmt : Formats) where
  post_transfer-Completes :
      (user_id : ℕ) (source destination : Account) (currency : Text) (amount : ℤ)
      (description : Option Text) (customer_id : ℕ) (d : Draw) (s s' : TxState)
      (r : ServiceResult TransferSuccessResponse)
      → post_transfer prisma fmt user_id source destination currency amount description customer_id
          d s
        ≡ (ok r, s')
      → Completes d s.db.idempotency_keys s'.db.idempotency_keys r
  unfolding post_transfer
  post_transfer-Completes user_id source destination currency amount description customer_id d s s'
        r h =
      grind (arith, prisma.update_patches)

  claimed_transfer-Completes :
      (user_id : ℕ) (dto : CreateTransferDto) (currency : Text) (amount : ℤ) (d : Draw)
      (s s' : TxState) (r : ServiceResult TransferSuccessResponse)
      → claimed_transfer prisma fmt user_id dto currency amount d s ≡ (ok r, s')
      → Completes d s.db.idempotency_keys s'.db.idempotency_keys r
  unfolding claimed_transfer
  claimed_transfer-Completes user_id dto currency amount d s s' r h =
      elim (Option-cases (prisma.find CustomerProfile (by_user user_id) s.db.profiles)) [
        | inl nobody ↦ absurd (ground arith)
        | inr (profile, found) ↦
            elim (Option-cases
              (prisma.find Account (owned_active dto.source_account_id profile.id) s.db.accounts)) [
                | inl missing ↦ absurd (ground arith)
                | inr (source, from) ↦
                    elim (Option-cases (
                      prisma.find Account (owned_active dto.destination_account_id profile.id)
                        s.db.accounts)) [
                          | inl missing ↦ absurd (ground arith)
                          | inr (destination, to) ↦
                              post_transfer-Completes user_id source destination currency amount
                                dto.description profile.id d s s' r (ground arith)
                        ]
              ]
      ]

  -- a key that another request has created meanwhile is never answered with 201
  raced_transfer-replays :
      (hash : Text) (status : IdempotencyStatus) (row : IdempotencyKey) (s s' : TxState)
      (r : ServiceResult TransferSuccessResponse)
      → raced_transfer hash status row s ≡ (ok r, s')
      → r.http_status ≡ 200
  unfolding raced_transfer replay_transfer
  raced_transfer-replays hash IdempotencyStatus.completed row s s' r h = ground arith
  raced_transfer-replays hash _ row s s' r h = cc

  existing_transfer-replays :
      (hash : Text) (status : IdempotencyStatus) (row : IdempotencyKey) (s s' : TxState)
      (r : ServiceResult TransferSuccessResponse)
      → existing_transfer hash status row s ≡ (ok r, s')
      → r.http_status ≡ 200
  unfolding existing_transfer replay_transfer
  existing_transfer-replays hash IdempotencyStatus.completed row s s' r h = ground arith
  existing_transfer-replays hash _ row s s' r h = cc

  new_transfer-Completes :
      (user_id : ℕ) (dto : CreateTransferDto) (key currency : Text) (amount : ℤ) (hash : Text)
      (d : Draw) (s s' : TxState) (r : ServiceResult TransferSuccessResponse)
      → new_transfer prisma fmt user_id dto key currency amount hash d s ≡ (ok r, s')
      → r.http_status ≡ 201
      → Completes d
          (s.db.idempotency_keys ++ transfer_key user_id key hash d ∷ [])
          s'.db.idempotency_keys
          r
  unfolding new_transfer
  new_transfer-Completes user_id dto key currency amount hash d s s' r h now =
      elim (Created-cases
        (prisma.create IdempotencyKey (transfer_key user_id key hash d) s.db.idempotency_keys)) [
          | inl (t, e) ↦
              rw
                (← prisma.create_appends IdempotencyKey (transfer_key user_id key hash d)
                  s.db.idempotency_keys t e)
                (claimed_transfer-Completes user_id dto currency amount d
                  (record s { db = record s.db { idempotency_keys = t } }) s' r
                  (rw (e, new_transfer) at h))
          | inr (t, e) ↦
              elim (Option-cases (prisma.find IdempotencyKey (by_user_and_key user_id key) t)) [
                | inl missing ↦ absurd (ground arith)
                | inr (other, found) ↦ absurd (
                    ground
                      (arith, raced_transfer-replays hash other.status other s s' r (ground arith)))
              ]
        ]

  replay_transfer-answers :
      (hash : Text) (row : IdempotencyKey) (body : TransferSuccessResponse) (s : TxState)
      → row.request_hash ≡ some hash
      → row.response_payload ≡ some (transfer_to_json body)
      → replay_transfer hash row s ≡ (ok (record { http_status = 200; body = body }), s)
  unfolding replay_transfer hash_differs
  replay_transfer-answers hash row body s e e' =
      ground (arith, text_eq_refl hash, parse_completed_payload-transfer_to_json body)

  -- Once a transaction has answered 201 to a transfer, the same request under the same key gets the
  -- same body again with status 200, with whatever ids it draws, in every state with the keys that the
  -- first one has left, and it changes nothing in that state.
  pub execute_transfer_tx-repeats :
      (user_id : ℕ) (dto : CreateTransferDto) (key currency : Text) (amount : ℤ) (hash : Text)
      (d d' : Draw) (s s' later : TxState) (r : ServiceResult TransferSuccessResponse)
      → execute_transfer_tx prisma fmt user_id dto key currency amount hash d s ≡ (ok r, s')
      → r.http_status ≡ 201
      → later.db.idempotency_keys ≡ s'.db.idempotency_keys
      → execute_transfer_tx prisma fmt user_id dto key currency amount hash d' later
        ≡ (ok (record { http_status = 200; body = r.body }), later)
  unfolding execute_transfer_tx existing_transfer
  execute_transfer_tx-repeats user_id dto key currency amount hash d d' s s' later r h now same =
      elim (Option-cases
        (prisma.find IdempotencyKey (by_user_and_key user_id key) s.db.idempotency_keys)) [
          | inr (row, found) ↦
              absurd (
                ground (arith, existing_transfer-replays hash row.status row s s' r (ground arith)))
          | inl fresh ↦
              let new = transfer_key user_id key hash d in
              let stored = completed_as (transfer_to_json r.body) d.now new in
              let done =
                new_transfer-Completes user_id dto key currency amount hash d s s' r (ground arith)
                  now in
              let found : prisma.find IdempotencyKey (by_user_and_key user_id key)
                    later.db.idempotency_keys
                  ≡ some stored =
                rw (same, done)
                  (find_appended (by_user_and_key user_id key) (has_id d.key_id)
                    (completed_as (transfer_to_json r.body) d.now) (λ k. refl) prisma
                    s.db.idempotency_keys new (prisma.find_misses IdempotencyKey _ _ fresh)
                    (ground (arith, text_eq_refl key)) (ground arith)) in
              rw (found, execute_transfer_tx)
                (replay_transfer-answers hash stored r.body later refl refl)
        ]
