-- ===== src/Payments/Transfer/Effect.antt =====
-- What a committed `executeTransferTx` has done to the money.
use online_banking.Base.{
  ℕ, ◌≡◌, refl, true, false, ap, none, some, List, [], ◌∷◌, inl, inr, Option, Memᴰ, arith, count,
  ok, Option-cases,
}
use online_banking.Base.Int.{ℤ}
use online_banking.Base.Text.{Text, text_eq→eq, text_eq_refl}
use online_banking.Schema.{Account, CustomerProfile, IdempotencyKey, IdempotencyStatus}
use online_banking.Prisma.{Prisma, Created, created, violated}
use online_banking.Prisma.Tx.{TxState}
use online_banking.Services.{Draw}
use online_banking.Ledger.{IsKeyed}
use online_banking.Ledger.Rows.{IsKeptIn-of_row, IsKeptIn-of_debit, IsPosted-of_debit}
use online_banking.Payments.Types.{
  Formats, CreateTransferDto, ServiceResult, TransferSuccessResponse,
}
use online_banking.Payments.Steps.{by_user, by_user_and_key, Movement, with_account_id}
use online_banking.Payments.Outcome.{
  IsKnown, listed, met, IsUncontested, IsStored, IsSettled, posted_now, replayed,
  IsSettled-SameMoney,
}
use online_banking.Payments.Payloads.{parse_completed_payload}
use online_banking.Payments.Transfer.{
  hash_differs, post_transfer, claimed_transfer, new_transfer, replay_transfer, existing_transfer,
  raced_transfer, transfer_key, execute_transfer_tx, transfer_source, owned_active,
}

-- The movement that a transfer asks for.
abbrev pub transfer_movement : CreateTransferDto → Text → ℤ → Draw → Movement
transfer_movement dto currency amount d = record {
  transaction_id = d.transaction_id;
  source_id = dto.source_account_id;
  destination_id = dto.destination_account_id;
  amount = amount;
  currency = currency;
  credit_sequence = 1;
  at = d.now;
}

-- The one movement that a request to transfer allows.
abbrev pub IsTransfer : CreateTransferDto → Text → ℤ → Draw → Movement → Type 0
IsTransfer dto currency amount d m = m ≡ transfer_movement dto currency amount d

hash_differs-IsUncontested :
    (hash : Text) (stored : Option Text)
    → hash_differs hash stored ≡ false
    → IsUncontested hash stored
unfolding hash_differs
hash_differs-IsUncontested hash none h = inr (inl refl)
hash_differs-IsUncontested hash (some []) h = inr (inr refl)
hash_differs-IsUncontested hash (some (c ∷ t)) h =
    inl (ap some (text_eq→eq (c ∷ t) hash (ground arith)))

module _ (prisma : Prisma) (fmt : Formats) where
  module _ (user_id : ℕ) (dto : CreateTransferDto) (currency : Text) (amount : ℤ) (d : Draw)
      (s s' : TxState) (r : ServiceResult TransferSuccessResponse)
      (Replays : TransferSuccessResponse → Type 0) (keyed : IsKeyed s.db.accounts) where
    post_transfer-IsSettled :
        (source destination : Account) (description : Option Text) (customer_id : ℕ)
        → with_account_id dto.source_account_id source ≡ true
        → with_account_id dto.destination_account_id destination ≡ true
        → Memᴰ destination s.db.accounts
        → destination.currency ≡ currency
        → post_transfer prisma fmt user_id source destination currency amount description
            customer_id d s
          ≡ (ok r, s')
        → IsSettled (IsTransfer dto currency amount d) Replays s.db s'.db r
    unfolding post_transfer
    post_transfer-IsSettled source destination description customer_id es ed mem kept h =
        let p = transfer_source source.id customer_id currency amount in
        let m = transfer_movement dto currency amount d in
        let narrow : (a : Account) → p a ≡ true → with_account_id m.source_id a ≡ true =
          λ a e. ground arith in
        let one : count p s.db.accounts ≡ 1 = grind (arith, prisma.update_many_patches) in
        let (posted, covers) =
          IsPosted-of_debit s.db s'.db m p keyed narrow (λ a e. ground arith)
            (IsKeptIn-of_debit s.db s'.db m p keyed narrow
              (λ a e. text_eq→eq a.currency currency (ground arith)) one)
            (IsKeptIn-of_row s.db.accounts m.destination_id currency keyed mem ed kept) one
            (grind
              (arith, prisma.update_many_patches, prisma.create_appends, prisma.update_patches))
            (grind
              (arith, prisma.update_many_patches, prisma.create_appends, prisma.update_patches)) in
        posted_now (grind (arith, prisma.update_many_patches)) m refl posted covers

    claimed_transfer-IsSettled :
        claimed_transfer prisma fmt user_id dto currency amount d s ≡ (ok r, s')
        → IsSettled (IsTransfer dto currency amount d) Replays s.db s'.db r
    unfolding claimed_transfer
    claimed_transfer-IsSettled h =
        elim (Option-cases (prisma.find CustomerProfile (by_user user_id) s.db.profiles)) [
          | inl nobody ↦ absurd (ground arith)
          | inr (profile, found) ↦
              elim (Option-cases (
                prisma.find Account (owned_active dto.source_account_id profile.id)
                  s.db.accounts)) [
                    | inl missing ↦ absurd (ground arith)
                    | inr (source, from) ↦
                        elim (Option-cases (
                          prisma.find Account (owned_active dto.destination_account_id profile.id)
                            s.db.accounts)) [
                              | inl missing ↦ absurd (ground arith)
                              | inr (destination, to) ↦
                                  let hit = prisma.find_holds Account _ _ _ from in
                                  let hit' = prisma.find_holds Account _ _ _ to in
                                  post_transfer-IsSettled source destination dto.description
                                    profile.id (ground arith) (ground arith)
                                    (prisma.find_member Account _ _ _ to)
                                    (text_eq→eq destination.currency currency (ground arith))
                                    (ground arith)
                            ]
                  ]
        ]

  module _ (user_id : ℕ) (key hash : Text) (table : List IdempotencyKey) (row : IdempotencyKey)
      (s s' : TxState) (r : ServiceResult TransferSuccessResponse) (Allowed : Movement → Type 0)
      (known : IsKnown prisma user_id key table row)
      (own : by_user_and_key user_id key row ≡ true) where
    replay_transfer-IsSettled :
        row.status ≡ IdempotencyStatus.completed
        → replay_transfer hash row s ≡ (ok r, s')
        → IsSettled Allowed
            (IsStored prisma user_id key (IsUncontested hash) parse_completed_payload table)
            s.db
            s'.db
            r
    unfolding replay_transfer
    replay_transfer-IsSettled done h =
        replayed (ground arith)
          (record {
            row = row;
            known = known;
            own = own;
            completed = done;
            fits = hash_differs-IsUncontested hash row.request_hash (ground arith);
            answer = ground arith;
          })
          (record { accounts = ground arith; entries = ground arith })

    existing_transfer-IsSettled :
        (status : IdempotencyStatus)
        → row.status ≡ status
        → existing_transfer hash status row s ≡ (ok r, s')
        → IsSettled Allowed
            (IsStored prisma user_id key (IsUncontested hash) parse_completed_payload table)
            s.db
            s'.db
            r
    unfolding existing_transfer
    existing_transfer-IsSettled IdempotencyStatus.completed done h =
        replay_transfer-IsSettled done h
    existing_transfer-IsSettled _ done h = cc

    raced_transfer-IsSettled :
        (status : IdempotencyStatus)
        → row.status ≡ status
        → raced_transfer hash status row s ≡ (ok r, s')
        → IsSettled Allowed
            (IsStored prisma user_id key (IsUncontested hash) parse_completed_payload table)
            s.db
            s'.db
            r
    unfolding raced_transfer
    raced_transfer-IsSettled IdempotencyStatus.completed done h = replay_transfer-IsSettled done h
    raced_transfer-IsSettled _ done h = cc

  new_transfer-IsSettled :
      (user_id : ℕ) (dto : CreateTransferDto) (key currency : Text) (amount : ℤ) (hash : Text)
      (d : Draw) (s s' : TxState) (r : ServiceResult TransferSuccessResponse)
      → IsKeyed s.db.accounts
      → new_transfer prisma fmt user_id dto key currency amount hash d s ≡ (ok r, s')
      → IsSettled
          (IsTransfer dto currency amount d)
          (IsStored prisma user_id key
            (IsUncontested hash)
            parse_completed_payload
            s.db.idempotency_keys)
          s.db
          s'.db
          r
  unfolding new_transfer
  new_transfer-IsSettled user_id dto key currency amount hash d s s' r keyed h =
      go (prisma.create IdempotencyKey (transfer_key user_id key hash d) s.db.idempotency_keys) refl
    where
      row : IdempotencyKey
      row = transfer_key user_id key hash d

      go :
          (c : Created IdempotencyKey)
          → prisma.create IdempotencyKey row s.db.idempotency_keys ≡ c
          → IsSettled
              (IsTransfer dto currency amount d)
              (IsStored prisma user_id key
                (IsUncontested hash)
                parse_completed_payload
                s.db.idempotency_keys)
              s.db
              s'.db
              r
      go (created t) e =
          IsSettled-SameMoney (record { accounts = refl; entries = refl })
            (record { accounts = refl; entries = refl })
            (claimed_transfer-IsSettled user_id dto currency amount d
              (record s { db = record s.db { idempotency_keys = t } }) s' r _ keyed
              (rw (e, new_transfer) at h))
      go (violated t) e =
          elim (Option-cases (prisma.find IdempotencyKey (by_user_and_key user_id key) t)) [
            | inl none_there ↦ absurd (ground arith)
            | inr (other, found) ↦
                raced_transfer-IsSettled user_id key hash s.db.idempotency_keys other s s' r _
                  (met row t (ground (arith, text_eq_refl key)) e
                    (prisma.find_member IdempotencyKey _ _ _ found))
                  (prisma.find_holds IdempotencyKey _ _ _ found) other.status refl (ground arith)
          ]

  -- A transfer's transaction that returns has posted the movement asked for, or has given the
  -- stored answer of the user's completed key, whose recorded hash, if any, is the request's, and
  -- has moved nothing.
  pub execute_transfer_tx-IsSettled :
      (user_id : ℕ) (dto : CreateTransferDto) (key currency : Text) (amount : ℤ) (hash : Text)
      (d : Draw) (s s' : TxState) (r : ServiceResult TransferSuccessResponse)
      → IsKeyed s.db.accounts
      → execute_transfer_tx prisma fmt user_id dto key currency amount hash d s ≡ (ok r, s')
      → IsSettled
          (IsTransfer dto currency amount d)
          (IsStored prisma user_id key
            (IsUncontested hash)
            parse_completed_payload
            s.db.idempotency_keys)
          s.db
          s'.db
          r
  unfolding execute_transfer_tx
  execute_transfer_tx-IsSettled user_id dto key currency amount hash d s s' r keyed h =
      elim (Option-cases
        (prisma.find IdempotencyKey (by_user_and_key user_id key) s.db.idempotency_keys)) [
          | inr (row, found) ↦
              existing_transfer-IsSettled user_id key hash s.db.idempotency_keys row s s' r _
                (listed (prisma.find_member IdempotencyKey _ _ _ found))
                (prisma.find_holds IdempotencyKey _ _ _ found) row.status refl (ground arith)
          | inl fresh ↦
              new_transfer-IsSettled user_id dto key currency amount hash d s s' r keyed
                (ground arith)
        ]
