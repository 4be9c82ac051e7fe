-- ===== src/Payments/PayMerchant/Effect.antt =====
-- What a committed `executeMerchantPaymentTx` has done to the money.
use online_banking.Base.{
  ℕ, ◌≡◌, refl, true, inl, inr, ◌&&◌, Memᴰ, arith, count, ok, ◌==◌, Option-cases, returns?, ap,
}
use online_banking.Base.Int.{ℤ}
use online_banking.Base.Text.{Text, text_eq→eq}
use online_banking.Schema.{
  Db, Account, account_is_active, Merchant, merchant_is_active, IdempotencyKey,
}
use online_banking.Prisma.{Prisma, Created-cases}
use online_banking.Prisma.Tx.{TxState}
use online_banking.Services.{Draw}
use online_banking.Ledger.{IsKeyed, IsKeptIn, IsPosted, Covers}
use online_banking.Ledger.Rows.{IsKeptIn-of_row, IsKeptIn-of_debit, IsPosted-of_debit}
use online_banking.Payments.Types.{
  Formats, PayMerchantDto, ServiceResult, MerchantPaymentSuccessResponse,
}
use online_banking.Payments.Outcome.{
  IsRecorded, IsStored, IsSettled, posted_now, IsSettled-elsewhere,
}
use online_banking.Payments.Payloads.{parse_merchant_completed_payload}
use online_banking.Payments.Replays.{existing_outcome-IsSettled}
use online_banking.Payments.Steps.{by_user_and_key, Movement, with_account_id}
use online_banking.Payments.Existing.{spendable}
use online_banking.Payments.PayMerchant.{
  merchant_source, active_merchant, post_merchant_payment, claimed_merchant_payment,
  existing_merchant_payment, merchant_payment_key, execute_merchant_payment_tx,
}

abbrev pub merchant_movement : PayMerchantDto → Text → ℤ → Draw → ℕ → Movement
merchant_movement dto currency amount d destination = record {
  transaction_id = d.transaction_id;
  source_id = dto.source_account_id;
  destination_id = destination;
  amount = amount;
  currency = currency;
  credit_sequence = 1;
  at = d.now;
}

-- A movement that a request allows: from the named account to the settlement account, active and in
-- the request's currency, of the named active merchant.
pub record IsToMerchant (db : Db) (dto : PayMerchantDto) (currency : Text) (amount : ℤ) (d : Draw)
    (m : Movement) : Type 0 where
  pub merchant : Merchant
  pub settlement : Account
  pub listed : Memᴰ merchant db.merchants
  pub named : (merchant.id == dto.merchant_id && merchant_is_active merchant.status) ≡ true
  pub exists : Memᴰ settlement db.accounts
  pub settles : with_account_id merchant.settlement_account_id settlement ≡ true
  pub active : account_is_active settlement.status ≡ true
  pub kept : settlement.currency ≡ currency
  pub movement : m ≡ merchant_movement dto currency amount d merchant.settlement_account_id

module _ (prisma : Prisma) (fmt : Formats) where
  active_merchant-IsToMerchant :
      (dto : PayMerchantDto) (currency : Text) (amount : ℤ) (d : Draw) (s s' : TxState)
      (merchant : Merchant)
      → active_merchant prisma fmt dto.merchant_id currency s ≡ (ok merchant, s')
      → IsToMerchant s.db dto currency amount d
          (merchant_movement dto currency amount d merchant.settlement_account_id)
        × (s' ≡ s)
  unfolding active_merchant
  active_merchant-IsToMerchant dto currency amount d s s' merchant h =
      elim (Option-cases (
        prisma.find Merchant (λ m. m.id == dto.merchant_id && merchant_is_active m.status)
          s.db.merchants)) [
            | inl missing ↦ absurd (ground arith)
            | inr (m, found) ↦
                elim (Option-cases
                  (prisma.find Account (with_account_id m.settlement_account_id) s.db.accounts)) [
                    | inl missing ↦ absurd (ground arith)
                    | inr (a, joined) ↦
                        let same : m ≡ merchant = ground arith in
                        (
                          record {
                            merchant = merchant;
                            settlement = a;
                            listed = rw same at (prisma.find_member Merchant _ _ _ found);
                            named = rw same at (prisma.find_holds Merchant _ _ _ found);
                            exists = prisma.find_member Account _ _ _ joined;
                            settles = rw same at (prisma.find_holds Account _ _ _ joined);
                            active = ground arith;
                            kept = text_eq→eq a.currency currency (ground arith);
                            movement = refl;
                          },
                          ground arith,
                        )
                  ]
          ]

  module _ (user_id profile_id : ℕ) (dto : PayMerchantDto) (currency : Text) (amount : ℤ) (d : Draw)
      (s s' : TxState) (r : ServiceResult MerchantPaymentSuccessResponse)
      (Replays : MerchantPaymentSuccessResponse → Type 0) (keyed : IsKeyed s.db.accounts) where
    post_merchant_payment-IsPosted :
        (source : Account) (merchant : Merchant)
        → with_account_id dto.source_account_id source ≡ true
        → IsKeptIn currency merchant.settlement_account_id s.db.accounts
        → post_merchant_payment prisma fmt user_id source merchant currency amount dto.description
            profile_id d s
          ≡ (ok r, s')
        → (r.http_status ≡ 201)
          × IsPosted s.db s'.db
              (merchant_movement dto currency amount d merchant.settlement_account_id)
          × Covers amount dto.source_account_id s.db.accounts
    unfolding post_merchant_payment
    post_merchant_payment-IsPosted source merchant es into h =
        let p = merchant_source source.id profile_id currency amount in
        let m = merchant_movement dto currency amount d merchant.settlement_account_id in
        let narrow : (a : Account) → p a ≡ true → with_account_id m.source_id a ≡ true =
          λ a e. ground arith in
        let one : count p s.db.accounts ≡ 1 = grind (arith, prisma.update_many_patches) in
        let (posted, covers) =
          IsPosted-of_debit s.db s'.db m p keyed narrow (λ a e. ground arith)
            (IsKeptIn-of_debit s.db s'.db m p keyed narrow
              (λ a e. text_eq→eq a.currency currency (ground arith)) one)
            into one
            (grind
              (arith, prisma.update_many_patches, prisma.create_appends, prisma.update_patches))
            (grind
              (arith, prisma.update_many_patches, prisma.create_appends, prisma.update_patches)) in
        (grind (arith, prisma.update_many_patches), posted, covers)

    claimed_merchant_payment-IsSettled :
        claimed_merchant_payment prisma fmt user_id profile_id dto currency amount d s ≡ (ok r, s')
        → IsSettled (IsToMerchant s.db dto currency amount d) Replays s.db s'.db r
    unfolding claimed_merchant_payment
    claimed_merchant_payment-IsSettled h =
        elim (Option-cases (
          prisma.find Account (spendable dto.source_account_id profile_id currency)
            s.db.accounts)) [
              | inl missing ↦ absurd (ground arith)
              | inr (source, from) ↦
                  elim (returns? (active_merchant prisma fmt dto.merchant_id currency s)) [
                    | inr (e, t, stopped) ↦ absurd (ground arith)
                    | inl (merchant, t, found) ↦
                        let (to, same) =
                          active_merchant-IsToMerchant dto currency amount d s t merchant found in
                        let hit = prisma.find_holds Account _ _ _ from in
                        let m =
                          merchant_movement dto currency amount d merchant.settlement_account_id in
                        let into =
                          IsKeptIn-of_row s.db.accounts m.destination_id currency keyed to.exists
                            (rw (ap (λ (x : Movement). x.destination_id) to.movement) to.settles)
                            to.kept in
                        let (created_now, posted, covers) =
                          post_merchant_payment-IsPosted source merchant (ground arith) into
                            (ground (arith, same)) in
                        posted_now created_now m to posted covers
                  ]
            ]

  existing_merchant_payment-IsSettled :
      (user_id : ℕ) (key hash : Text) (row : IdempotencyKey) (s s' : TxState)
      (r : ServiceResult MerchantPaymentSuccessResponse) (Allowed : Movement → Type 0)
      → Memᴰ row s.db.idempotency_keys
      → by_user_and_key user_id key row ≡ true
      → existing_merchant_payment hash row s ≡ (ok r, s')
      → IsSettled Allowed
          (IsStored prisma user_id key
            (IsRecorded hash)
            parse_merchant_completed_payload
            s.db.idempotency_keys)
          s.db
          s'.db
          r
  unfolding existing_merchant_payment
  existing_merchant_payment-IsSettled user_id key hash row s s' r Allowed there own h =
      existing_outcome-IsSettled r s s' prisma user_id key hash parse_merchant_completed_payload row
        _ Allowed there own h

  -- A merchant payment's transaction that returns has posted a movement to the merchant, or has
  -- given the stored answer of the completed key, recorded with this request's hash, and moved
  -- nothing.
  pub execute_merchant_payment_tx-IsSettled :
      (user_id profile_id : ℕ) (dto : PayMerchantDto) (key currency : Text) (amount : ℤ)
      (hash : Text) (d : Draw) (s s' : TxState) (r : ServiceResult MerchantPaymentSuccessResponse)
      → IsKeyed s.db.accounts
      → execute_merchant_payment_tx prisma fmt user_id profile_id dto key currency amount hash d s
        ≡ (ok r, s')
      → IsSettled
          (IsToMerchant s.db dto currency amount d)
          (IsStored prisma user_id key
            (IsRecorded hash)
            parse_merchant_completed_payload
            s.db.idempotency_keys)
          s.db
          s'.db
          r
  unfolding execute_merchant_payment_tx
  execute_merchant_payment_tx-IsSettled user_id profile_id dto key currency amount hash d s s' r
        keyed h =
      elim (Option-cases
        (prisma.find IdempotencyKey (by_user_and_key user_id key) s.db.idempotency_keys)) [
          | inr (row, found) ↦
              existing_merchant_payment-IsSettled user_id key hash row s s' r _
                (prisma.find_member IdempotencyKey _ _ _ found)
                (prisma.find_holds IdempotencyKey _ _ _ found) (ground arith)
          | inl fresh ↦
              elim (Created-cases (
                prisma.create IdempotencyKey (merchant_payment_key user_id key hash d)
                  s.db.idempotency_keys)) [
                    | inr (t, e) ↦ absurd (ground arith)
                    | inl (t, e) ↦
                        let s1 : TxState = record s { db = record s.db { idempotency_keys = t } } in
                        IsSettled-elsewhere (record { accounts = refl; entries = refl })
                          (λ m k. record {
                            merchant = k.merchant;
                            settlement = k.settlement;
                            listed = k.listed;
                            named = k.named;
                            exists = k.exists;
                            settles = k.settles;
                            active = k.active;
                            kept = k.kept;
                            movement = k.movement;
                          })
                          (claimed_merchant_payment-IsSettled user_id profile_id dto currency amount
                            d s1 s' r _ keyed (ground arith))
                  ]
        ]
