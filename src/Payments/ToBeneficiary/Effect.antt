-- ===== src/Payments/ToBeneficiary/Effect.antt =====
-- What a committed `executeBeneficiaryTransferTx` has done to the money.
use online_banking.Base.{
  ℕ, ◌≡◌, refl, true, false, inl, inr, Option, some, arith, count, ok, ◌==◌, Option-cases, returns?,
  sym, ap, Memᴰ,
}
use online_banking.Base.Int.{ℤ}
use online_banking.Base.Text.{Text, text_eq→eq}
use online_banking.Schema.{Account, CustomerProfile, IdempotencyKey, Beneficiary}
use online_banking.Prisma.{Prisma, Created-cases}
use online_banking.Prisma.Tx.{TxState}
use online_banking.Services.{Draw}
use online_banking.Ledger.{IsKeyed, IsKeptIn, IsPosted, Covers}
use online_banking.Ledger.Rows.{IsKeptIn-of_row, IsPosted-of_debit}
use online_banking.Payments.Types.{
  Formats, TransferToBeneficiaryDto, ServiceResult, BeneficiaryTransferSuccessResponse,
}
use online_banking.Payments.Outcome.{
  IsRecorded, IsStored, IsSettled, posted_now, IsSettled-elsewhere,
}
use online_banking.Payments.Payloads.{parse_beneficiary_completed_payload}
use online_banking.Payments.Replays.{existing_outcome-IsSettled}
use online_banking.Payments.Steps.{by_user_and_key, Movement, with_account_id}
use online_banking.Payments.ToBeneficiary.{
  resolve_destination, payee_of, post_beneficiary_transfer, claimed_beneficiary_transfer,
  existing_beneficiary_transfer, execute_beneficiary_transfer_tx,
}
use online_banking.Payments.ToBeneficiary.Rows.{covered, Destination, beneficiary_transfer_key}
use online_banking.Payments.Existing.{spendable}
use online_banking.Payments.ToBeneficiary.Route.{
  beneficiary_movement, is_saved, IsToPayee, IsRoute, resolve_destination-IsRoute, customer_of_lem,
  payee_of-keeps,
}

module _ (prisma : Prisma) (fmt : Formats) where
  module _ (user_id profile_id : ℕ) (dto : TransferToBeneficiaryDto) (currency : Text) (amount : ℤ)
      (d : Draw) (s s' : TxState) (r : ServiceResult BeneficiaryTransferSuccessResponse)
      (Replays : BeneficiaryTransferSuccessResponse → Type 0) (keyed : IsKeyed s.db.accounts) where
    post_beneficiary_transfer-IsPosted :
        (source : Account) (sender : CustomerProfile) (b : Beneficiary) (to : Destination)
        (payee : Option ℕ)
        → with_account_id dto.source_account_id source ≡ true
        → IsKeptIn currency dto.source_account_id s.db.accounts
        → IsKeptIn currency to.account_id s.db.accounts
        → post_beneficiary_transfer prisma fmt user_id source sender b to payee currency amount
            dto.description profile_id d s
          ≡ (ok r, s')
        → (r.http_status ≡ 201)
          × IsPosted s.db s'.db (beneficiary_movement dto currency amount d to.account_id)
          × Covers amount dto.source_account_id s.db.accounts
    unfolding post_beneficiary_transfer
    post_beneficiary_transfer-IsPosted source sender b to payee es from into h =
        let p = covered source.id amount in
        let m = beneficiary_movement dto currency amount d to.account_id in
        let narrow : (a : Account) → p a ≡ true → with_account_id m.source_id a ≡ true =
          λ a e. ground arith in
        let one : count p s.db.accounts ≡ 1 = grind (arith, prisma.update_many_patches) in
        let (posted, covers) =
          IsPosted-of_debit s.db s'.db m p keyed narrow (λ a e. ground arith) from into one
            (grind
              (arith, prisma.update_many_patches, prisma.create_appends, prisma.update_patches))
            (grind
              (arith, prisma.update_many_patches, prisma.create_appends, prisma.update_patches)) in
        (grind (arith, prisma.update_many_patches), posted, covers)

    finish :
        (source : Account) (sender : CustomerProfile) (b : Beneficiary) (to : Destination)
        (payee : Option ℕ)
        → prisma.find Account (spendable dto.source_account_id profile_id currency) s.db.accounts
          ≡ some source
        → prisma.find Beneficiary (is_saved dto.beneficiary_id profile_id) s.db.beneficiaries
          ≡ some b
        → IsRoute s.db.accounts b.iban currency to
        → (source.id == to.account_id) ≡ false
        → post_beneficiary_transfer prisma fmt user_id source sender b to payee currency amount
            dto.description profile_id d s
          ≡ (ok r, s')
        → IsSettled (IsToPayee s.db profile_id dto currency amount d) Replays s.db s'.db r
    finish source sender b to payee from saved way distinct h =
        let hit = prisma.find_holds Account _ _ _ from in
        let a = way.account in
        let kept : a.currency ≡ currency =
          text_eq→eq a.currency currency (ground (arith, way.route)) in
        let from_kept =
          IsKeptIn-of_row s.db.accounts dto.source_account_id currency keyed
            (prisma.find_member Account _ _ _ from) (ground arith)
            (text_eq→eq source.currency currency (ground arith)) in
        let into =
          IsKeptIn-of_row s.db.accounts to.account_id currency keyed way.exists
            (ground (arith, way.id)) kept in
        let (created_now, posted, covers) =
          post_beneficiary_transfer-IsPosted source sender b to payee (ground arith) from_kept into
            h in
        posted_now created_now (beneficiary_movement dto currency amount d to.account_id)
          (record {
            account = a;
            payee = b;
            listed = prisma.find_member Beneficiary _ _ _ saved;
            saved = prisma.find_holds Beneficiary _ _ _ saved;
            exists = way.exists;
            route = way.route;
            distinct = ground (arith, way.id);
            movement = ap (beneficiary_movement dto currency amount d) (sym way.id);
          })
          posted covers

    claimed_beneficiary_transfer-IsSettled :
        claimed_beneficiary_transfer prisma fmt user_id profile_id dto currency amount d s
          ≡ (ok r, s')
        → IsSettled (IsToPayee s.db profile_id dto currency amount d) Replays s.db s'.db r
    unfolding claimed_beneficiary_transfer
    claimed_beneficiary_transfer-IsSettled h =
        elim (Option-cases (
          prisma.find Account (spendable dto.source_account_id profile_id currency)
            s.db.accounts)) [
              | inl missing ↦ absurd (ground arith)
              | inr (source, from) ↦
                  elim (Option-cases
                    (prisma.find CustomerProfile (λ p. p.id == source.customer_id) s.db.profiles)) [
                      | inl missing ↦
                          absurd (ground (arith, customer_of_lem prisma fmt source.customer_id s))
                      | inr (sender, joined) ↦
                          elim (Option-cases (
                            prisma.find Beneficiary (is_saved dto.beneficiary_id profile_id)
                              s.db.beneficiaries)) [
                                | inl missing ↦ absurd (
                                    ground (arith, customer_of_lem prisma fmt source.customer_id s))
                                | inr (b, saved) ↦
                                    elim (returns?
                                      (resolve_destination prisma fmt b.iban currency s)) [
                                        | inr (e, u, stopped) ↦ absurd (
                                            ground (
                                              arith,
                                              customer_of_lem prisma fmt source.customer_id s,
                                            ))
                                        | inl (to, u, resolved) ↦
                                            let (way, same) =
                                              resolve_destination-IsRoute prisma fmt b.iban currency
                                                s u to resolved in
                                            elim (returns? (payee_of prisma fmt to s)) [
                                              | inr (e, v, stopped) ↦ absurd (
                                                  ground (
                                                    arith,
                                                    customer_of_lem prisma fmt source.customer_id s,
                                                    same,
                                                  ))
                                              | inl (payee, v, known) ↦
                                                  let same' =
                                                    payee_of-keeps prisma fmt to payee s v known in
                                                  finish source sender b to payee from saved way
                                                    (ground (
                                                      arith,
                                                      customer_of_lem prisma fmt source.customer_id
                                                          s,
                                                      same,
                                                      same',
                                                    ))
                                                    (ground (
                                                      arith,
                                                      customer_of_lem prisma fmt source.customer_id
                                                          s,
                                                      same,
                                                      same',
                                                    ))
                                            ]
                                      ]
                              ]
                    ]
            ]

  existing_beneficiary_transfer-IsSettled :
      (user_id : ℕ) (key hash : Text) (row : IdempotencyKey) (s s' : TxState)
      (r : ServiceResult BeneficiaryTransferSuccessResponse) (Allowed : Movement → Type 0)
      → Memᴰ row s.db.idempotency_keys
      → by_user_and_key user_id key row ≡ true
      → existing_beneficiary_transfer hash row s ≡ (ok r, s')
      → IsSettled Allowed
          (IsStored prisma user_id key
            (IsRecorded hash)
            parse_beneficiary_completed_payload
            s.db.idempotency_keys)
          s.db
          s'.db
          r
  unfolding existing_beneficiary_transfer
  existing_beneficiary_transfer-IsSettled user_id key hash row s s' r Allowed there own h =
      existing_outcome-IsSettled r s s' prisma user_id key hash parse_beneficiary_completed_payload
        row _ Allowed there own h

  -- A beneficiary transfer's transaction that returns has posted a movement to the payee, or has
  -- given the stored answer of the completed key, recorded with this request's hash, and moved
  -- nothing.
  pub execute_beneficiary_transfer_tx-IsSettled :
      (user_id profile_id : ℕ) (dto : TransferToBeneficiaryDto) (key currency : Text) (amount : ℤ)
      (hash : Text) (d : Draw) (s s' : TxState)
      (r : ServiceResult BeneficiaryTransferSuccessResponse)
      → IsKeyed s.db.accounts
      → execute_beneficiary_transfer_tx prisma fmt user_id profile_id dto key currency amount hash d
          s
        ≡ (ok r, s')
      → IsSettled
          (IsToPayee s.db profile_id dto currency amount d)
          (IsStored prisma user_id key
            (IsRecorded hash)
            parse_beneficiary_completed_payload
            s.db.idempotency_keys)
          s.db
          s'.db
          r
  unfolding execute_beneficiary_transfer_tx
  execute_beneficiary_transfer_tx-IsSettled user_id profile_id dto key currency amount hash d s s' r
        keyed h =
      elim (Option-cases
        (prisma.find IdempotencyKey (by_user_and_key user_id key) s.db.idempotency_keys)) [
          | inr (row, found) ↦
              existing_beneficiary_transfer-IsSettled user_id key hash row s s' r _
                (prisma.find_member IdempotencyKey _ _ _ found)
                (prisma.find_holds IdempotencyKey _ _ _ found) (ground arith)
          | inl fresh ↦
              elim (Created-cases (
                prisma.create IdempotencyKey (beneficiary_transfer_key user_id key hash d)
                  s.db.idempotency_keys)) [
                    | inr (t, e) ↦ absurd (ground arith)
                    | inl (t, e) ↦
                        let s1 : TxState = record s { db = record s.db { idempotency_keys = t } } in
                        IsSettled-elsewhere (record { accounts = refl; entries = refl })
                          (λ m k. record {
                            account = k.account;
                            payee = k.payee;
                            listed = k.listed;
                            saved = k.saved;
                            exists = k.exists;
                            route = k.route;
                            distinct = k.distinct;
                            movement = k.movement;
                          })
                          (claimed_beneficiary_transfer-IsSettled user_id profile_id dto currency
                            amount d s1 s' r _ keyed (ground arith))
                  ]
        ]
