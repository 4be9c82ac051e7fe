-- ===== src/Admin/Laws.antt =====
-- Verified customers are those with a time of verification; a customer who is not verified cannot pay.
use online_banking.Base.{
  ℕ, ◌≡◌, refl, Bool, true, false, ok, err, forbidden, none, some, Option, inl, inr, List, [], ◌∷◌,
  ◌⊎◌, arith, count, patch, ◌==◌, Option-cases, Bool-cases, All, All-patch, All-Memᴰ,
}
use online_banking.Schema.{CustomerProfile, KycStatus, kyc_is_verified}
use online_banking.Services.{Services, World, Draw}
use online_banking.Services.Statements.{create_notification}
use online_banking.Payments.Steps.{by_user}
use online_banking.Payments.Fraud.{require_verified, Challenge}
use online_banking.Base.Text.{Text}
use online_banking.Auth.Types.{JwtAccessPayload}
use online_banking.Payments.Outcome.{is_ok}
use online_banking.Payments.Types.{CreateTransferDto, TransferToBeneficiaryDto, PayMerchantDto}
use online_banking.Payments.Transfer.{transfer}
use online_banking.Payments.ToBeneficiary.{transfer_to_beneficiary}
use online_banking.Payments.PayMerchant.{pay_merchant}
use online_banking.Admin.{has_profile_id, decided, update_kyc_status}

abbrev is_some : Option ℕ → Bool
is_some none = false
is_some (some _) = true

-- A profile has a time of verification if and only if it is verified.
abbrev pub IsDated : CustomerProfile → Type 0
IsDated p = is_some p.verified_at ≡ kyc_is_verified p.kyc_status

decided-IsDated :
    (status : KycStatus) (now : ℕ) (p : CustomerProfile) → IsDated (decided status now p)
decided-IsDated KycStatus.verified now p = refl
decided-IsDated KycStatus.pending now p = refl
decided-IsDated KycStatus.rejected now p = refl

-- the profiles of a user are that of the customer
abbrev pub IsOnlyProfile : ℕ → ℕ → CustomerProfile → Type 0
IsOnlyProfile user_id customer_id p = by_user user_id p ≡ true → has_profile_id customer_id p ≡ true

abbrev IsStopped : ℕ → CustomerProfile → Type 0
IsStopped user_id p = by_user user_id p ≡ true → kyc_is_verified p.kyc_status ≡ false

All-IsStopped :
    (user_id customer_id now : ℕ) (status : KycStatus) (t : List CustomerProfile)
    → kyc_is_verified status ≡ false
    → All (IsOnlyProfile user_id customer_id) t
    → All (IsStopped user_id) (patch (has_profile_id customer_id) (decided status now) t)
All-IsStopped user_id customer_id now status [] refused only = tt
All-IsStopped user_id customer_id now status (p ∷ t) refused only =
    elim (Bool-cases (has_profile_id customer_id p)) [
      | inl hit ↦
          rw hit ((λ own. refused), All-IsStopped user_id customer_id now status t refused only.1)
      | inr miss ↦ rw miss (
        (λ own. absurd (ground (arith, only.0 own))),
        All-IsStopped user_id customer_id now status t refused only.1,
      )
    ]

module _ (svc : Services) (admin_id customer_id : ℕ) (status : KycStatus) (notice_id now : ℕ) where
  update_kyc_status-profiles :
      (w : World)
      → ((update_kyc_status svc admin_id customer_id status notice_id now w).1.db.profiles
          ≡ w.db.profiles)
        ⊎ ((update_kyc_status svc admin_id customer_id status notice_id now w).1.db.profiles
            ≡ patch (has_profile_id customer_id) (decided status now) w.db.profiles)
  unfolding update_kyc_status create_notification
  update_kyc_status-profiles w =
      elim (Bool-cases (count (has_profile_id customer_id) w.db.profiles == 0)) [
        | inl missing ↦ inl (grind (arith, svc.prisma.update_patches))
        | inr there ↦
            elim (Option-cases
              (svc.prisma.find CustomerProfile (has_profile_id customer_id) w.db.profiles)) [
                | inl missing ↦ inl (ground arith)
                | inr (p, found) ↦ inr (grind (arith, svc.prisma.update_patches))
              ]
      ]

  -- If exactly the verified customers have a time of verification, then so it is after an
  -- administrator's decision, whether the request returns or throws.
  pub update_kyc_status-IsDated :
      (w : World)
      → All IsDated w.db.profiles
      → All IsDated
          (update_kyc_status svc admin_id customer_id status notice_id now w).1.db.profiles
  update_kyc_status-IsDated w dated = elim (update_kyc_status-profiles w) [
    | inl same ↦ rw same dated
    | inr patched ↦ rw patched (
        All-patch IsDated (has_profile_id customer_id) (decided status now) w.db.profiles
          (λ p hit k. decided-IsDated status now p) dated)
  ]

  update_kyc_status-patches :
      (w w' : World) (p : CustomerProfile)
      → update_kyc_status svc admin_id customer_id status notice_id now w ≡ (ok p, w')
      → w'.db.profiles ≡ patch (has_profile_id customer_id) (decided status now) w.db.profiles
  unfolding update_kyc_status create_notification
  update_kyc_status-patches w w' p h =
      elim (Option-cases
        (svc.prisma.find CustomerProfile (has_profile_id customer_id) w.db.profiles)) [
          | inl missing ↦ absurd (ground arith)
          | inr (q, found) ↦ grind (arith, svc.prisma.update_patches)
        ]

  refused_profile :
      (user_id : ℕ) (w w' : World) (p : CustomerProfile)
      → kyc_is_verified status ≡ false
      → All (IsOnlyProfile user_id customer_id) w.db.profiles
      → update_kyc_status svc admin_id customer_id status notice_id now w ≡ (ok p, w')
      → require_verified svc user_id w' ≡ (err (forbidden "KYC_REQUIRED"), w')
  unfolding require_verified
  refused_profile user_id w w' p refused only h =
      let stopped = All-IsStopped user_id customer_id now status w.db.profiles refused only in
      let patched = update_kyc_status-patches w w' p h in
      elim (Option-cases (svc.prisma.find CustomerProfile (by_user user_id) w'.db.profiles)) [
        | inl missing ↦ ground arith
        | inr (q, found) ↦
            let blocked =
              All-Memᴰ (IsStopped user_id) w'.db.profiles (rw patched stopped)
                (svc.prisma.find_member CustomerProfile _ _ _ found)
                (svc.prisma.find_holds CustomerProfile _ _ _ found) in
            ground (arith, blocked)
      ]

  -- Once an administrator has refused a customer, no transfer, payment to a beneficiary or payment to
  -- a merchant of a user who has that customer's profile and no other is made: each is rejected and
  -- changes nothing.
  pub update_kyc_status-stops :
      (user : JwtAccessPayload) (w w' : World) (p : CustomerProfile) (key : Text) (skip : Bool)
      (c : Challenge) (draws : ℕ → Draw) (a : CreateTransferDto) (b : TransferToBeneficiaryDto)
      (m : PayMerchantDto)
      → kyc_is_verified status ≡ false
      → All (IsOnlyProfile user.sub customer_id) w.db.profiles
      → update_kyc_status svc admin_id customer_id status notice_id now w ≡ (ok p, w')
      → ((is_ok (transfer svc user a key skip c draws w').0 ≡ false)
          × ((transfer svc user a key skip c draws w').1 ≡ w'))
        × ((is_ok (transfer_to_beneficiary svc user b key skip c draws w').0 ≡ false)
            × ((transfer_to_beneficiary svc user b key skip c draws w').1 ≡ w'))
        × (is_ok (pay_merchant svc user m key skip c draws w').0 ≡ false)
        × ((pay_merchant svc user m key skip c draws w').1 ≡ w')
  unfolding transfer transfer_to_beneficiary pay_merchant
  update_kyc_status-stops user w w' p key skip c draws a b m refused only h =
      let stop = refused_profile user.sub w w' p refused only h in
      (
        (ground (arith, stop), ground (arith, stop)),
        (ground (arith, stop), ground (arith, stop)),
        ground (arith, stop),
        ground (arith, stop),
      )
