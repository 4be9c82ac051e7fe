-- ===== src/Beneficiaries/Laws.antt =====
-- A customer has one record for each IBAN, whatever is added, removed and added again.
use online_banking.Base.{
  ℕ, ◌≡◌, ◌≤◌, refl, Bool, ◌==◌, inl, inr, [], ◌∷◌, ◌++◌, arith, count, patch, count-patch,
  count-append, List, Option-cases, Bool-cases,
}
use online_banking.Base.Text.{Text, text_eq→eq}
use online_banking.Schema.{CustomerProfile, Beneficiary, beneficiary_is_active}
use online_banking.Prisma.{Created-cases}
use online_banking.Services.{Services, World}
use online_banking.Payments.Steps.{by_user}
use online_banking.Beneficiaries.{
  CreateBeneficiaryDto, with_iban, own_beneficiary, has_beneficiary_id, normalize_iban, reactivated,
  new_beneficiary, archived_beneficiary, reactivate_beneficiary, add_beneficiary,
  create_beneficiary_for, create_beneficiary, remove_beneficiary,
}

-- No customer has two records with one IBAN.
abbrev pub HasUniqueIbans : List Beneficiary → Type 0
HasUniqueIbans t = (customer_id : ℕ) (iban : Text) → count (with_iban customer_id iban) t ≤ 1

-- What an operation does to the table of records: nothing, a patch of rows that keeps customers and
-- IBANs, or a new row where there was none with its customer and IBAN.
data Changes (before after : List Beneficiary) : Type 0 where
  kept : after ≡ before → Changes before after
  patched :
      (p : Beneficiary → Bool) (f : Beneficiary → Beneficiary)
      → ((b : Beneficiary) → ((f b).customer_id ≡ b.customer_id) × ((f b).iban ≡ b.iban))
      → after ≡ patch p f before
      → Changes before after
  added :
      (b : Beneficiary)
      → count (with_iban b.customer_id b.iban) before ≡ 0
      → after ≡ before ++ b ∷ []
      → Changes before after

unique_after :
    (before after : List Beneficiary)
    → Changes before after
    → HasUniqueIbans before
    → HasUniqueIbans after
unique_after before after (kept e) unique customer_id iban = rw e (unique customer_id iban)
unique_after before after (patched p f blind e) unique customer_id iban =
    rw
      (
        e,
        count-patch (with_iban customer_id iban) p f before
            (λ b. rw ((blind b).0, (blind b).1) refl),
      )
      (unique customer_id iban)
unique_after before after (added b fresh e) unique customer_id iban =
    elim (Bool-cases (with_iban customer_id iban b)) [
      | inr other ↦ ground (
        arith,
        e,
        count-append (with_iban customer_id iban) before (b ∷ []),
        unique customer_id iban,
      )
      | inl hit ↦
          let same_iban : b.iban ≡ iban = text_eq→eq b.iban iban (ground arith) in
          let same_customer : b.customer_id ≡ customer_id = ground arith in
          let none_before : count (with_iban customer_id iban) before ≡ 0 =
            rw (← same_iban, ← same_customer) fresh in
          ground (arith, e, count-append (with_iban customer_id iban) before (b ∷ []), none_before)
    ]

module _ (svc : Services) (user_id : ℕ) where
  reactivate_beneficiary-Changes :
      (dto : CreateBeneficiaryDto) (existing : Beneficiary) (now : ℕ) (w : World)
      → Changes w.db.beneficiaries
          (reactivate_beneficiary svc user_id dto existing now w).1.db.beneficiaries
  unfolding reactivate_beneficiary
  reactivate_beneficiary-Changes dto existing now w =
      elim (Bool-cases (beneficiary_is_active existing.status)) [
        | inl active ↦ kept (ground arith)
        | inr archived ↦
            elim (Bool-cases (count (has_beneficiary_id existing.id) w.db.beneficiaries == 0)) [
              | inl missing ↦ kept (grind (arith, svc.prisma.update_patches))
              | inr there ↦
                  patched (has_beneficiary_id existing.id) (reactivated dto) (λ b. (refl, refl))
                    (grind (arith, svc.prisma.update_patches))
            ]
      ]

  add_beneficiary-Changes :
      (customer_id : ℕ) (dto : CreateBeneficiaryDto) (iban : Text) (id now : ℕ) (w : World)
      → count (with_iban customer_id iban) w.db.beneficiaries ≡ 0
      → Changes w.db.beneficiaries
          (add_beneficiary svc user_id customer_id dto iban id now w).1.db.beneficiaries
  unfolding add_beneficiary
  add_beneficiary-Changes customer_id dto iban id now w fresh =
      elim (Created-cases (
        svc.prisma.create Beneficiary (new_beneficiary customer_id dto iban id now)
          w.db.beneficiaries)) [
            | inr (t, e) ↦ kept (ground arith)
            | inl (t, e) ↦
                added (new_beneficiary customer_id dto iban id now) fresh
                  (grind (arith, svc.prisma.create_appends))
          ]

  create_beneficiary_for-Changes :
      (customer_id : ℕ) (dto : CreateBeneficiaryDto) (id now : ℕ) (w : World)
      → Changes w.db.beneficiaries
          (create_beneficiary_for svc user_id customer_id dto id now w).1.db.beneficiaries
  unfolding create_beneficiary_for
  create_beneficiary_for-Changes customer_id dto id now w =
      elim (Option-cases (
        svc.prisma.find Beneficiary (with_iban customer_id (normalize_iban dto.iban))
          w.db.beneficiaries)) [
            | inr (existing, held) ↦
                rw (held, create_beneficiary_for)
                  (reactivate_beneficiary-Changes dto existing now w)
            | inl fresh ↦
                rw (fresh, create_beneficiary_for)
                  (add_beneficiary-Changes customer_id dto (normalize_iban dto.iban) id now w
                    (svc.prisma.find_misses Beneficiary _ _ fresh))
          ]

  create_beneficiary-Changes :
      (dto : CreateBeneficiaryDto) (id now : ℕ) (w : World)
      → Changes w.db.beneficiaries (create_beneficiary svc user_id dto id now w).1.db.beneficiaries
  unfolding create_beneficiary
  create_beneficiary-Changes dto id now w =
      elim (Option-cases (svc.prisma.find CustomerProfile (by_user user_id) w.db.profiles)) [
        | inl missing ↦ kept (ground arith)
        | inr (profile, found) ↦
            let same : create_beneficiary svc user_id dto id now w
                ≡ create_beneficiary_for svc user_id profile.id dto id now w =
              ground arith in
            rw same (create_beneficiary_for-Changes profile.id dto id now w)
      ]

  remove_beneficiary-Changes :
      (beneficiary_id now : ℕ) (w : World)
      → Changes w.db.beneficiaries
          (remove_beneficiary svc user_id beneficiary_id now w).1.db.beneficiaries
  unfolding remove_beneficiary
  remove_beneficiary-Changes beneficiary_id now w =
      elim (Option-cases (svc.prisma.find CustomerProfile (by_user user_id) w.db.profiles)) [
        | inl missing ↦ kept (ground arith)
        | inr (profile, found) ↦
            elim (Option-cases (
              svc.prisma.find Beneficiary (own_beneficiary beneficiary_id profile.id)
                w.db.beneficiaries)) [
                  | inl missing ↦ kept (ground arith)
                  | inr (b, held) ↦ elim (Bool-cases (beneficiary_is_active b.status)) [
                    | inr archived ↦ kept (ground arith)
                    | inl active ↦
                        elim (Bool-cases
                          (count (has_beneficiary_id b.id) w.db.beneficiaries == 0)) [
                            | inl missing ↦ kept (grind (arith, svc.prisma.update_patches))
                            | inr there ↦
                                patched (has_beneficiary_id b.id) (archived_beneficiary now)
                                  (λ x. (refl, refl)) (grind (arith, svc.prisma.update_patches))
                          ]
                  ]
                ]
      ]

  -- If no customer has two records with one IBAN, then none has after a request to add a payee, nor
  -- after a request to remove one, whether it returns or throws.
  pub beneficiaries-HasUniqueIbans :
      (dto : CreateBeneficiaryDto) (id beneficiary_id now : ℕ) (w : World)
      → HasUniqueIbans w.db.beneficiaries
      → HasUniqueIbans (create_beneficiary svc user_id dto id now w).1.db.beneficiaries
        × HasUniqueIbans (remove_beneficiary svc user_id beneficiary_id now w).1.db.beneficiaries
  beneficiaries-HasUniqueIbans dto id beneficiary_id now w unique = (
    unique_after _ _ (create_beneficiary-Changes dto id now w) unique,
    unique_after _ _ (remove_beneficiary-Changes beneficiary_id now w) unique,
  )
