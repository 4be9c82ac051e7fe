-- ===== src/Prisma/Finds.antt =====
-- Searches in a table that is known: after an insertion, and by a unique field.
use online_banking.Base.{
  ◌≡◌, ◌≤◌, refl, Bool, true, inl, inr, some, List, [], ◌∷◌, ◌++◌, Memᴰ, count, arith, count-append,
  Option-cases, All-of_unique, All-Memᴰ, count-pos_of_Memᴰ,
}
use online_banking.Prisma.{Prisma}

module _ {R : Type 0} (prisma : Prisma) (p : R → Bool) where
  Memᴰ-append_one : (t : List R) (r : R) → Memᴰ r (t ++ r ∷ [])
  Memᴰ-append_one [] r = Memᴰ.head refl
  Memᴰ-append_one (x ∷ t) r = Memᴰ.tail (Memᴰ-append_one t r)

  -- A row that alone satisfies a test is what a search by the test gives.
  pub find_only :
      (t : List R) (r : R) → Memᴰ r t → p r ≡ true → count p t ≤ 1 → prisma.find R p t ≡ some r
  find_only t r m hit one = elim (Option-cases (prisma.find R p t)) [
    | inl missing ↦
        absurd (omega (arith, count-pos_of_Memᴰ p t m hit, prisma.find_misses R p t missing))
    | inr (x, found) ↦
        let same =
          All-Memᴰ (λ a. p a ≡ true → a ≡ r) t (All-of_unique p (λ a. a ≡ r) t m hit one refl)
            (prisma.find_member R p t x found) in
        ground (arith, same (prisma.find_holds R p t x found))
  ]

  pub find_last :
      (t : List R) (r : R) → count p t ≡ 0 → p r ≡ true → prisma.find R p (t ++ r ∷ []) ≡ some r
  find_last t r fresh hit =
      let one : count p (t ++ r ∷ []) ≡ 1 = ground (arith, count-append p t (r ∷ [])) in
      find_only (t ++ r ∷ []) r (Memᴰ-append_one t r) hit (omega (arith, one))
