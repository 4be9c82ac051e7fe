-- ===== src/Payments/Keys.antt =====
-- The row of a table that was appended last, once one row of the table is patched by its id.
use online_banking.Base.{
  ◌≡◌, Bool, true, inl, inr, some, List, [], ◌∷◌, ◌++◌, Memᴰ, count, patch, arith, count-append,
  count-patch, if◌then◌else◌, Option-cases,
}
use online_banking.Prisma.{Prisma}

module _ {R : Type 0} (p q : R → Bool) (f : R → R) (blind : (r : R) → p (f r) ≡ p r) where
  only_row :
      (t : List R) (new r : R)
      → count p t ≡ 0
      → Memᴰ r (patch q f (t ++ new ∷ []))
      → p r ≡ true
      → r ≡ (if q new then f new else new)
  only_row [] new r fresh (Memᴰ.head e) hit = e
  only_row [] new r fresh (Memᴰ.tail m) hit = elim m [ ]
  only_row (x ∷ t) new r fresh (Memᴰ.head e) hit = absurd (ground (arith, blind x))
  only_row (x ∷ t) new r fresh (Memᴰ.tail m) hit = only_row t new r (ground arith) m hit

  -- The row that a search by `p` then gives, if no row satisfied `p` before.
  pub find_appended :
      (prisma : Prisma) (t : List R) (new : R)
      → count p t ≡ 0
      → p new ≡ true
      → q new ≡ true
      → prisma.find R p (patch q f (t ++ new ∷ [])) ≡ some (f new)
  find_appended prisma t new fresh hit patched =
      elim (Option-cases (prisma.find R p (patch q f (t ++ new ∷ [])))) [
        | inl missing ↦ absurd (
            ground (
              arith,
              prisma.find_misses R p _ missing,
              count-patch p q f (t ++ new ∷ []) blind,
              count-append p t (new ∷ []),
            ))
        | inr (r, found) ↦
            let same : r ≡ (if q new then f new else new) =
              only_row t new r fresh (prisma.find_member R p _ r found)
                (prisma.find_holds R p _ r found) in
            ground (arith, same)
      ]
