-- ===== src/Prisma.antt =====
-- The database client that the services call, which is no code of this repository: an interface
-- with the documented behaviour that the services rely on. A test stands for a `where` clause, a
-- function on rows for a `data` clause.
pub mod Tx
pub mod Statements
pub mod Finds
pub mod Memory
use online_banking.Base.{
  ℕ, ◌≡◌, refl, ◌⊎◌, inl, inr, Bool, true, Option, none, some, List, ◌∷◌, [], ◌++◌, Memᴰ, count,
  patch, ◌==◌, if◌then◌else◌, All, IsOrdered, ◌&&◌, false,
}
use online_banking.Base.Int.{ℤ, pos, ◌+ℤ◌}

-- a column of the rows that satisfy a test, added up
abbrev pub sum_column : {R : Type 0} → (R → Bool) → (R → ℤ) → List R → ℤ
sum_column p column [] = pos 0
sum_column p column (r ∷ t) = (if p r then column r else pos 0) +ℤ sum_column p column t

-- The outcome of an insertion: the new table, or a violated unique constraint (P2002) with the
-- table as a later read in the same transaction sees it.
pub data Created (R : Type 0) : Type 0 where
  created : List R → Created R
  violated : List R → Created R

pub Created-cases :
    {R : Type 0} (c : Created R)
    → ((t : List R) × (c ≡ created t)) ⊎ ((t : List R) × (c ≡ violated t))
Created-cases (created t) = inl (t, refl)
Created-cases (violated t) = inr (t, refl)

pub record Prisma : Type 1 where
  -- `findUnique` and `findFirst`: some row that satisfies the test, if there is one
  pub find : (R : Type 0) → (R → Bool) → List R → Option R
  pub find_member :
      (R : Type 0) (p : R → Bool) (t : List R) (r : R) → find R p t ≡ some r → Memᴰ r t
  pub find_holds :
      (R : Type 0) (p : R → Bool) (t : List R) (r : R) → find R p t ≡ some r → p r ≡ true
  pub find_misses : (R : Type 0) (p : R → Bool) (t : List R) → find R p t ≡ none → count p t ≡ 0
  -- `updateMany`: the number of rows that satisfied the test, and the table
  pub update_many : (R : Type 0) → (R → Bool) → (R → R) → List R → ℕ × List R
  pub update_many_patches :
      (R : Type 0) (p : R → Bool) (f : R → R) (t : List R)
      → update_many R p f t ≡ (count p t, patch p f t)
  -- `update` by a unique field: no result if there is no such row (P2025)
  pub update : (R : Type 0) → (R → Bool) → (R → R) → List R → Option (List R)
  pub update_patches :
      (R : Type 0) (p : R → Bool) (f : R → R) (t : List R)
      → update R p f t ≡ (if count p t == 0 then none else some (patch p f t))
  -- `create`
  pub create : (R : Type 0) → R → List R → Created R
  pub create_appends :
      (R : Type 0) (r : R) (t t' : List R) → create R r t ≡ created t' → t' ≡ t ++ r ∷ []
  -- `findMany` with `where` and `orderBy`: the rows that satisfy the test, in the order's sequence
  pub find_many : (R : Type 0) → (R → Bool) → (R → R → Bool) → List R → List R
  pub find_many_among :
      (R : Type 0) (P : R → Type 0) (p : R → Bool) (before : R → R → Bool) (t : List R)
      → All P t
      → All P (find_many R p before t)
  pub find_many_holds :
      (R : Type 0) (p : R → Bool) (before : R → R → Bool) (t : List R)
      → All (λ r. p r ≡ true) (find_many R p before t)
  pub find_many_count :
      (R : Type 0) (p q : R → Bool) (before : R → R → Bool) (t : List R)
      → count q (find_many R p before t) ≡ count (λ r. p r && q r) t
  pub find_many_ordered :
      (R : Type 0) (p : R → Bool) (before : R → R → Bool) (t : List R)
      → ((a b : R) → before a b ≡ false → before b a ≡ true)
      → IsOrdered before (find_many R p before t)
  -- `aggregate` with `_sum` of a column: `null` where there is no row
  pub aggregate_sum : (R : Type 0) → (R → Bool) → (R → ℤ) → List R → Option ℤ
  pub aggregate_sum_adds :
      (R : Type 0) (p : R → Bool) (column : R → ℤ) (t : List R)
      → aggregate_sum R p column t ≡ (if count p t == 0 then none else some (sum_column p column t))
