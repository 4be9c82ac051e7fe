-- ===== src/Base/Lists.antt =====
-- Lists as database tables: rows that satisfy a test, counted and patched.
use Prim.Native.Nat.{ℕ, zero, suc, ◌+◌, ◌<◌, ◌≤◌}
use mathlib.Core.Path.{◌≡◌, refl, ap}
use mathlib.Core.Bool.{Bool, true, false}
use mathlib.Core.List.{List, [], ◌∷◌, ◌++◌, Memᴰ}
use native.Mathlib.Omega.{arith}
use mathlib.Core.Logic.{inl, inr}
use online_banking.Base.Tests.{if◌then◌else◌, Bool-cases}

module _ {ℓ} {A : Type ℓ} where
  abbrev pub length : List A → ℕ
  length [] = 0
  length (x ∷ xs) = suc (length xs)

  -- the number of rows that satisfy a test
  abbrev pub count : (A → Bool) → List A → ℕ
  count p [] = 0
  count p (x ∷ xs) = if p x then suc (count p xs) else count p xs

  -- `f` applied to the rows that satisfy a test
  abbrev pub patch : (A → Bool) → (A → A) → List A → List A
  patch p f [] = []
  patch p f (x ∷ xs) = (if p x then f x else x) ∷ patch p f xs

  abbrev pub select : (A → Bool) → List A → List A
  select p [] = []
  select p (x ∷ xs) = if p x then x ∷ select p xs else select p xs

  abbrev pub take : ℕ → List A → List A
  take zero xs = []
  take (suc n) [] = []
  take (suc n) (x ∷ xs) = x ∷ take n xs

  abbrev pub drop : ℕ → List A → List A
  drop zero xs = xs
  drop (suc n) [] = []
  drop (suc n) (x ∷ xs) = drop n xs

  -- neighbours stand in the order of a test
  abbrev pub IsOrdered : (A → A → Bool) → List A → Type 0
  IsOrdered ord [] = Unit {0}
  IsOrdered ord (x ∷ []) = Unit {0}
  IsOrdered ord (x ∷ y ∷ xs) = (ord x y ≡ true) × IsOrdered ord (y ∷ xs)

  abbrev pub any : (A → Bool) → List A → Bool
  any p [] = false
  any p (x ∷ xs) = if p x then true else any p xs

  abbrev pub All {κ} : (A → Type κ) → List A → Type κ
  All P [] = Unit
  All P (x ∷ xs) = P x × All P xs

module _ {ℓ} {A : Type ℓ} where
  pub All-append {κ} : (P : A → Type κ) (xs ys : List A) → All P xs → All P ys → All P (xs ++ ys)
  All-append P [] ys h k = k
  All-append P (x ∷ xs) ys h k = (h.0, All-append P xs ys h.1 k)

  pub All-map {κ μ} :
      (P : A → Type κ) (Q : A → Type μ) (xs : List A) → ((a : A) → P a → Q a) → All P xs → All Q xs
  All-map P Q [] f h = tt
  All-map P Q (x ∷ xs) f h = (f x h.0, All-map P Q xs f h.1)

  pub All-intro {κ} : (P : A → Type κ) (xs : List A) → ((a : A) → P a) → All P xs
  All-intro P [] f = tt
  All-intro P (x ∷ xs) f = (f x, All-intro P xs f)

  pub All-Memᴰ {κ} : (P : A → Type κ) (xs : List A) {x : A} → All P xs → Memᴰ x xs → P x
  All-Memᴰ P [] h m = elim m [ ]
  All-Memᴰ P (y ∷ xs) h (Memᴰ.head e) = rw e h.0
  All-Memᴰ P (y ∷ xs) h (Memᴰ.tail m) = All-Memᴰ P xs h.1 m

  pub count-append : (p : A → Bool) (xs ys : List A) → count p (xs ++ ys) ≡ count p xs + count p ys
  count-append p [] ys = omega arith
  count-append p (x ∷ xs) ys = ground (arith, count-append p xs ys)

  pub count-pos_of_Memᴰ :
      (p : A → Bool) (xs : List A) {x : A} → Memᴰ x xs → p x ≡ true → 0 < count p xs
  count-pos_of_Memᴰ p [] m h = elim m [ ]
  count-pos_of_Memᴰ p (y ∷ xs) (Memᴰ.head e) h = rw (← e, h) (omega arith)
  count-pos_of_Memᴰ p (y ∷ xs) (Memᴰ.tail m) h = ground (arith, count-pos_of_Memᴰ p xs m h)

  -- A patch that does not change what a test sees keeps its count.
  pub count-patch :
      (p q : A → Bool) (f : A → A) (xs : List A)
      → ((a : A) → p (f a) ≡ p a)
      → count p (patch q f xs) ≡ count p xs
  count-patch p q f [] h = refl
  count-patch p q f (x ∷ xs) h = ground (arith, count-patch p q f xs h, h x)

  pub patch-append :
      (p : A → Bool) (f : A → A) (xs ys : List A)
      → patch p f (xs ++ ys) ≡ patch p f xs ++ patch p f ys
  patch-append p f [] ys = refl
  patch-append p f (x ∷ xs) ys = ap (λ r. (if p x then f x else x) ∷ r) (patch-append p f xs ys)

  -- Nothing is patched where no row satisfies the test.
  pub patch_none : (p : A → Bool) (f : A → A) (xs : List A) → count p xs ≡ 0 → patch p f xs ≡ xs
  patch_none p f [] h = refl
  patch_none p f (x ∷ xs) h = ground (arith, patch_none p f xs)

  pub All-patch {κ} :
      (P : A → Type κ) (p : A → Bool) (f : A → A) (xs : List A)
      → ((a : A) → p a ≡ true → P a → P (f a))
      → All P xs
      → All P (patch p f xs)
  All-patch P p f [] h k = tt
  All-patch P p f (x ∷ xs) h k = elim (Bool-cases (p x)) [
    | inl hit ↦ rw hit (h x hit k.0, All-patch P p f xs h k.1)
    | inr miss ↦ rw miss (k.0, All-patch P p f xs h k.1)
  ]

  -- If at most one row satisfies a test, whatever holds of one such row holds of all.
  pub All-of_unique {κ} :
      (q : A → Bool) (P : A → Type κ) (rows : List A) {r : A}
      → Memᴰ r rows
      → q r ≡ true
      → count q rows ≤ 1
      → P r
      → All (λ a. q a ≡ true → P a) rows
  All-of_unique q P [] m h u p = tt
  All-of_unique q P (x ∷ rows) (Memᴰ.head e) h u p =
      (λ _. rw (← e) p, none_left q P rows (rw (← e, h) at u))
    where
      none_left :
          (q : A → Bool) (P : A → Type κ) (rows : List A)
          → suc (count q rows) ≤ 1
          → All (λ a. q a ≡ true → P a) rows
      none_left q P [] u = tt
      none_left q P (x ∷ rows) u = elim (Bool-cases (q x)) [
        | inl hit ↦ absurd (ground arith)
        | inr miss ↦ (λ hit. absurd (ground arith), none_left q P rows (ground arith))
      ]
  All-of_unique q P (x ∷ rows) (Memᴰ.tail m) h u p = elim (Bool-cases (q x)) [
    | inl hit ↦ absurd (ground (arith, count-pos_of_Memᴰ q rows m h))
    | inr miss ↦ (λ hit. absurd (ground arith), All-of_unique q P rows m h (ground arith) p)
  ]

  pub All-of_members {κ} : (P : A → Type κ) (xs : List A) → ((a : A) → Memᴰ a xs → P a) → All P xs
  All-of_members P [] f = tt
  All-of_members P (x ∷ xs) f =
      (f x (Memᴰ.head refl), All-of_members P xs (λ a m. f a (Memᴰ.tail m)))
