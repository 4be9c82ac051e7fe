-- ===== src/Redis/Keys.antt =====
-- The keys of the cache, told apart.
use online_banking.Base.{◌≡◌, ◌≢◌, ◌⊎◌, Bool, true, false, ◌&&◌, arith, ◌==◌, inl, inr, Bool-cases}
use online_banking.Redis.{CacheKey, step_up, reveal, mfa}

abbrev pub key_eq : CacheKey → CacheKey → Bool
key_eq (step_up a b) (step_up c d) = a == c && b == d
key_eq (reveal a b) (reveal c d) = a == c && b == d
key_eq (mfa a) (mfa c) = a == c
key_eq _ _ = false

pub key_eq→eq : (j k : CacheKey) → key_eq j k ≡ true → j ≡ k
key_eq→eq (step_up a b) (step_up c d) h = ground arith
key_eq→eq (reveal a b) (reveal c d) h = ground arith
key_eq→eq (mfa a) (mfa c) h = ground arith
key_eq→eq (step_up a b) (reveal c d) h = cc
key_eq→eq (step_up a b) (mfa c) h = cc
key_eq→eq (reveal a b) (step_up c d) h = cc
key_eq→eq (reveal a b) (mfa c) h = cc
key_eq→eq (mfa a) (step_up c d) h = cc
key_eq→eq (mfa a) (reveal c d) h = cc

pub key_eq_refl : (k : CacheKey) → key_eq k k ≡ true
key_eq_refl (step_up a b) = ground arith
key_eq_refl (reveal a b) = ground arith
key_eq_refl (mfa a) = ground arith

pub CacheKey-cases : (j k : CacheKey) → (j ≡ k) ⊎ (j ≢ k)
CacheKey-cases j k = elim (Bool-cases (key_eq j k)) [
  | inl same ↦ inl (key_eq→eq j k same)
  | inr other ↦ inr (λ e. ground (arith, key_eq_refl j, e))
]
