-- ===== src/Redis.antt =====
-- The Redis server behind backend/src/redis/redis.service.ts, which is no code of this repository:
-- values that expire, under the keys that the services build, and the documented behaviour of
-- `get`, `set … EX`/`setex` and `del`. The services' texts `stepup:transfer:<user>:<challenge>`,
-- `card:reveal:<user>:<card>` and `mfa:otp:<user>` are the constructors of `CacheKey`.
pub mod Keys
pub mod Memory
use online_banking.Base.{ℕ, ◌+◌, ◌*◌, ◌≡◌, ◌≢◌, Option, none, some, List, ltb, if◌then◌else◌}
use online_banking.Base.Text.{Text, is_empty}
use online_banking.Payments.Types.{PendingPayment}

pub data CacheKey : Type 0 where
  step_up : (user challenge : ℕ) → CacheKey
  reveal : (user card : ℕ) → CacheKey
  mfa : (user : ℕ) → CacheKey

-- The JSON text `{ payload, otp }` of a step-up challenge, or a plain one-time password.
pub data CacheValue : Type 0 where
  challenge : PendingPayment → (idempotency_key otp : Text) → CacheValue
  password : Text → CacheValue

-- a one-time password that was stored in plain; an empty text counts as missing
abbrev pub stored_otp : Option CacheValue → Option Text
stored_otp none = none
stored_otp (some (challenge _ _ _)) = none
stored_otp (some (password t)) = if is_empty t then none else some t

pub record CacheEntry : Type 0 where
  pub key : CacheKey
  pub value : CacheValue
  pub expires_at : ℕ

abbrev pub Cache : Type 0
Cache = List CacheEntry

-- Times are milliseconds, lifetimes are seconds.
pub record Redis : Type 0 where
  pub get : ℕ → CacheKey → Cache → Option CacheValue
  pub set_ex : ℕ → ℕ → CacheKey → CacheValue → Cache → Cache
  pub del : CacheKey → Cache → Cache
  pub get_set_ex :
      (now start ttl : ℕ) (k : CacheKey) (v : CacheValue) (c : Cache)
      → get now k (set_ex start ttl k v c) ≡ (if ltb now (start + ttl * 1000) then some v else none)
  pub get_set_ex_ne :
      (now start ttl : ℕ) (k j : CacheKey) (v : CacheValue) (c : Cache)
      → j ≢ k
      → get now j (set_ex start ttl k v c) ≡ get now j c
  pub get_del : (now : ℕ) (k : CacheKey) (c : Cache) → get now k (del k c) ≡ none
  pub get_del_ne :
      (now : ℕ) (k j : CacheKey) (c : Cache) → j ≢ k → get now j (del k c) ≡ get now j c
