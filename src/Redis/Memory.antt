-- ===== src/Redis/Memory.antt =====
-- A Redis server in memory: the interface's assumptions can be met.
use online_banking.Base.{
  ℕ, ◌+◌, ◌*◌, ◌≡◌, ◌≢◌, refl, Option, none, some, [], ◌∷◌, arith, ltb, if◌then◌else◌,
}
use online_banking.Redis.{Redis, CacheKey, CacheValue, CacheEntry, Cache}
use online_banking.Redis.Keys.{key_eq, key_eq→eq, key_eq_refl}

abbrev pub live : ℕ → CacheEntry → Option CacheValue
live now e = if ltb now e.expires_at then some e.value else none

abbrev pub cache_get : ℕ → CacheKey → Cache → Option CacheValue
cache_get now k [] = none
cache_get now k (e ∷ c) = if key_eq e.key k then live now e else cache_get now k c

abbrev pub cache_del : CacheKey → Cache → Cache
cache_del k [] = []
cache_del k (e ∷ c) = if key_eq e.key k then cache_del k c else e ∷ cache_del k c

pub cache_get-cache_del :
    (now : ℕ) (k : CacheKey) (c : Cache) → cache_get now k (cache_del k c) ≡ none
cache_get-cache_del now k [] = refl
cache_get-cache_del now k (e ∷ c) = ground (arith, cache_get-cache_del now k c)

pub cache_get-cache_del_ne :
    (now : ℕ) (k j : CacheKey) (c : Cache)
    → j ≢ k
    → cache_get now j (cache_del k c) ≡ cache_get now j c
cache_get-cache_del_ne now k j [] h = refl
cache_get-cache_del_ne now k j (e ∷ c) h =
    ground (arith, cache_get-cache_del_ne now k j c h, key_eq→eq e.key k, key_eq→eq e.key j)

pub get_set :
    (now start ttl : ℕ) (k : CacheKey) (v : CacheValue) (c : Cache)
    → cache_get now k (record { key = k; value = v; expires_at = start + ttl * 1000 } ∷ c)
      ≡ (if ltb now (start + ttl * 1000) then some v else none)
get_set now start ttl k v c = ground (arith, key_eq_refl k)

pub get_set_ne :
    (now start ttl : ℕ) (k j : CacheKey) (v : CacheValue) (c : Cache)
    → j ≢ k
    → cache_get now j (record { key = k; value = v; expires_at = start + ttl * 1000 } ∷ c)
      ≡ cache_get now j c
get_set_ne now start ttl k j v c h = ground (arith, key_eq→eq k j)

abbrev pub memory_redis : Redis
memory_redis = record {
  get = cache_get;
  set_ex = λ now ttl k v c. record { key = k; value = v; expires_at = now + ttl * 1000 } ∷ c;
  del = cache_del;
  get_set_ex = get_set;
  get_set_ex_ne = get_set_ne;
  get_del = cache_get-cache_del;
  get_del_ne = cache_get-cache_del_ne;
}
