-- ===== src/Payments/StepUp/Fair.antt =====
-- The amounts of the payments that wait in the cache for a password.
use online_banking.Base.{
  ℕ, ◌+◌, ◌*◌, ◌≡◌, sym, ◌∙◌, some, none, arith, inl, inr, if◌then◌else◌, ltb,
}
use online_banking.Base.Int.{pos, ◌≤ℤ◌}
use online_banking.Redis.{CacheKey, CacheValue, challenge, password, Cache}
use online_banking.Redis.Keys.{CacheKey-cases}
use online_banking.Services.{Services}
use online_banking.Payments.StepUp.Laws.{amount_of}

abbrev pub IsFairValue : CacheValue → Type 0
IsFairValue (challenge pending key otp) = pos 0 ≤ℤ amount_of pending
IsFairValue (password t) = Unit {0}

-- No payment that waits has an amount below zero.
abbrev pub IsFair : Services → Cache → Type 0
IsFair svc c =
    (now : ℕ) (k : CacheKey) (v : CacheValue) → svc.redis.get now k c ≡ some v → IsFairValue v

-- what one method does to the cache
pub data CacheStep (svc : Services) (before after : Cache) : Type 0 where
  kept : after ≡ before → CacheStep svc before after
  stored :
      (start ttl : ℕ) (k : CacheKey) (v : CacheValue)
      → IsFairValue v
      → after ≡ svc.redis.set_ex start ttl k v before
      → CacheStep svc before after
  deleted : (k : CacheKey) → after ≡ svc.redis.del k before → CacheStep svc before after

module _ (svc : Services) where
  set_ex-IsFair :
      (start ttl : ℕ) (k : CacheKey) (v : CacheValue) (c : Cache)
      → IsFairValue v
      → IsFair svc c
      → IsFair svc (svc.redis.set_ex start ttl k v c)
  set_ex-IsFair start ttl k v c fair_value fair now j u h = elim (CacheKey-cases j k) [
    | inr other ↦ fair now j u (sym (svc.redis.get_set_ex_ne now start ttl k j v c other) ∙ h)
    | inl same ↦
        let read : (if ltb now (start + ttl * 1000) then some v else none) ≡ some u =
          sym (svc.redis.get_set_ex now start ttl k v c) ∙ (rw same at h) in
        let is : v ≡ u = ground arith in rw (← is) fair_value
  ]

  del-IsFair : (k : CacheKey) (c : Cache) → IsFair svc c → IsFair svc (svc.redis.del k c)
  del-IsFair k c fair now j u h = elim (CacheKey-cases j k) [
    | inr other ↦ fair now j u (sym (svc.redis.get_del_ne now k j c other) ∙ h)
    | inl same ↦ absurd (ground (arith, svc.redis.get_del now k c, same, h))
  ]

  pub CacheStep-IsFair :
      {before after : Cache} → CacheStep svc before after → IsFair svc before → IsFair svc after
  CacheStep-IsFair (kept e) fair = rw e fair
  CacheStep-IsFair {before} (stored start ttl k v f e) fair =
      rw e (set_ex-IsFair start ttl k v before f fair)
  CacheStep-IsFair {before} (deleted k e) fair = rw e (del-IsFair k before fair)
