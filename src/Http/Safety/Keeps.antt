-- ===== src/Http/Safety/Keeps.antt =====
-- One request keeps the money sound, and with it every sequence of requests.
use online_banking.Base.{
  ℕ, ◌≡◌, refl, sym, ap, ◌∙◌, Bool, true, false, arith, inl, inr, returns?, err,
}
use online_banking.Base.Int.{ℤ}
use online_banking.Services.{Services, Service, World}
use online_banking.Auth.Types.{Signing}
use online_banking.Auth.Guards.{jwt_auth_guard, roles_guard, mfa_verified_guard, validate}
use online_banking.Ledger.{IsSound}
use online_banking.Ledger.Posted.{SameMoney-IsSound}
use online_banking.Payments.StepUp.Fair.{IsFair, CacheStep-IsFair}
use online_banking.Http.{Caller, admitted, admitted_admin, guarded, checked}
use online_banking.Http.Effects.{IsQuiet}

-- The money is sound, and no payment that waits for its password has an amount below zero.
pub record IsSafe (svc : Services) (opening : ℕ → ℤ) (w : World) : Type 0 where
  pub sound : IsSound opening w.db
  pub fair : IsFair svc w.cache

pub IsQuiet-IsSafe :
    {svc : Services} {opening : ℕ → ℤ} {w w' : World}
    → IsQuiet svc w w'
    → IsSafe svc opening w
    → IsSafe svc opening w'
IsQuiet-IsSafe {svc} quiet safe = record {
  sound = SameMoney-IsSound quiet.money safe.sound;
  fair = CacheStep-IsFair svc quiet.cache safe.fair;
}

module _ (P : World → Type 0) where
  -- A method behind guards that change nothing, or behind a check of its body, keeps what it keeps.
  pub guarded_keeps :
      {A B : Type 0} (guard : Service A) (method : A → Service B) (w : World)
      → (guard w).1 ≡ w
      → ((a : A) → P w → P (method a w).1)
      → P w
      → P (guarded guard method w).1
  unfolding guarded
  guarded_keeps guard method w same keeps p = elim (returns? (guard w)) [
    | inr (e, v, h) ↦
        let there : v ≡ w = ap (λ x. x.1) (sym h) ∙ same in
        let run : guarded guard method w ≡ (err e, v) = ground arith in rw (run, there) p
    | inl (a, v, h) ↦
        let there : v ≡ w = ap (λ x. x.1) (sym h) ∙ same in
        let run : guarded guard method w ≡ method a v = ground arith in rw (run, there) (keeps a p)
  ]

  pub checked_keeps :
      {B : Type 0} (valid : Bool) (method : Service B) (w : World)
      → (valid ≡ true → P w → P (method w).1)
      → P w
      → P (checked valid method w).1
  unfolding checked
  checked_keeps false method w keeps p = p
  checked_keeps true method w keeps p = keeps refl p

module _ (svc : Services) (signing : Signing) (caller : Caller) (w : World) where
  pub jwt_auth_guard-same : (jwt_auth_guard svc signing caller.token caller.now w).1 ≡ w
  unfolding jwt_auth_guard validate
  jwt_auth_guard-same = ground arith

  pub admitted-same : (admitted svc signing caller w).1 ≡ w
  unfolding admitted mfa_verified_guard
  admitted-same = ground (arith, jwt_auth_guard-same)

  pub admitted_admin-same : (admitted_admin svc signing caller w).1 ≡ w
  unfolding admitted_admin roles_guard
  admitted_admin-same = ground (arith, admitted-same)
