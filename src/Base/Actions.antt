-- ===== src/Base/Actions.antt =====
-- Asynchronous methods that read and write a state and may throw: what was written before a throw
-- stays written, so the state comes back beside the exception too. Only the runner of a database
-- transaction takes writes back.
use mathlib.Core.Path.{◌≡◌, refl}
use mathlib.Core.Logic.{◌⊎◌, inl, inr}
use mathlib.Core.Bool.{Bool, true, false}
use mathlib.Core.Option.{Option, none, some}
use Prim.Native.Nat.{ℕ}
use Prim.Native.String.{String}

-- The exceptions of the services: those of @nestjs/common with their message, and those of the
-- database client. `step_up_required` has the challenge's id and its lifetime in seconds.
pub data Exception : Type 0 where
  bad_request conflict forbidden not_found unauthorized : String → Exception
  step_up_required : ℕ → ℕ → Exception
  plain_error : String → Exception
  unique_violation : Exception
  serialization_failure : Exception
  record_not_found : Exception
  database_error : ℕ → Exception

pub data Result (A : Type 0) : Type 0 where
  ok : A → Result A
  err : Exception → Result A

abbrev pub Exec : Type 0 → Type 0 → Type 0
Exec S A = S → Result A × S

module _ {S A : Type 0} where
  abbrev pub pure : A → Exec S A
  pure a s = (ok a, s)

  abbrev pub throw : Exception → Exec S A
  throw e s = (err e, s)

  abbrev pub gets : (S → A) → Exec S A
  gets f s = (ok (f s), s)

  abbrev pub or_throw : Option A → Exception → Exec S A
  or_throw none e = throw e
  or_throw (some a) e = pure a

infixl 5 ◌>>=◌ ◌>>◌
abbrev pub ◌>>=◌ : {S A B : Type 0} → Exec S A → (A → Exec S B) → Exec S B
◌>>=◌ m f s = let (r, s') = m s in elim r [ ok a ↦ f a s' | err e ↦ (err e, s') ]

abbrev pub ◌>>◌ : {S A B : Type 0} → Exec S A → Exec S B → Exec S B
m >> k = m >>= λ _. k

abbrev pub throw_if : {S : Type 0} → Bool → Exception → Exec S (Unit {0})
throw_if true e s = (err e, s)
throw_if false e s = (ok tt, s)

abbrev pub modify : {S : Type 0} → (S → S) → Exec S (Unit {0})
modify f s = (ok tt, f s)

-- How a call has ended.
pub returns? :
    {S A : Type 0} (x : Result A × S)
    → ((a : A) × (s : S) × (x ≡ (ok a, s))) ⊎ ((e : Exception) × (s : S) × (x ≡ (err e, s)))
returns? (ok a, s) = inl (a, s, refl)
returns? (err e, s) = inr (e, s, refl)
