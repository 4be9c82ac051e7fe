-- ===== src/Http.antt =====
-- The controllers of backend/src: guards, then the checks of the body, then the service's method.
-- Throttling and the parsing of a request are the libraries'.
pub mod Bodies
pub mod Payments
pub mod Users
pub mod Reads
pub mod Access
pub mod Admins
pub mod Effects
pub mod Safety
use online_banking.Base.{
  ℕ, not, Option, none, some, List, [], ◌∷◌, bad_request, forbidden, pure, throw_if, ◌>>=◌, ◌>>◌,
  Exception, step_up_required, Result, ok, err, Bool, String,
}
use online_banking.Base.Text.{Text}
use online_banking.Services.{Services, Service, World}
use online_banking.Payments.Types.{ServiceResult}
use online_banking.Auth.Types.{JwtAccessPayload, Signing}
use online_banking.Auth.Guards.{jwt_auth_guard, roles_guard, mfa_verified_guard}

-- A bearer token, if there is one, and the time of the request.
pub record Caller : Type 0 where
  pub token : Option Text
  pub now : ℕ

-- a method behind its guards, which give it the user
unfoldable pub guarded : {A B : Type 0} → Service A → (A → Service B) → Service B
guarded guard method = guard >>= method

-- a method behind the `ValidationPipe`, which refuses a body
unfoldable pub checked : {B : Type 0} → Bool → Service B → Service B
checked valid method = throw_if (not valid) (bad_request "Bad Request") >> method

module _ (svc : Services) (signing : Signing) where
  -- `@UseGuards(JwtAuthGuard, MfaVerifiedGuard)`
  unfoldable pub admitted : Caller → Service JwtAccessPayload
  admitted caller = do
    user ← jwt_auth_guard svc signing caller.token caller.now
    passed ← mfa_verified_guard (some user)
    throw_if (not passed) (forbidden "Forbidden resource")
    pure user

  -- `@UseGuards(JwtAuthGuard, MfaVerifiedGuard, RolesGuard) @Roles('ADMIN')`
  unfoldable pub admitted_admin : Caller → Service JwtAccessPayload
  admitted_admin caller = do
    user ← admitted caller
    passed ← roles_guard svc ("ADMIN" ∷ []) (some user)
    throw_if (not passed) (forbidden "Forbidden resource")
    pure user

-- An answer of a payment's method: its status and body, the one of `StepUpRequiredFilter`, or an
-- exception for the framework's own filter.
pub data Reply (B : Type 0) : Type 0 where
  answered : (status : ℕ) → B → Reply B
  demanded : (status challenge_id expires_in_seconds : ℕ) → Reply B
  thrown : Exception → Reply B

-- `StepUpRequiredFilter.catch`
unfoldable pub filter_step_up : {B : Type 0} → Exception → Reply B
filter_step_up (step_up_required id seconds) = demanded 403 id seconds
filter_step_up e = thrown e

-- `res.status(result.httpStatus); return result.body;`
unfoldable pub reply_of : {B : Type 0} → Result (ServiceResult B) → Reply B
reply_of (ok r) = answered r.http_status r.body
reply_of (err e) = filter_step_up e
