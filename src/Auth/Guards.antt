-- ===== src/Auth/Guards.antt =====
-- Who may call an endpoint: `validate` of backend/src/auth/strategies/jwt.strategy.ts and the guards of
-- backend/src/auth/guards.
pub mod Laws
use online_banking.Base.{
  ℕ, Bool, true, false, not, ◌||◌, ◌&&◌, Option, none, some, List, [], ◌∷◌, any, forbidden,
  unauthorized, ok, err, Exec, pure, throw, gets, throw_if, leb, ◌>>=◌, ◌>>◌, ◌==◌, String, Result,
  if◌then◌else◌,
}
use online_banking.Base.Text.{Text}
use text.Mathlib.Text.{◌==◌ as str_eq}
use online_banking.Schema.{User, Session}
use online_banking.Services.{Services, Service}
use online_banking.Auth.Types.{JwtAccessPayload, Signing}
use online_banking.Auth.Login.{has_user_id}
use online_banking.Auth.Sessions.{has_session_id, is_revoked}

module _ (svc : Services) where
  -- the test of a session's row
  abbrev pub is_stale : ℕ → ℕ → Option Session → Bool
  is_stale user_id now none = true
  is_stale user_id now (some s) =
      not (s.user_id == user_id) || (is_revoked s.revoked_at || leb s.expires_at now)

  abbrev session_is_stale : JwtAccessPayload → ℕ → Option ℕ → Service Bool
  session_is_stale payload now none = pure false
  session_is_stale payload now (some id) =
      gets
        (λ w. is_stale payload.sub now (svc.prisma.find Session (has_session_id id) w.db.sessions))

  unfoldable pub validate : JwtAccessPayload → ℕ → Service JwtAccessPayload
  validate payload now = do
    stale ←
        if payload.mfa_verified then session_is_stale payload now payload.session_id else pure false
    throw_if stale (unauthorized "Session is no longer active")
    pure payload

  -- `JwtAuthGuard`: the passport library checks the token, then `validate` its payload
  unfoldable pub jwt_auth_guard : Signing → Option Text → ℕ → Service JwtAccessPayload
  jwt_auth_guard signing none now = throw (unauthorized "Unauthorized")
  jwt_auth_guard signing (some token) now = elim (signing.decode now token) [
    | none ↦ throw (unauthorized "Unauthorized")
    | some payload ↦ validate payload now
  ]

  -- `RolesGuard`: one of the required roles, read from the user's row
  unfoldable pub roles_guard : List String → Option JwtAccessPayload → Service Bool
  roles_guard [] user w = (ok true, w)
  roles_guard (role ∷ required) none w = (ok false, w)
  roles_guard (role ∷ required) (some payload) w =
      elim (svc.prisma.find User (has_user_id payload.sub) w.db.users) [
        | none ↦ (ok false, w)
        | some u ↦ (
          ok (u.is_active && any (λ r. any (λ name. str_eq name r) u.roles) (role ∷ required)),
          w,
        )
      ]

-- `MfaVerifiedGuard`
unfoldable pub mfa_verified_guard : {S : Type 0} → Option JwtAccessPayload → Exec S Bool
mfa_verified_guard none = throw (forbidden "Authentication required")
mfa_verified_guard (some payload) = do
  throw_if (not payload.mfa_verified) (forbidden "MFA verification is required before this action.")
  pure true
