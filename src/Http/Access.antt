-- ===== src/Http/Access.antt =====
-- What the token of the first step of a sign-in is good for.
use online_banking.Base.{◌+◌, ◌≡◌, true, some, ok, err, forbidden, inl, inr, arith, ltb}
use online_banking.Services.{Services, World}
use online_banking.Schema.{User}
use online_banking.Auth.Types.{LoginDto, Signing, LoginResponse, AuthDraw}
use online_banking.Auth.Login.{login, pre_mfa_payload, or_default}
use online_banking.Auth.Login.Laws.{login_lem}
use online_banking.Auth.Guards.{jwt_auth_guard, validate, mfa_verified_guard}
use online_banking.Http.{Caller, admitted}

module _ (svc : Services) (signing : Signing) (dto : LoginDto) (d : AuthDraw) (w w' v : World)
    (r : LoginResponse) where
  -- The token that the first step of a sign-in has given is refused, with nothing changed, by the guards
  -- of every method but the second step's, as long as it lives; its guard admits it, as the user's
  -- payload without MFA.
  pub admitted-login :
      (caller : Caller)
      → login svc signing dto d w ≡ (ok r, w')
      → caller.token ≡ some r.access_token
      → ltb caller.now (d.now + signing.lifetime (or_default signing.pre_mfa_expires_in "10m"))
        ≡ true
      → (admitted svc signing caller v
          ≡ (err (forbidden "MFA verification is required before this action."), v))
        × (u : User) × (jwt_auth_guard svc signing caller.token caller.now v
            ≡ (ok (pre_mfa_payload u), v))
  unfolding admitted jwt_auth_guard validate mfa_verified_guard
  admitted-login caller h held in_time = elim (login_lem svc signing d w dto) [
    | inr refused ↦ absurd (ground (arith, h, refused))
    | inl (r', w1, h', c) ↦
        let u = c.known.user in
        let decoded =
          signing.decode_sign d.now caller.now (pre_mfa_payload u)
            (or_default signing.pre_mfa_expires_in "10m") in_time in
        let token : r.access_token ≡ r'.access_token = ground (arith, h, h') in
        (
          ground (arith, held, token, c.token, decoded),
          u,
          ground (arith, held, token, c.token, decoded),
        )
  ]
