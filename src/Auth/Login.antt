-- ===== src/Auth/Login.antt =====
-- `login` and `verifyMfa` of backend/src/auth/auth.service.ts: sign-in in two steps.
pub mod Laws
use online_banking.Base.{
  ℕ, ◌+◌, ◌*◌, Bool, true, false, not, Option, none, some, unauthorized, bad_request, ok, err, pure,
  gets, modify, throw_if, or_throw, ◌>>=◌, ◌>>◌, ◌==◌, String,
}
use online_banking.Base.Text.{Text, text_eq, trim, to_lower_case}
use online_banking.Schema.{Db, User, Session}
use online_banking.Prisma.Statements.{Table}
use online_banking.Redis.{mfa, password, stored_otp}
use online_banking.Services.{Services, Service}
use online_banking.Services.Statements.{find_or_throw, insert_row}
use online_banking.Auth.Types.{
  JwtAccessPayload, LoginDto, RequestMeta, Signing, LoginResponse, MfaResponse, AuthDraw,
}

-- `MFA_OTP_TTL_SECONDS`
abbrev pub mfa_otp_ttl_seconds : ℕ
mfa_otp_ttl_seconds = 300

-- seven days
abbrev pub session_ttl_ms : ℕ
session_ttl_ms = 7 * 24 * 60 * 60 * 1000

abbrev pub user_table : Table User
user_table = record { rows = λ db. db.users; replaced = λ db t. record db { users = t } }

abbrev pub session_table : Table Session
session_table = record { rows = λ db. db.sessions; replaced = λ db t. record db { sessions = t } }

-- `dto.email.toLowerCase().trim()`
unfoldable pub normalize_email : Text → Text
normalize_email email = trim (to_lower_case email)

abbrev pub with_email : Text → User → Bool
with_email email u = text_eq u.email email

abbrev pub has_user_id : ℕ → User → Bool
has_user_id id u = u.id == id

-- `a ?? b` on a text of the configuration
abbrev pub or_default : Option String → String → String
or_default none s = s
or_default (some t) s = t

-- `meta?.userAgent` and `meta?.ipAddress`
abbrev pub agent_of : Option RequestMeta → Option String
agent_of none = none
agent_of (some m) = m.user_agent

abbrev pub address_of : Option RequestMeta → Option String
address_of none = none
address_of (some m) = m.ip_address

abbrev pub pre_mfa_payload : User → JwtAccessPayload
pre_mfa_payload u = record { sub = u.id; email = u.email; mfa_verified = false; session_id = none }

abbrev pub session_payload : User → ℕ → JwtAccessPayload
session_payload u id = record {
  sub = u.id;
  email = u.email;
  mfa_verified = true;
  session_id = some id;
}

module _ (svc : Services) (signing : Signing) where
  abbrev pub new_session : User → Option RequestMeta → AuthDraw → Session
  new_session user meta d = record {
    id = d.session_id;
    user_id = user.id;
    refresh_token_hash = signing.hash d.salt d.refresh_secret;
    user_agent = agent_of meta;
    ip_address = address_of meta;
    created_at = d.now;
    expires_at = d.now + session_ttl_ms;
    revoked_at = none;
  }

  -- the token of the first step, which has a payload without MFA
  abbrev pub pre_mfa_token : User → AuthDraw → Text
  pre_mfa_token user d =
      signing.sign d.now (pre_mfa_payload user) (or_default signing.pre_mfa_expires_in "10m")

  abbrev pub access_token : User → AuthDraw → Text
  access_token user d =
      signing.sign d.now (session_payload user d.session_id)
        (or_default signing.access_expires_in "15m")

  unfoldable pub login : LoginDto → AuthDraw → Service LoginResponse
  login dto d = do
    user ←
        find_or_throw svc user_table (with_email (normalize_email dto.email))
          (unauthorized "Invalid credentials")
    throw_if (not user.is_active) (unauthorized "Invalid credentials")
    throw_if (not (signing.compare dto.password user.password_hash))
        (unauthorized "Invalid credentials")
    modify (λ w. record w {
      cache = svc.redis.set_ex d.now mfa_otp_ttl_seconds (mfa user.id) (password d.otp) w.cache;
    })
    pure (record {
      access_token = pre_mfa_token user d;
      mfa_required = true;
      expires_in_seconds = mfa_otp_ttl_seconds;
    })

  -- from the user's row to the answer, once the password has been used
  unfoldable pub open_session : ℕ → Option RequestMeta → AuthDraw → Service MfaResponse
  open_session user_id meta d = do
    user ← find_or_throw svc user_table (has_user_id user_id) (unauthorized "User no longer valid")
    throw_if (not user.is_active) (unauthorized "User no longer valid")
    insert_row svc session_table (new_session user meta d)
    pure (record { access_token = access_token user d; session_confirmed = true })

  unfoldable pub verify_mfa :
      JwtAccessPayload → Text → Option RequestMeta → AuthDraw → Service MfaResponse
  verify_mfa payload otp meta d = do
    throw_if payload.mfa_verified (bad_request "MFA already completed for this token")
    value ← gets (λ w. svc.redis.get d.now (mfa payload.sub) w.cache)
    stored ← or_throw (stored_otp value) (unauthorized "Invalid or expired OTP")
    throw_if (not (text_eq stored otp)) (unauthorized "Invalid or expired OTP")
    modify (λ w. record w { cache = svc.redis.del (mfa payload.sub) w.cache })
    open_session payload.sub meta d
