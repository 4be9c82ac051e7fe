-- ===== src/Auth/Types.antt =====
-- backend/src/auth/auth.types.ts and the request and response bodies of backend/src/auth, with the
-- libraries' functions that sign-in rests on.
use online_banking.Base.{ℕ, ◌+◌, ◌≡◌, Bool, true, Option, some, ltb, String}
use online_banking.Base.Text.{Text}

pub record JwtAccessPayload : Type 0 where
  pub sub : ℕ
  pub email : Text
  pub mfa_verified : Bool
  pub session_id : Option ℕ

pub record LoginDto : Type 0 where
  pub email : Text
  pub password : Text

pub record RegisterDto : Type 0 where
  pub email : Text
  pub password : Text
  pub first_name : Text
  pub last_name : Text

-- `RequestMeta`
pub record RequestMeta : Type 0 where
  pub user_agent : Option String
  pub ip_address : Option String

-- bcrypt, which salts a hash, and the JWT library, whose tokens carry a payload for a time. `lifetime`
-- is the number of milliseconds that a text such as `15m` means.
pub record Signing : Type 0 where
  pub hash : (salt : ℕ) → Text → String
  pub compare : Text → String → Bool
  pub compare_hash : (salt : ℕ) (password : Text) → compare password (hash salt password) ≡ true
  pub sign : (now : ℕ) → JwtAccessPayload → (expires_in : String) → Text
  pub decode : (now : ℕ) → Text → Option JwtAccessPayload
  pub lifetime : String → ℕ
  pub decode_sign :
      (start now : ℕ) (p : JwtAccessPayload) (expires_in : String)
      → ltb now (start + lifetime expires_in) ≡ true
      → decode now (sign start p expires_in) ≡ some p
  -- `JWT_PRE_MFA_EXPIRES_IN` and `JWT_ACCESS_EXPIRES_IN` of the configuration
  pub pre_mfa_expires_in : Option String
  pub access_expires_in : Option String

pub record LoginResponse : Type 0 where
  pub access_token : Text
  pub mfa_required : Bool
  pub expires_in_seconds : ℕ

pub record MfaResponse : Type 0 where
  pub access_token : Text
  pub session_confirmed : Bool

-- What one request draws: the time, random values, and the ids of new rows.
pub record AuthDraw : Type 0 where
  pub now : ℕ
  pub otp : Text
  pub refresh_secret : Text
  pub salt : ℕ
  pub iban_hex : Text
  pub session_id : ℕ
  pub user_id : ℕ
  pub profile_id : ℕ
  pub account_id : ℕ
  pub notice_id : ℕ
