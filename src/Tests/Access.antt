-- ===== src/Tests/Access.antt =====
-- Signing in on a small bank: runs, and the theorems of backend/src/auth applied to them.
use online_banking.Base.{
  ℕ, zero, suc, ◌+◌, ◌≡◌, ◌⊎◌, refl, Bool, true, false, Option, none, some, [], ◌∷◌, ltb, ok, err,
  unauthorized, String, if◌then◌else◌, Bool-cases, inl, inr,
}
use text.Mathlib.Text.{◌==◌ as str_eq}
use online_banking.Base.Text.{Text, codes, text_eq, trim, to_lower_case}
use online_banking.Schema.{User}
use online_banking.Redis.{mfa, stored_otp}
use online_banking.Services.{World}
use online_banking.Payments.Outcome.{is_ok}
use online_banking.Auth.Types.{
  JwtAccessPayload, LoginDto, Signing, LoginResponse, MfaResponse, AuthDraw,
}
use online_banking.Auth.Login.{
  login, open_session, verify_mfa, normalize_email, pre_mfa_payload, pre_mfa_token, access_token,
}
use online_banking.Auth.Login.Laws.{
  IsChallenged, IsSignedIn, login_lem, verify_mfa-IsSignedIn, verify_mfa-once,
}
use online_banking.Fixtures.{services, bank}

abbrev flag_of : Bool → ℕ
flag_of true = 1
flag_of false = 0

abbrev id_of : Option ℕ → ℕ
id_of none = 0
id_of (some id) = suc id

abbrev payload_at : (email : Text) (sub flag session : ℕ) → JwtAccessPayload
payload_at email sub flag zero = record {
  sub = sub;
  email = email;
  mfa_verified = ltb 0 flag;
  session_id = none;
}
payload_at email sub flag (suc id) = record {
  sub = sub;
  email = email;
  mfa_verified = ltb 0 flag;
  session_id = some id;
}

-- a token that is read as its payload for fifteen minutes
abbrev plain_decode : ℕ → Text → Option JwtAccessPayload
plain_decode now (start ∷ sub ∷ flag ∷ session ∷ email) =
    if ltb now (start + 900000) then some (payload_at email sub flag session) else none
plain_decode now _ = none

pub payload_at-flag_of :
    (email : Text) (sub : ℕ) (verified : Bool) (session : Option ℕ)
    → payload_at email sub (flag_of verified) (id_of session)
      ≡ record { sub = sub; email = email; mfa_verified = verified; session_id = session }
payload_at-flag_of email sub true none = refl
payload_at-flag_of email sub false none = refl
payload_at-flag_of email sub true (some id) = refl
payload_at-flag_of email sub false (some id) = refl

-- a hash that tells one password from all others
abbrev plain_hash : Text → String
plain_hash p = if text_eq p (codes "secret") then "a" else "b"

pub plain_hash-str_eq : (p : Text) → str_eq (plain_hash p) (plain_hash p) ≡ true
plain_hash-str_eq p = elim (Bool-cases (text_eq p (codes "secret"))) [
  | inl right ↦ rw right refl
  | inr wrong ↦ rw wrong refl
]

abbrev pub plain_signing : Signing
plain_signing = record {
  hash = λ salt p. plain_hash p;
  compare = λ p h. str_eq (plain_hash p) h;
  compare_hash = λ salt p. plain_hash-str_eq p;
  sign =
      λ start p expires_in. start ∷ p.sub ∷ flag_of p.mfa_verified ∷ id_of p.session_id ∷ p.email;
  decode = plain_decode;
  lifetime = λ s. 900000;
  decode_sign = λ start now p expires_in in_time.
      rw in_time (rw (payload_at-flag_of p.email p.sub p.mfa_verified p.session_id) refl);
  pre_mfa_expires_in = none;
  access_expires_in = none;
}

abbrev pub user : ℕ → Text → Bool → User
user id email active = record {
  id = id;
  email = email;
  password_hash = "a";
  is_active = active;
  roles = "CLIENT" ∷ [];
}

-- Ann and Bob may sign in, and Eve may not.
abbrev pub people : World
people = record {
  db = record bank {
    users =
        user 1 (codes "ann@x") true
        ∷ user 2 (codes "bob@x") true
        ∷ user 3 (codes "eve@x") false
        ∷ [];
  };
  cache = [];
}

abbrev pub auth_draw : ℕ → AuthDraw
auth_draw now = record {
  now = now;
  otp = codes "123456";
  refresh_secret = codes "r";
  salt = 7;
  iban_hex = codes "0a";
  session_id = 801;
  user_id = 4;
  profile_id = 40;
  account_id = 401;
  notice_id = 3001;
}

abbrev pub by_ann : LoginDto
by_ann = record { email = codes " Ann@X "; password = codes "secret" }

abbrev pub after_login : World
after_login = (login services plain_signing by_ann (auth_draw 60000) people).1

login_lem_example :
    ((r : LoginResponse) × (w' : World) × (login services plain_signing by_ann
          (auth_draw 60000)
          people
        ≡ (ok r, w'))
      × IsChallenged services plain_signing by_ann (auth_draw 60000) people w' r)
    ⊎ (login services plain_signing by_ann (auth_draw 60000) people
        ≡ (err (unauthorized "Invalid credentials"), people))
login_lem_example = login_lem services plain_signing (auth_draw 60000) people by_ann

abbrev pub first_payload : JwtAccessPayload
first_payload = pre_mfa_payload (user 1 (codes "ann@x") true)

abbrev pub pre_token : Text
pre_token = pre_mfa_token services plain_signing (user 1 (codes "ann@x") true) (auth_draw 60000)

abbrev pub signed_in : World
signed_in =
    (verify_mfa services plain_signing first_payload (codes "123456") none (auth_draw 70000)
      after_login).1

abbrev pub ann_token : MfaResponse
ann_token = record {
  access_token =
      access_token services plain_signing (user 1 (codes "ann@x") true) (auth_draw 70000);
  session_confirmed = true;
}

pub sign_in :
    verify_mfa services plain_signing first_payload
      (codes "123456")
      none
      (auth_draw 70000)
      after_login
    ≡ (ok ann_token, signed_in)
unfolding login verify_mfa open_session normalize_email trim to_lower_case
sign_in = refl

verify_mfa-IsSignedIn_example :
    IsSignedIn services plain_signing first_payload
      (codes "123456")
      none
      (auth_draw 70000)
      after_login
      signed_in
      ann_token
verify_mfa-IsSignedIn_example =
    verify_mfa-IsSignedIn services plain_signing (auth_draw 70000) after_login first_payload
      (codes "123456") none signed_in ann_token sign_in

waits : stored_otp (services.redis.get 70000 (mfa 1) after_login.cache) ≡ some (codes "123456")
unfolding login normalize_email trim to_lower_case
waits = refl

verify_mfa-once_example :
    is_ok
      (verify_mfa services plain_signing first_payload
        (codes "123456")
        none
        (auth_draw 71000)
        (verify_mfa services plain_signing first_payload
          (codes "123456")
          none
          (auth_draw 70000)
          after_login).1).0
    ≡ false
verify_mfa-once_example =
    verify_mfa-once services plain_signing (auth_draw 70000) after_login first_payload first_payload
      (codes "123456") (codes "123456") none none (auth_draw 71000) refl waits refl
