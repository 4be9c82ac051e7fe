-- ===== src/Tests/Sessions.antt =====
-- Sessions and registrations on a small bank: runs, and the theorems applied to them.
use online_banking.Base.{
  ◌≡◌, refl, true, false, none, some, List, [], ◌∷◌, arith, ok, err, unauthorized, inl, inr, All,
  Bool-cases, Memᴰ,
}
use online_banking.Base.Text.{codes, text_eq, text_eq→eq, trim, to_lower_case}
use online_banking.Schema.{User, Session}
use online_banking.Services.{World}
use online_banking.Ledger.{IsSound}
use online_banking.Auth.Types.{RegisterDto}
use online_banking.Auth.Login.{login, normalize_email, session_payload, verify_mfa, open_session}
use online_banking.Auth.Register.{register}
use online_banking.Auth.Register.Laws.{HasUniqueEmails, register-HasUniqueEmails}
use online_banking.Auth.Sessions.{SessionView, view_of, get_sessions, revoke_session}
use online_banking.Auth.Guards.{validate, jwt_auth_guard}
use online_banking.Auth.Guards.Laws.{
  Agrees, validate-revoke_session, validate-get_sessions, jwt_auth_guard-verify_mfa,
}
use online_banking.Fixtures.{services}
use online_banking.Tests.Money.{opening_balance, bank-IsSound}
use online_banking.Tests.Access.{
  plain_signing, user, people, auth_draw, after_login, first_payload, signed_in, ann_token, sign_in,
}

abbrev cy : RegisterDto
cy = record {
  email = codes "cy@x";
  password = codes "other";
  first_name = codes "Cy";
  last_name = codes "Doe";
}

people-HasUniqueEmails : HasUniqueEmails people.db.users
people-HasUniqueEmails email = elim (Bool-cases (text_eq (codes "ann@x") email)) [
  | inl a ↦ rw (← text_eq→eq (codes "ann@x") email a) (ground arith)
  | inr other ↦ elim (Bool-cases (text_eq (codes "bob@x") email)) [
    | inl b ↦ rw (← text_eq→eq (codes "bob@x") email b) (ground arith)
    | inr third ↦ ground arith
  ]
]

register-HasUniqueEmails_example :
    HasUniqueEmails (register services plain_signing cy (auth_draw 60000) people).1.db.users
register-HasUniqueEmails_example =
    register-HasUniqueEmails services plain_signing cy (auth_draw 60000) people
      people-HasUniqueEmails

pub people-IsSound : IsSound opening_balance people.db
people-IsSound = record {
  keyed = bank-IsSound.keyed;
  not_overdrawn = bank-IsSound.not_overdrawn;
  in_sync = bank-IsSound.in_sync;
  balanced = bank-IsSound.balanced;
}

abbrev ann_session : Session
ann_session = record {
  id = 801;
  user_id = 1;
  refresh_token_hash = "b";
  user_agent = none;
  ip_address = none;
  created_at = 70000;
  expires_at = 604870000;
  revoked_at = none;
}

-- Ann's session and Bob's
abbrev two_sessions : World
two_sessions = record people {
  db = record people.db {
    sessions = ann_session ∷ record ann_session { id = 802; user_id = 2 } ∷ [];
  };
}

abbrev ended : World
ended = (revoke_session services 1 801 none 80000 two_sessions).1

abbrev ended_view : SessionView
ended_view = record (view_of none 80000 ann_session) { revoked_at = some 80000; is_active = false }

ending : revoke_session services 1 801 none 80000 two_sessions ≡ (ok ended_view, ended)
unfolding revoke_session
ending = refl

validate-revoke_session_example :
    validate services (session_payload (user 1 (codes "ann@x") true) 801) 90000 ended
    ≡ (err (unauthorized "Session is no longer active"), ended)
validate-revoke_session_example =
    validate-revoke_session services 1 801 none 80000 90000 two_sessions ended ended_view
      (session_payload (user 1 (codes "ann@x") true) 801) ending refl refl

abbrev ann_sessions : List SessionView
ann_sessions = view_of (some 801) 90000 ann_session ∷ []

listing : get_sessions services 1 (some 801) 90000 two_sessions ≡ (ok ann_sessions, two_sessions)
unfolding get_sessions
listing = refl

validate-get_sessions_example :
    All (Agrees services 1 (codes "ann@x") 90000 (some 801) two_sessions) ann_sessions
validate-get_sessions_example =
    validate-get_sessions services 1 (codes "ann@x") 90000 (some 801) two_sessions
      (λ id. ground arith) ann_sessions listing

-- Bob has signed in since.
abbrev later : World
later = record signed_in {
  db = record signed_in.db {
    sessions = record ann_session { id = 802; user_id = 2 } ∷ signed_in.db.sessions;
  };
}

jwt_auth_guard-verify_mfa_example :
    (u : User) × (u.id ≡ 1)
    × (jwt_auth_guard services plain_signing (some ann_token.access_token) 80000 later
        ≡ (ok (session_payload u 801), later))
unfolding login normalize_email trim to_lower_case verify_mfa open_session
jwt_auth_guard-verify_mfa_example =
    jwt_auth_guard-verify_mfa services plain_signing first_payload (codes "123456") none
      (auth_draw 70000) 80000 after_login signed_in later ann_token ann_session sign_in refl
      (Memᴰ.head refl) refl (Memᴰ.tail (Memᴰ.head refl)) (ground arith) refl refl
