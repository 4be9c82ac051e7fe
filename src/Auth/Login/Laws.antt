-- ===== src/Auth/Login/Laws.antt =====
-- A session is opened only by the passwords of both steps.
use online_banking.Base.{
  ℕ, ◌+◌, ◌≡◌, ◌⊎◌, ◌∙◌, refl, ap, true, false, none, some, inl, inr, ltb, arith, ok, err,
  unauthorized, [], ◌∷◌, ◌++◌, Memᴰ, Option-cases, Bool-cases, if◌then◌else◌, Option,
}
use online_banking.Base.Text.{Text, text_eq, text_eq→eq, text_eq_refl}
use online_banking.Schema.{User, Session}
use online_banking.Prisma.{Created-cases}
use online_banking.Redis.{mfa, password, stored_otp}
use online_banking.Services.{Services, World}
use online_banking.Payments.Outcome.{is_ok}
use online_banking.Auth.Types.{
  JwtAccessPayload, LoginDto, RequestMeta, Signing, LoginResponse, MfaResponse, AuthDraw,
}
use online_banking.Auth.Login.{
  normalize_email, with_email, has_user_id, new_session, pre_mfa_token, access_token, login,
  open_session, verify_mfa,
}

-- A user who may sign in with an address and a password.
pub record IsKnown (signing : Signing) (w : World) (dto : LoginDto) : Type 0 where
  pub user : User
  pub listed : Memᴰ user w.db.users
  pub address : with_email (normalize_email dto.email) user ≡ true
  pub active : user.is_active ≡ true
  pub right : signing.compare dto.password user.password_hash ≡ true

-- What the first step leaves: a password in the cache, and a token of a payload without MFA.
pub record IsChallenged (svc : Services) (signing : Signing) (dto : LoginDto) (d : AuthDraw)
    (w w' : World) (r : LoginResponse) : Type 0 where
  pub known : IsKnown signing w dto
  pub db : w'.db ≡ w.db
  pub token : r.access_token ≡ pre_mfa_token svc signing known.user d
  pub cache : w'.cache ≡ svc.redis.set_ex d.now 300 (mfa known.user.id) (password d.otp) w.cache
  pub waiting :
      (now : ℕ)
      → svc.redis.get now (mfa known.user.id) w'.cache
        ≡ (if ltb now (d.now + 300000) then some (password d.otp) else none)

-- What the second step leaves: a session of an active user, whose id the token has.
pub record IsSignedIn (svc : Services) (signing : Signing) (payload : JwtAccessPayload) (otp : Text)
    (meta : Option RequestMeta) (d : AuthDraw) (w w' : World) (r : MfaResponse) : Type 0 where
  pub user : User
  pub listed : Memᴰ user w.db.users
  pub named : has_user_id payload.sub user ≡ true
  pub active : user.is_active ≡ true
  pub first_step : payload.mfa_verified ≡ false
  pub sent : stored_otp (svc.redis.get d.now (mfa payload.sub) w.cache) ≡ some otp
  pub sessions : w'.db.sessions ≡ w.db.sessions ++ new_session svc signing user meta d ∷ []
  pub users : w'.db.users ≡ w.db.users
  pub token : r.access_token ≡ access_token svc signing user d
  pub used : (now : ℕ) → svc.redis.get now (mfa payload.sub) w'.cache ≡ none

module _ (svc : Services) (signing : Signing) (d : AuthDraw) (w : World) where
  -- The first step of a sign-in: either an active user with the address has the password, and then a
  -- one-time password waits for 300 seconds and the token's payload is without MFA; or the answer is
  -- the same exception, whether the address, the user's state or the password is at fault, and
  -- nothing changes.
  pub login_lem :
      (dto : LoginDto)
      → ((r : LoginResponse) × (w' : World) × (login svc signing dto d w ≡ (ok r, w'))
          × IsChallenged svc signing dto d w w' r)
        ⊎ (login svc signing dto d w ≡ (err (unauthorized "Invalid credentials"), w))
  unfolding login
  login_lem dto =
      elim (Option-cases
        (svc.prisma.find User (with_email (normalize_email dto.email)) w.db.users)) [
          | inl unknown ↦ inr (ground arith)
          | inr (user, found) ↦ elim (Bool-cases user.is_active) [
            | inr inactive ↦ inr (ground arith)
            | inl active ↦ elim (Bool-cases (signing.compare dto.password user.password_hash)) [
              | inr wrong ↦ inr (ground arith)
              | inl right ↦ inl (
                record {
                  access_token = pre_mfa_token svc signing user d;
                  mfa_required = true;
                  expires_in_seconds = 300;
                },
                record w {
                  cache = svc.redis.set_ex d.now 300 (mfa user.id) (password d.otp) w.cache;
                },
                ground arith,
                record {
                  known = record {
                    user = user;
                    listed = svc.prisma.find_member User _ _ _ found;
                    address = svc.prisma.find_holds User _ _ _ found;
                    active = active;
                    right = right;
                  };
                  db = refl;
                  token = refl;
                  cache = refl;
                  waiting = λ now.
                      svc.redis.get_set_ex now d.now 300 (mfa user.id) (password d.otp) w.cache;
                },
              )
            ]
          ]
        ]

  -- The second step of a sign-in gives a token only to a payload of the first step, for the password
  -- that waits for its user, who is active; then a session of seven days is there whose id the token
  -- has, and the password is gone.
  pub verify_mfa-IsSignedIn :
      (payload : JwtAccessPayload) (otp : Text) (meta : Option RequestMeta) (w' : World)
      (r : MfaResponse)
      → verify_mfa svc signing payload otp meta d w ≡ (ok r, w')
      → IsSignedIn svc signing payload otp meta d w w' r
  unfolding verify_mfa open_session
  verify_mfa-IsSignedIn payload otp meta w' r h = elim (Bool-cases payload.mfa_verified) [
    | inl already ↦ absurd (ground arith)
    | inr first_step ↦
        elim (Option-cases (stored_otp (svc.redis.get d.now (mfa payload.sub) w.cache))) [
          | inl expired ↦ absurd (ground arith)
          | inr (stored, there) ↦ elim (Bool-cases (text_eq stored otp)) [
            | inr wrong ↦ absurd (ground arith)
            | inl right ↦
                elim (Option-cases (svc.prisma.find User (has_user_id payload.sub) w.db.users)) [
                  | inl missing ↦ absurd (ground arith)
                  | inr (user, found) ↦
                      elim (Created-cases (
                        svc.prisma.create Session (new_session svc signing user meta d)
                          w.db.sessions)) [
                            | inr (t, e) ↦ absurd (ground arith)
                            | inl (t, e) ↦ record {
                              user = user;
                              listed = svc.prisma.find_member User _ _ _ found;
                              named = svc.prisma.find_holds User _ _ _ found;
                              active = ground arith;
                              first_step = first_step;
                              sent = there ∙ ap (λ x. some x) (text_eq→eq stored otp right);
                              sessions = ground (arith, svc.prisma.create_appends Session _ _ _ e);
                              users = ground arith;
                              token = ground arith;
                              used = λ now.
                                  ground (arith, svc.redis.get_del now (mfa payload.sub) w.cache);
                            }
                          ]
                ]
          ]
        ]
  ]

  open_session-keeps_cache :
      (user_id : ℕ) (meta : Option RequestMeta) (w : World)
      → (open_session svc signing user_id meta d w).1.cache ≡ w.cache
  unfolding open_session
  open_session-keeps_cache user_id meta w = ground arith

  gone_after :
      (payload : JwtAccessPayload) (otp : Text) (meta : Option RequestMeta)
      → payload.mfa_verified ≡ false
      → stored_otp (svc.redis.get d.now (mfa payload.sub) w.cache) ≡ some otp
      → (now : ℕ)
      → svc.redis.get now (mfa payload.sub) (verify_mfa svc signing payload otp meta d w).1.cache
        ≡ none
  unfolding verify_mfa
  gone_after payload otp meta first_step there now =
      let w1 : World = record w { cache = svc.redis.del (mfa payload.sub) w.cache } in
      let run : verify_mfa svc signing payload otp meta d w
          ≡ open_session svc signing payload.sub meta d w1 =
        ground (arith, text_eq_refl otp) in
      rw run (
        rw (open_session-keeps_cache payload.sub meta w1)
          (svc.redis.get_del now (mfa payload.sub) w.cache))

  verify_mfa-refuses :
      (payload : JwtAccessPayload) (otp : Text) (meta : Option RequestMeta) (d' : AuthDraw)
      (w' : World)
      → stored_otp (svc.redis.get d'.now (mfa payload.sub) w'.cache) ≡ none
      → is_ok (verify_mfa svc signing payload otp meta d' w').0 ≡ false
  unfolding verify_mfa
  verify_mfa-refuses payload otp meta d' w' missing = ground arith

  -- The one-time password of a sign-in serves once: after a second step that gave the right password,
  -- whatever its answer, no second step of the user succeeds until another password is sent.
  pub verify_mfa-once :
      (payload later : JwtAccessPayload) (otp again : Text) (meta meta' : Option RequestMeta)
      (d' : AuthDraw)
      → payload.mfa_verified ≡ false
      → stored_otp (svc.redis.get d.now (mfa payload.sub) w.cache) ≡ some otp
      → later.sub ≡ payload.sub
      → is_ok
          (verify_mfa svc signing later again meta' d'
            (verify_mfa svc signing payload otp meta d w).1).0
        ≡ false
  verify_mfa-once payload later otp again meta meta' d' first_step there same =
      verify_mfa-refuses later again meta' d' _
        (rw (same, gone_after payload otp meta first_step there d'.now) refl)
