-- ===== src/Auth/Guards/Laws.antt =====
-- Which tokens the guards admit, and for how long.
use online_banking.Base.{
  ℕ, ◌+◌, ◌≡◌, ◌≤◌, refl, Bool, true, some, inl, inr, List, [], ◌∷◌, map, arith, ok, err,
  unauthorized, ltb, leb, count, count-append, All, All-Memᴰ, All-of_members, Memᴰ, Option,
  Option-cases, ◌==◌,
}
use online_banking.Base.Text.{Text}
use online_banking.Schema.{User, Session}
use online_banking.Prisma.Finds.{find_only, find_last}
use online_banking.Services.{Services, World}
use online_banking.Payments.Outcome.{is_ok}
use online_banking.Auth.Types.{JwtAccessPayload, RequestMeta, Signing, MfaResponse, AuthDraw}
use online_banking.Auth.Login.{session_payload, session_ttl_ms, or_default, new_session, verify_mfa}
use online_banking.Auth.Login.Laws.{verify_mfa-IsSignedIn}
use online_banking.Auth.Sessions.{
  SessionView, has_session_id, view_of, get_sessions, revoke_session,
}
use online_banking.Auth.Sessions.Laws.{IsRevoked, revoke_session-IsRevoked}
use online_banking.Auth.Guards.{validate, jwt_auth_guard}

module _ (svc : Services) where
  -- Once a session has been revoked, no token with its id is admitted, at any time.
  pub validate-revoke_session :
      (user_id session_id : ℕ) (meta : Option RequestMeta) (at now : ℕ) (w w' : World)
      (v : SessionView) (payload : JwtAccessPayload)
      → revoke_session svc user_id session_id meta at w ≡ (ok v, w')
      → payload.mfa_verified ≡ true
      → payload.session_id ≡ some session_id
      → validate svc payload now w' ≡ (err (unauthorized "Session is no longer active"), w')
  unfolding validate
  validate-revoke_session user_id session_id meta at now w w' v payload h verified in_session =
      let revoked = revoke_session-IsRevoked svc user_id session_id meta at w w' v h in
      elim (Option-cases (svc.prisma.find Session (has_session_id session_id) w'.db.sessions)) [
        | inl missing ↦ ground arith
        | inr (s, found) ↦
            let gone =
              All-Memᴰ (IsRevoked session_id) w'.db.sessions revoked
                (svc.prisma.find_member Session _ _ _ found)
                (svc.prisma.find_holds Session _ _ _ found) in
            ground (arith, gone)
      ]

  abbrev pub token_of : ℕ → Text → ℕ → JwtAccessPayload
  token_of user_id email session_id = record {
    sub = user_id;
    email = email;
    mfa_verified = true;
    session_id = some session_id;
  }

  module _ (user_id : ℕ) (email : Text) (now : ℕ) (current : Option ℕ) (w : World) where
    abbrev pub Agrees : SessionView → Type 0
    Agrees v = is_ok (validate svc (token_of user_id email v.id) now w).0 ≡ v.is_active

    row-Agrees :
        (s : Session)
        → svc.prisma.find Session (has_session_id s.id) w.db.sessions ≡ some s
        → (s.user_id == user_id) ≡ true
        → Agrees (view_of current now s)
    unfolding validate
    row-Agrees s found own = ground arith

    rows-Agrees :
        (rows all : List Session)
        → ((id : ℕ) → count (has_session_id id) all ≤ 1)
        → All (λ s. Memᴰ s all) rows
        → All (λ s. (s.user_id == user_id) ≡ true) rows
        → w.db.sessions ≡ all
        → All Agrees (map (view_of current now) rows)
    rows-Agrees [] all unique among own same = tt
    rows-Agrees (s ∷ rows) all unique among own same = (
      row-Agrees s
          (rw same
            (find_only svc.prisma (has_session_id s.id) all s among.0 (ground arith) (unique s.id)))
          own.0,
      rows-Agrees rows all unique among.1 own.1 same,
    )

    -- Where no two sessions have one id, a user's list of sessions shows as active exactly those whose
    -- tokens are admitted at the time.
    pub validate-get_sessions :
        ((id : ℕ) → count (has_session_id id) w.db.sessions ≤ 1)
        → (views : List SessionView) → get_sessions svc user_id current now w ≡ (ok views, w)
        → All Agrees views
    unfolding get_sessions
    validate-get_sessions unique views h =
        let t = w.db.sessions in
        let own : Session → Bool = λ s. s.user_id == user_id in
        let latest : Session → Session → Bool = λ a b. leb b.created_at a.created_at in
        let e : map (view_of current now) (svc.prisma.find_many Session own latest t) ≡ views =
          cc in
        rw (← e) (
          rows-Agrees (svc.prisma.find_many Session own latest t) t unique
            (svc.prisma.find_many_among Session (λ s. Memᴰ s t) own latest t
              (All-of_members (λ s. Memᴰ s t) t (λ a m. m)))
            (svc.prisma.find_many_holds Session own latest t) refl)

  -- In every world in which the session that a sign-in has opened under a new id stands as it was
  -- opened, and alone has its id, the token that the sign-in has given is admitted, and its payload is
  -- that of the user's session, before its own lifetime or the session's seven days have passed.
  pub jwt_auth_guard-verify_mfa :
      (signing : Signing) (payload : JwtAccessPayload) (otp : Text) (meta : Option RequestMeta)
      (d : AuthDraw) (now : ℕ) (w w' v : World) (r : MfaResponse) (s : Session)
      → verify_mfa svc signing payload otp meta d w ≡ (ok r, w')
      → count (has_session_id d.session_id) w.db.sessions ≡ 0
      → Memᴰ s w'.db.sessions
      → has_session_id d.session_id s ≡ true
      → Memᴰ s v.db.sessions
      → count (has_session_id d.session_id) v.db.sessions ≤ 1
      → ltb now (d.now + signing.lifetime (or_default signing.access_expires_in "15m")) ≡ true
      → ltb now (d.now + session_ttl_ms) ≡ true
      → (user : User) × (user.id ≡ payload.sub)
        × (jwt_auth_guard svc signing (some r.access_token) now v
            ≡ (ok (session_payload user d.session_id), v))
  unfolding jwt_auth_guard validate
  jwt_auth_guard-verify_mfa signing payload otp meta d now w w' v r s h fresh opened id stands one
        in_time in_session =
      let signed = verify_mfa-IsSignedIn svc signing d w payload otp meta w' r h in
      let decoded =
        signing.decode_sign d.now now (session_payload signed.user d.session_id)
          (or_default signing.access_expires_in "15m") in_time in
      let p : Session → Bool = has_session_id d.session_id in
      let row = new_session svc signing signed.user meta d in
      let last = find_last svc.prisma p w.db.sessions row fresh (ground arith) in
      let one_then : count p w'.db.sessions ≤ 1 =
        ground (arith, signed.sessions, count-append p w.db.sessions (row ∷ [])) in
      let first = find_only svc.prisma p w'.db.sessions s opened id one_then in
      let same : row ≡ s = grind (arith, signed.sessions) in
      let found : svc.prisma.find Session p v.db.sessions ≡ some row =
        rw same (find_only svc.prisma p v.db.sessions s stands id one) in
      (signed.user, ground (arith, signed.named), ground (arith, signed.token, decoded, found))
