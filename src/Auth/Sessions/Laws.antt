-- ===== src/Auth/Sessions/Laws.antt =====
-- What the revocation of a session does to the sessions' rows.
use online_banking.Base.{
  ℕ, ◌≡◌, refl, true, inl, inr, List, [], ◌∷◌, arith, ok, patch, All, Option, Option-cases,
  Bool-cases,
}
use online_banking.Schema.{Session}
use online_banking.Services.{Services, World}
use online_banking.Auth.Types.{RequestMeta}
use online_banking.Auth.Sessions.{
  SessionView, is_revoked, has_session_id, own_session, revoked_session, revoke_session,
}

abbrev pub IsRevoked : ℕ → Session → Type 0
IsRevoked id s = has_session_id id s ≡ true → is_revoked s.revoked_at ≡ true

All-IsRevoked :
    (id at : ℕ) (t : List Session)
    → All (IsRevoked id) (patch (has_session_id id) (revoked_session at) t)
All-IsRevoked id at [] = tt
All-IsRevoked id at (s ∷ t) = elim (Bool-cases (has_session_id id s)) [
  | inl hit ↦ rw hit ((λ e. refl), All-IsRevoked id at t)
  | inr miss ↦ rw miss ((λ e. absurd (ground arith)), All-IsRevoked id at t)
]

-- After a revocation that returns, every row with the session's id is revoked.
pub revoke_session-IsRevoked :
    (svc : Services) (user_id session_id : ℕ) (meta : Option RequestMeta) (now : ℕ) (w w' : World)
    (v : SessionView)
    → revoke_session svc user_id session_id meta now w ≡ (ok v, w')
    → All (IsRevoked session_id) w'.db.sessions
unfolding revoke_session
revoke_session-IsRevoked svc user_id session_id meta now w w' v h =
    elim (Option-cases (svc.prisma.find Session (own_session session_id user_id) w.db.sessions)) [
      | inl missing ↦ absurd (ground arith)
      | inr (s, found) ↦
          let own = svc.prisma.find_holds Session _ _ _ found in
          let same : s.id ≡ session_id = ground arith in
          elim (Option-cases s.revoked_at) [
            | inl fresh ↦
                let e : w'.db.sessions
                    ≡ patch (has_session_id session_id) (revoked_session now) w.db.sessions =
                  grind (arith, svc.prisma.update_patches) in
                rw e (All-IsRevoked session_id now w.db.sessions)
            | inr (at, before) ↦
                let e : w'.db.sessions
                    ≡ patch (has_session_id session_id) (revoked_session at) w.db.sessions =
                  grind (arith, svc.prisma.update_patches) in
                rw e (All-IsRevoked session_id at w.db.sessions)
          ]
    ]
