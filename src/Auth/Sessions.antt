-- ===== src/Auth/Sessions.antt =====
-- `getSessions` and `revokeSession` of backend/src/auth/auth.service.ts.
pub mod Laws
use online_banking.Base.{
  ℕ, Bool, true, false, not, ◌&&◌, Option, none, some, List, map, not_found, pure, gets, ltb, leb,
  ◌>>=◌, ◌>>◌, ◌==◌, String,
}
use online_banking.Schema.{Session, AuditEvent}
use online_banking.Services.{Services, Service}
use online_banking.Services.Statements.{find_or_throw, update_row, write_audit}
use online_banking.Auth.Types.{RequestMeta}
use online_banking.Auth.Login.{session_table, agent_of, address_of}

abbrev pub is_revoked : Option ℕ → Bool
is_revoked none = false
is_revoked (some _) = true

-- what a user sees of a session
pub record SessionView : Type 0 where
  pub id : ℕ
  pub user_agent : Option String
  pub ip_address : Option String
  pub created_at : ℕ
  pub expires_at : ℕ
  pub revoked_at : Option ℕ
  pub is_current : Bool
  pub is_active : Bool

-- `currentSessionId === session.id`
abbrev is_current_of : Option ℕ → ℕ → Bool
is_current_of none id = false
is_current_of (some current) id = current == id

abbrev pub view_of : Option ℕ → ℕ → Session → SessionView
view_of current now s = record {
  id = s.id;
  user_agent = s.user_agent;
  ip_address = s.ip_address;
  created_at = s.created_at;
  expires_at = s.expires_at;
  revoked_at = s.revoked_at;
  is_current = is_current_of current s.id;
  is_active = not (is_revoked s.revoked_at) && ltb now s.expires_at;
}

abbrev pub has_session_id : ℕ → Session → Bool
has_session_id id s = s.id == id

abbrev pub own_session : ℕ → ℕ → Session → Bool
own_session id user_id s = s.id == id && s.user_id == user_id

-- `session.revokedAt ?? new Date()`
abbrev pub revocation : ℕ → Option ℕ → ℕ
revocation now none = now
revocation now (some t) = t

abbrev pub revoked_session : ℕ → Session → Session
revoked_session at s = record s { revoked_at = some at }

session_event : ℕ → ℕ → Option RequestMeta → ℕ → AuditEvent
session_event user_id id meta now = record {
  actor_user_id = user_id;
  action = "SESSION_REVOKED";
  resource_type = "Session";
  resource_id = id;
  ip_address = address_of meta;
  user_agent = agent_of meta;
  created_at = now;
}

module _ (svc : Services) where
  -- the latest first
  unfoldable pub get_sessions : ℕ → Option ℕ → ℕ → Service (List SessionView)
  get_sessions user_id current now = gets (λ w. map (view_of current now) (
      svc.prisma.find_many Session (λ s. s.user_id == user_id)
        (λ a b. leb b.created_at a.created_at) w.db.sessions))

  unfoldable pub revoke_session : ℕ → ℕ → Option RequestMeta → ℕ → Service SessionView
  unfolding session_event
  revoke_session user_id session_id meta now = do
    session ←
        find_or_throw svc session_table (own_session session_id user_id)
          (not_found "Session not found")
    let at = revocation now session.revoked_at
    update_row svc session_table (has_session_id session.id) (revoked_session at)
    write_audit svc (session_event user_id session.id meta now)
    pure (record (view_of none now (revoked_session at session)) { is_active = false })
