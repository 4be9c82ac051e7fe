-- ===== src/Http/Admins.antt =====
-- Who is served by backend/src/admin/admin.controller.ts.
use online_banking.Base.{
  ℕ, ◌≡◌, true, Option, some, ok, List, Memᴰ, inl, inr, arith, Option-cases, returns?, any,
}
use text.Mathlib.Text.{◌==◌ as str_eq}
use online_banking.Base.Int.{ℤ}
use online_banking.Base.Text.{Text}
use online_banking.Schema.{User, CustomerProfile}
use online_banking.Services.{Services, Service, World, Draw}
use online_banking.Auth.Types.{JwtAccessPayload, Signing}
use online_banking.Auth.Login.{has_user_id}
use online_banking.Auth.Guards.{jwt_auth_guard, validate, roles_guard, mfa_verified_guard}
use online_banking.Admin.Credit.{AdminCreditDto, AdminCreditResponse}
use online_banking.Admin.Audit.{AuditEventFilters, AuditPage}
use online_banking.Queries.Customers.{CustomerView}
use online_banking.Http.{Caller, guarded, admitted, admitted_admin}
use online_banking.Http.Payments.{credit_request}
use online_banking.Http.Users.{verify_customer_request, reject_customer_request}
use online_banking.Http.Reads.{customers_request, audit_events_request}

-- The caller's token is one with MFA of an active user who has the role of an administrator.
pub record IsAdmin (svc : Services) (signing : Signing) (caller : Caller) (w : World) : Type 0 where
  pub token : Text
  pub payload : JwtAccessPayload
  pub user : User
  pub held : caller.token ≡ some token
  pub signed : signing.decode caller.now token ≡ some payload
  pub verified : payload.mfa_verified ≡ true
  pub listed : Memᴰ user w.db.users
  pub named : has_user_id payload.sub user ≡ true
  pub active : user.is_active ≡ true
  pub role : any (λ name. str_eq name "ADMIN") user.roles ≡ true

-- a request to the controller that was answered without an exception
pub data Administers (svc : Services) (signing : Signing) (caller : Caller) (w : World)
    : Type 0 where
  crediting :
      (account_id : ℕ) (dto : AdminCreditDto) (d : Draw) (r : AdminCreditResponse) (v : World)
      → credit_request svc signing caller account_id dto d w ≡ (ok r, v)
      → Administers svc signing caller w
  verifying :
      (id notice_id : ℕ) (p : CustomerProfile) (v : World)
      → verify_customer_request svc signing caller id notice_id w ≡ (ok p, v)
      → Administers svc signing caller w
  rejecting :
      (id notice_id : ℕ) (p : CustomerProfile) (v : World)
      → reject_customer_request svc signing caller id notice_id w ≡ (ok p, v)
      → Administers svc signing caller w
  listing_customers :
      (r : List CustomerView) (v : World)
      → customers_request svc signing caller w ≡ (ok r, v)
      → Administers svc signing caller w
  reading_audit :
      (integer_of : Text → Option ℤ) (to_date : Text → Option ℕ) (f : AuditEventFilters)
      (r : AuditPage) (v : World)
      → audit_events_request svc signing caller integer_of to_date f w ≡ (ok r, v)
      → Administers svc signing caller w

passed :
    {A B : Type 0} (guard : Service A) (method : A → Service B) (w v : World) (b : B)
    → guarded guard method w ≡ (ok b, v)
    → (a : A) × (w' : World) × (guard w ≡ (ok a, w'))
unfolding guarded
passed guard method w v b h = elim (returns? (guard w)) [
  | inl (a, w', e) ↦ (a, w', e)
  | inr (e, w', h') ↦ absurd (ground arith)
]

module _ (svc : Services) (signing : Signing) (caller : Caller) (w : World) where
  admitted_admin-IsAdmin :
      (payload : JwtAccessPayload) (v : World)
      → admitted_admin svc signing caller w ≡ (ok payload, v)
      → IsAdmin svc signing caller w
  unfolding admitted_admin admitted roles_guard jwt_auth_guard validate mfa_verified_guard
  admitted_admin-IsAdmin payload v h = elim (Option-cases caller.token) [
    | inl without ↦ absurd (ground arith)
    | inr (token, held) ↦ elim (Option-cases (signing.decode caller.now token)) [
      | inl unsigned ↦ absurd (ground arith)
      | inr (claims, signed) ↦
          elim (Option-cases (svc.prisma.find User (has_user_id claims.sub) w.db.users)) [
            | inl missing ↦ absurd (ground arith)
            | inr (user, found) ↦ record {
              token = token;
              payload = claims;
              user = user;
              held = held;
              signed = signed;
              verified = ground arith;
              listed = svc.prisma.find_member User _ _ _ found;
              named = svc.prisma.find_holds User _ _ _ found;
              active = ground arith;
              role = ground arith;
            }
          ]
    ]
  ]

  served_as-IsAdmin :
      {B : Type 0} (method : JwtAccessPayload → Service B) (v : World) (b : B)
      → guarded (admitted_admin svc signing caller) method w ≡ (ok b, v)
      → IsAdmin svc signing caller w
  served_as-IsAdmin method v b h =
      let (payload, w', e) = passed (admitted_admin svc signing caller) method w v b h in
      admitted_admin-IsAdmin payload w' e

  -- A request to the administrators' controller that is answered without an exception, to credit an
  -- account, to decide on a customer, to list customers or to read audit events, bears a token with MFA
  -- that is valid at the time, of an active user whose row has the role ADMIN.
  pub Administers-IsAdmin : Administers svc signing caller w → IsAdmin svc signing caller w
  unfolding credit_request verify_customer_request reject_customer_request customers_request
      audit_events_request
  Administers-IsAdmin (crediting account_id dto d r v h) = served_as-IsAdmin _ v r h
  Administers-IsAdmin (verifying id notice_id p v h) = served_as-IsAdmin _ v p h
  Administers-IsAdmin (rejecting id notice_id p v h) = served_as-IsAdmin _ v p h
  Administers-IsAdmin (listing_customers r v h) = served_as-IsAdmin _ v r h
  Administers-IsAdmin (reading_audit integer_of to_date f r v h) = served_as-IsAdmin _ v r h
