-- ===== src/Auth/Register.antt =====
-- `register` and `getMe` of backend/src/auth/auth.service.ts.
pub mod Laws
use online_banking.Base.{
  ℕ, Bool, true, false, ◌&&◌, Option, none, some, [], ◌∷◌, ◌++◌, conflict, unauthorized, ok, err,
  unique_violation, pure, throw, gets, ◌>>=◌, ◌>>◌, ◌==◌, String, List,
}
use mathlib.Core.Option.{map as map_option}
use online_banking.Base.Int.{pos}
use online_banking.Base.Text.{Text, codes, trim, to_upper_case}
use online_banking.Schema.{
  Db, User, CustomerProfile, KycStatus, Account, AccountStatus, AuditEvent, Notification,
}
use online_banking.Prisma.{created, violated}
use online_banking.Services.{Services, Service, World}
use online_banking.Services.Statements.{find_or_throw, write_audit, create_notification}
use online_banking.Payments.Steps.{by_user, ron}
use online_banking.Auth.Types.{RegisterDto, Signing, AuthDraw}
use online_banking.Auth.Login.{user_table, normalize_email, with_email, has_user_id}

-- `generateDemoIban`
unfoldable pub generate_demo_iban : Text → Text
generate_demo_iban hex = codes "RO00BANK" ++ to_upper_case hex

abbrev pub full_name : RegisterDto → Text
full_name dto = trim dto.first_name ++ (codes " " ++ trim dto.last_name)

abbrev pub new_user : Signing → Text → RegisterDto → AuthDraw → User
new_user signing email dto d = record {
  id = d.user_id;
  email = email;
  password_hash = signing.hash d.salt dto.password;
  is_active = true;
  roles = "CLIENT" ∷ [];
}

abbrev pub new_profile : RegisterDto → AuthDraw → CustomerProfile
new_profile dto d = record {
  id = d.profile_id;
  user_id = d.user_id;
  full_legal_name = full_name dto;
  kyc_status = KycStatus.pending;
  verified_at = none;
  created_at = d.now;
}

abbrev pub first_account : AuthDraw → Account
first_account d = record {
  id = d.account_id;
  customer_id = d.profile_id;
  iban = generate_demo_iban d.iban_hex;
  currency = ron;
  available_balance = pos 0;
  status = AccountStatus.active;
  account_type = "CHECKING";
  is_system = false;
  opened_at = d.now;
}

registered_event : ℕ → ℕ → AuditEvent
registered_event user_id now = record {
  actor_user_id = user_id;
  action = "USER_REGISTERED";
  resource_type = "User";
  resource_id = user_id;
  ip_address = none;
  user_agent = none;
  created_at = now;
}

welcome_notice : AuthDraw → Notification
welcome_notice d = record {
  id = d.notice_id;
  user_id = d.user_id;
  type = "USER_REGISTERED";
  title = "Welcome!";
  message = codes "Your account has been successfully created.";
  created_at = d.now;
  read_at = none;
}

-- what `getMe` answers
pub record Me : Type 0 where
  pub user_id : ℕ
  pub email : Text
  pub roles : List String
  pub customer_profile_id : Option ℕ
  pub full_legal_name : Option Text
  pub kyc_status : Option KycStatus
  pub verified_at : Option ℕ

-- `user.customerProfile?.verifiedAt`
abbrev verified_at_of : Option CustomerProfile → Option ℕ
verified_at_of none = none
verified_at_of (some p) = p.verified_at

module _ (svc : Services) (signing : Signing) where
  -- The nested `create` of a user with a profile and an account, which writes all three rows or none.
  unfoldable pub create_user : Text → RegisterDto → AuthDraw → Service (Unit {0})
  create_user email dto d w =
      elim (svc.prisma.create User (new_user signing email dto d) w.db.users) [
        | violated _ ↦ (err unique_violation, w)
        | created users ↦
            elim (svc.prisma.create CustomerProfile (new_profile dto d) w.db.profiles) [
              | violated _ ↦ (err unique_violation, w)
              | created profiles ↦
                  elim (svc.prisma.create Account (first_account d) w.db.accounts) [
                    | violated _ ↦ (err unique_violation, w)
                    | created accounts ↦ (
                      ok tt,
                      record w {
                        db = record w.db {
                          users = users;
                          profiles = profiles;
                          accounts = accounts;
                        };
                      },
                    )
                  ]
            ]
      ]

  -- the rest of the request, once no user has the address
  unfoldable pub register_new : Text → RegisterDto → AuthDraw → Service (Unit {0})
  unfolding registered_event welcome_notice create_notification
  register_new email dto d = do
    create_user email dto d
    write_audit svc (registered_event d.user_id d.now)
    create_notification svc (welcome_notice d)

  unfoldable pub register : RegisterDto → AuthDraw → Service (Unit {0})
  register dto d w =
      elim (svc.prisma.find User (with_email (normalize_email dto.email)) w.db.users) [
        | some _ ↦ (err (conflict "An account with this email address already exists."), w)
        | none ↦ register_new (normalize_email dto.email) dto d w
      ]

module _ (svc : Services) where
  unfoldable pub get_me : ℕ → Service Me
  get_me user_id = do
    user ← find_or_throw svc user_table (has_user_id user_id) (unauthorized "User not found")
    profile ← gets (λ w. svc.prisma.find CustomerProfile (by_user user.id) w.db.profiles)
    pure (record {
      user_id = user.id;
      email = user.email;
      roles = user.roles;
      customer_profile_id = map_option (λ p. p.id) profile;
      full_legal_name = map_option (λ p. p.full_legal_name) profile;
      kyc_status = map_option (λ p. p.kyc_status) profile;
      verified_at = verified_at_of profile;
    })
