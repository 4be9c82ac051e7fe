-- ===== src/Tests/Server.antt =====
-- Sequences of requests, and the reading methods, on the small bank.
use online_banking.Base.{
  ℕ, ◌≡◌, refl, true, Bool, none, some, Option, [], ◌∷◌, ok, err, forbidden, arith, if◌then◌else◌,
}
use online_banking.Base.Int.{ℤ, pos}
use online_banking.Base.Text.{Text, codes, text_eq, trim, to_lower_case}
use online_banking.Schema.{User, AuditEvent, Account, CustomerProfile, KycStatus}
use online_banking.Redis.{step_up}
use online_banking.Services.{World}
use online_banking.Auth.Login.{login, normalize_email, pre_mfa_payload}
use online_banking.Payments.Types.{beneficiary_transfer}
use online_banking.Payments.Fraud.{Challenge}
use online_banking.Payments.StepUp.{resume, confirm_step_up}
use online_banking.Payments.StepUp.Fair.{IsFair}
use online_banking.Payments.StepUp.Flow.{stopped, confirm_step_up-run_mock_fraud_check}
use online_banking.Payments.Steps.{with_account_id}
use online_banking.Queries.Views.{
  account_view, customers_account, transaction_view, customers_transaction, beneficiary_view,
  active_beneficiary, card_view, open_card,
}
use online_banking.Queries.{accounts_of, transactions_of, beneficiaries_of, get_cards}
use online_banking.Queries.Own.{Shows, queries-Shows}
use online_banking.Admin.Audit.{
  AuditEventFilters, AuditPage, get_audit_events, parse_positive_int, parse_date, audit_page,
}
use online_banking.Admin.Audit.Pages.{IsPage, get_audit_events-IsPage}
use online_banking.Http.{Caller, admitted, admitted_admin, guarded}
use online_banking.Http.Admins.{IsAdmin, verifying, Administers-IsAdmin}
use online_banking.Admin.{update_kyc_status}
use online_banking.Services.Statements.{create_notification}
use online_banking.Http.Access.{admitted-login}
use online_banking.Auth.Types.{LoginResponse}
use online_banking.Auth.Guards.{jwt_auth_guard, validate, mfa_verified_guard, roles_guard}
use online_banking.Http.Safety.{Reaches, here, after, logging_in, verifying_mfa, transferring}
use online_banking.Http.Safety.Keeps.{IsSafe}
use online_banking.Http.Safety.Sequences.{Reaches-IsSafe}
use online_banking.Http.Users.{login_request, verify_mfa_request, verify_customer_request}
use online_banking.Http.Payments.{transfer_request}
use online_banking.Fixtures.{
  services, bank, world, ann, ann_profile, draw, drawn, between_own, to_payee, world_with_card,
}
use online_banking.Tests.Money.{opening_balance}
use online_banking.Tests.Sessions.{people-IsSound}
use online_banking.Tests.Access.{
  plain_signing, user, people, by_ann, auth_draw, after_login, pre_token, ann_token,
}

people-IsFair : IsFair services people.cache
people-IsFair now k v h = absurd (ground arith)

abbrev any_email : Text → Bool
any_email t = true

-- Ann signs in and then pays herself.
abbrev logged_in : World
logged_in = (login_request services plain_signing any_email by_ann (auth_draw 60000) people).1

abbrev first_caller : Caller
first_caller = record { token = some pre_token; now = 70000 }

abbrev confirmed : World
confirmed =
    (verify_mfa_request services plain_signing first_caller (codes "123456")
      (record { user_agent = none; ip_address = none }) (auth_draw 70000) logged_in).1

abbrev second_caller : Caller
second_caller = record { token = some ann_token.access_token; now = 80000 }

abbrev paid_herself : World
paid_herself =
    (transfer_request services plain_signing second_caller (between_own (pos 30000))
      (some (codes "k")) drawn draw confirmed).1

three_requests : Reaches services plain_signing people paid_herself
three_requests =
    after
      (after (after here (logging_in any_email by_ann (auth_draw 60000))) (
        verifying_mfa first_caller (codes "123456")
          (record { user_agent = none; ip_address = none }) (auth_draw 70000)))
      (transferring second_caller (between_own (pos 30000)) (some (codes "k")) drawn draw)

Reaches-IsSafe_example : IsSafe services opening_balance paid_herself
Reaches-IsSafe_example =
    Reaches-IsSafe services plain_signing opening_balance three_requests
      (record { sound = people-IsSound; fair = people-IsFair })

abbrev answer : Challenge
answer = record { id = 78; otp = codes "000000"; now = 60000 }

abbrev held : World
held =
    stopped services ann drawn answer draw world (codes "k") (pos 20000000)
      (beneficiary_transfer (to_payee 302 (pos 20000000)))

confirm_step_up-run_mock_fraud_check_example :
    confirm_step_up services ann 77 (codes "123456") answer draw held
    ≡ resume services ann
        (beneficiary_transfer (to_payee 302 (pos 20000000)))
        (codes "k")
        answer
        draw
        (record held { cache = services.redis.del (step_up 1 77) held.cache })
confirm_step_up-run_mock_fraud_check_example =
    confirm_step_up-run_mock_fraud_check services ann drawn answer draw world (codes "k")
      (pos 20000000) (beneficiary_transfer (to_payee 302 (pos 20000000))) refl refl refl

queries-Shows_example :
    Shows
      (customers_account 10)
      account_view
      world_with_card.db.accounts
      world_with_card
      (accounts_of services 1 world_with_card)
    × Shows
        (customers_transaction 10)
        transaction_view
        world_with_card.db.transactions
        world_with_card
        (transactions_of services 1 world_with_card)
    × Shows
        (active_beneficiary 10)
        beneficiary_view
        world_with_card.db.beneficiaries
        world_with_card
        (beneficiaries_of services 1 world_with_card)
    × Shows
        (open_card 10)
        (λ c.
          card_view c (
            services.prisma.find Account
              (with_account_id c.account_id)
              world_with_card.db.accounts))
        world_with_card.db.cards
        world_with_card
        (get_cards services 1 world_with_card)
queries-Shows_example = queries-Shows services 1 world_with_card ann_profile refl

abbrev event : ℕ → AuditEvent
event at = record {
  actor_user_id = 1;
  action = "CARD_BLOCKED";
  resource_type = "Card";
  resource_id = 501;
  ip_address = none;
  user_agent = none;
  created_at = at;
}

abbrev watched : World
watched = record world { db = record bank { audit_events = event 1 ∷ event 2 ∷ event 3 ∷ [] } }

abbrev integer_of : Text → Option ℤ
integer_of t = if text_eq t (codes "2") then some (pos 2) else none

abbrev no_date : Text → Option ℕ
no_date t = none

abbrev second_page : AuditEventFilters
second_page = record {
  action = some "CARD_BLOCKED";
  resource_type = none;
  actor_user_id = none;
  from = none;
  to = none;
  page = some (codes "2");
  limit = some (codes "2");
}

abbrev found_page : AuditPage
found_page = record { items = event 1 ∷ []; page = 2; limit = 2; total = 3 }

paging : get_audit_events services integer_of no_date second_page watched ≡ (ok found_page, watched)
unfolding get_audit_events parse_positive_int parse_date audit_page
paging = refl

get_audit_events-IsPage_example : IsPage no_date second_page watched.db.audit_events found_page
get_audit_events-IsPage_example =
    get_audit_events-IsPage services integer_of no_date watched second_page watched found_page
      paging

abbrev first_answer : LoginResponse
first_answer = record { access_token = pre_token; mfa_required = true; expires_in_seconds = 300 }

first_step :
    login services plain_signing by_ann (auth_draw 60000) people ≡ (ok first_answer, after_login)
unfolding login normalize_email trim to_lower_case
first_step = refl

admitted-login_example :
    (admitted services plain_signing first_caller people
      ≡ (err (forbidden "MFA verification is required before this action."), people))
    × (u : User) × (jwt_auth_guard services plain_signing (some pre_token) 70000 people
        ≡ (ok (pre_mfa_payload u), people))
admitted-login_example =
    admitted-login services plain_signing by_ann (auth_draw 60000) people after_login people
      first_answer first_caller first_step refl refl

-- an administrator, and a token of theirs
abbrev office : World
office = record world {
  db = record bank {
    users = record (user 9 (codes "boss@x") true) { roles = "CLIENT" ∷ "ADMIN" ∷ [] } ∷ [];
    sessions = [];
  };
}

abbrev boss : Caller
boss = record {
  token = some (
      plain_signing.sign 60000
        (record { sub = 9; email = codes "boss@x"; mfa_verified = true; session_id = none }) "15m");
  now = 70000;
}

abbrev after_verifying : World
after_verifying = (verify_customer_request services plain_signing boss 20 3001 office).1

abbrev bob_profile : CustomerProfile
bob_profile = record {
  id = 20;
  user_id = 2;
  full_legal_name = 20 ∷ [];
  kyc_status = KycStatus.verified;
  verified_at = some 70000;
  created_at = 1;
}

verified_bob :
    verify_customer_request services plain_signing boss 20 3001 office
    ≡ (ok bob_profile, after_verifying)
unfolding verify_customer_request guarded admitted_admin admitted jwt_auth_guard validate
    mfa_verified_guard roles_guard update_kyc_status create_notification
verified_bob = refl

Administers-IsAdmin_example : IsAdmin services plain_signing boss office
Administers-IsAdmin_example =
    Administers-IsAdmin services plain_signing boss office
      (verifying 20 3001 bob_profile after_verifying verified_bob)
