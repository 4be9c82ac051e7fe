-- ===== src/Http/Users.antt =====
-- The other controllers whose methods change state: backend/src/auth/auth.controller.ts, and those of
-- backend/src/cards, backend/src/beneficiaries, backend/src/notifications and backend/src/admin.
use online_banking.Base.{ℕ, some, ◌>>=◌, pure, Bool}
use online_banking.Base.Text.{Text}
use online_banking.Schema.{Card, KycStatus, CustomerProfile, Beneficiary}
use online_banking.Payments.Types.{ServiceResult}
use online_banking.Services.{Services, Service}
use online_banking.Auth.Types.{
  LoginDto, RegisterDto, RequestMeta, Signing, LoginResponse, MfaResponse, AuthDraw,
}
use online_banking.Auth.Login.{login, verify_mfa}
use online_banking.Auth.Register.{register}
use online_banking.Auth.Sessions.{SessionView, revoke_session}
use online_banking.Auth.Guards.{jwt_auth_guard}
use online_banking.Cards.{
  CardDraw, IssueCardDto, CardDetails, block_card, unblock_card, issue_card, close_card,
  initiate_reveal, verify_reveal,
}
use online_banking.Beneficiaries.{CreateBeneficiaryDto, create_beneficiary, remove_beneficiary}
use online_banking.Notifications.{mark_as_read, mark_all_as_read}
use online_banking.Admin.{update_kyc_status}
use online_banking.Http.{Caller, admitted, admitted_admin, guarded, checked}
use online_banking.Http.Bodies.{
  login_is_valid, register_is_valid, mfa_otp_is_valid, otp_is_valid, beneficiary_is_valid,
}

module _ (svc : Services) (signing : Signing) where
  -- no guard; `is_email` is the library's test of an address
  unfoldable pub register_request :
      (is_email : Text → Bool) → RegisterDto → AuthDraw → Service (Unit {0})
  register_request is_email dto d =
      checked (register_is_valid is_email dto) (register svc signing dto d)

  unfoldable pub login_request :
      (is_email : Text → Bool) → LoginDto → AuthDraw → Service LoginResponse
  login_request is_email dto d = checked (login_is_valid is_email dto) (login svc signing dto d)

  -- `@UseGuards(JwtAuthGuard)`: the token of the first step
  unfoldable pub verify_mfa_request : Caller → Text → RequestMeta → AuthDraw → Service MfaResponse
  verify_mfa_request caller otp meta d =
      guarded (jwt_auth_guard svc signing caller.token caller.now)
        λ user. checked (mfa_otp_is_valid otp) (verify_mfa svc signing user otp (some meta) d)

  unfoldable pub revoke_session_request : Caller → ℕ → RequestMeta → Service SessionView
  revoke_session_request caller id meta =
      guarded (admitted svc signing caller)
        λ user. revoke_session svc user.sub id (some meta) caller.now

  unfoldable pub block_card_request : Caller → ℕ → CardDraw → Service Card
  block_card_request caller id d =
      guarded (admitted svc signing caller) λ user. block_card svc user.sub id d

  unfoldable pub unblock_card_request : Caller → ℕ → CardDraw → Service Card
  unblock_card_request caller id d =
      guarded (admitted svc signing caller) λ user. unblock_card svc user.sub id d

  unfoldable pub issue_card_request : Caller → IssueCardDto → CardDraw → Service Card
  issue_card_request caller dto d =
      guarded (admitted svc signing caller) λ user. issue_card svc user.sub dto d

  unfoldable pub close_card_request : Caller → ℕ → CardDraw → Service (Unit {0})
  close_card_request caller id d =
      guarded (admitted svc signing caller) λ user. close_card svc user.sub id d

  unfoldable pub initiate_reveal_request : Caller → ℕ → CardDraw → Service (Unit {0})
  initiate_reveal_request caller id d =
      guarded (admitted svc signing caller) λ user. initiate_reveal svc user.sub id d

  unfoldable pub verify_reveal_request : Caller → ℕ → Text → CardDraw → Service CardDetails
  verify_reveal_request caller id otp d =
      guarded (admitted svc signing caller)
        λ user. checked (otp_is_valid otp) (verify_reveal svc user.sub id otp d)

  unfoldable pub create_beneficiary_request :
      Caller → CreateBeneficiaryDto → (id : ℕ) → Service (ServiceResult Beneficiary)
  create_beneficiary_request caller dto id =
      guarded (admitted svc signing caller) λ user.
        checked (beneficiary_is_valid dto) (create_beneficiary svc user.sub dto id caller.now)

  unfoldable pub remove_beneficiary_request : Caller → ℕ → Service (Unit {0})
  remove_beneficiary_request caller id =
      guarded (admitted svc signing caller) λ user. remove_beneficiary svc user.sub id caller.now

  -- the answer is `{ success: true }` in both
  unfoldable pub mark_as_read_request : Caller → ℕ → Service (Unit {0})
  mark_as_read_request caller id =
      guarded (admitted svc signing caller)
        λ user. mark_as_read svc id user.sub caller.now >>= λ _. pure tt

  unfoldable pub mark_all_as_read_request : Caller → Service (Unit {0})
  mark_all_as_read_request caller =
      guarded (admitted svc signing caller)
        λ user. mark_all_as_read svc user.sub caller.now >>= λ _. pure tt

  unfoldable pub verify_customer_request : Caller → ℕ → (notice_id : ℕ) → Service CustomerProfile
  verify_customer_request caller id notice_id =
      guarded (admitted_admin svc signing caller)
        λ user. update_kyc_status svc user.sub id KycStatus.verified notice_id caller.now

  unfoldable pub reject_customer_request : Caller → ℕ → (notice_id : ℕ) → Service CustomerProfile
  reject_customer_request caller id notice_id =
      guarded (admitted_admin svc signing caller)
        λ user. update_kyc_status svc user.sub id KycStatus.rejected notice_id caller.now
