-- ===== src/Http/Safety/Requests.antt =====
-- The requests one by one.
use online_banking.Base.{ℕ, ◌≡◌, refl, Bool, true, false, arith, Option, count, some}
use online_banking.Base.Int.{ℤ, pos, ◌≤ℤ◌}
use online_banking.Base.Text.{Text}
use online_banking.Services.{Services, Service, World, Draw}
use online_banking.Services.Statements.{create_notification}
use online_banking.Auth.Types.{
  JwtAccessPayload, LoginDto, RegisterDto, RequestMeta, Signing, AuthDraw,
}
use online_banking.Auth.Register.{register, register_new, create_user}
use online_banking.Auth.Register.Laws.{register-IsSound}
use online_banking.Redis.{challenge, step_up}
use online_banking.Payments.Types.{CreateTransferDto, TransferToBeneficiaryDto, PayMerchantDto}
use online_banking.Payments.Fraud.{Challenge}
use online_banking.Payments.Steps.{with_account_id}
use online_banking.Payments.Transfer.Guarantee.{transfer-IsSound}
use online_banking.Payments.ToBeneficiary.Guarantee.{transfer_to_beneficiary-IsSound}
use online_banking.Payments.PayMerchant.Guarantee.{pay_merchant-IsSound}
use online_banking.Payments.StepUp.Laws.{confirm_step_up-IsSound}
use online_banking.Payments.StepUp.Fair.{kept, CacheStep-IsFair}
use online_banking.Payments.StepUp.Stores.{
  transfer-StepsCache, transfer_to_beneficiary-StepsCache, pay_merchant-StepsCache,
  confirm_step_up-StepsCache,
}
use online_banking.Admin.Credit.{AdminCreditDto, credit_account}
use online_banking.Admin.Credit.Sound.{credit_account-IsSound}
use online_banking.Http.{Caller, admitted, admitted_admin, guarded, checked}
use online_banking.Http.Bodies.{
  transformed_transfer, transfer_is_valid, beneficiary_transfer_is_valid, credit_is_valid,
}
use online_banking.Http.Effects
use online_banking.Http.Effects.{IsQuiet, still}
use online_banking.Http.Payments.{
  or_empty, transfer_request, beneficiary_request, merchant_request, confirm_request,
  credit_request,
}
use online_banking.Http.Users.{register_request, login_request, verify_mfa_request}
use online_banking.Http.Safety.Keeps.{
  IsSafe, IsQuiet-IsSafe, guarded_keeps, checked_keeps, jwt_auth_guard-same, admitted-same,
  admitted_admin-same,
}

module _ (svc : Services) (signing : Signing) (opening : ℕ → ℤ) (w : World) where
  abbrev pub Keeps : World → Type 0
  Keeps v = IsSafe svc opening w → IsSafe svc opening v

  pub transfer_request-IsSafe :
      (caller : Caller) (dto : CreateTransferDto) (key : Option Text) (c : Challenge)
      (draws : ℕ → Draw)
      → Keeps (transfer_request svc signing caller dto key c draws w).1
  unfolding transfer_request transfer_is_valid
  transfer_request-IsSafe caller dto key c draws =
      guarded_keeps (IsSafe svc opening) _ _ w (admitted-same svc signing caller w) λ user.
        checked_keeps (IsSafe svc opening) _ _ w λ valid safe.
          let body = transformed_transfer dto in
          let nonneg : pos 0 ≤ℤ body.amount = ground arith in
          record {
            sound =
                transfer-IsSound svc user body (or_empty key) false c draws w opening nonneg
                  safe.sound;
            fair =
                CacheStep-IsFair svc
                  (transfer-StepsCache svc user (or_empty key) false c draws body w) safe.fair;
          }

  pub beneficiary_request-IsSafe :
      (caller : Caller) (dto : TransferToBeneficiaryDto) (key : Option Text) (c : Challenge)
      (draws : ℕ → Draw)
      → Keeps (beneficiary_request svc signing caller dto key c draws w).1
  unfolding beneficiary_request beneficiary_transfer_is_valid
  beneficiary_request-IsSafe caller dto key c draws =
      guarded_keeps (IsSafe svc opening) _ _ w (admitted-same svc signing caller w) λ user.
        checked_keeps (IsSafe svc opening) _ _ w λ valid safe. record {
          sound =
              transfer_to_beneficiary-IsSound svc user dto (or_empty key) false c draws w opening
                (ground arith) safe.sound;
          fair =
              CacheStep-IsFair svc
                (transfer_to_beneficiary-StepsCache svc user (or_empty key) false c draws dto w)
                safe.fair;
        }

  pub merchant_request-IsSafe :
      (caller : Caller) (dto : PayMerchantDto) (key : Option Text) (c : Challenge)
      (draws : ℕ → Draw)
      → Keeps (merchant_request svc signing caller dto key c draws w).1
  unfolding merchant_request
  merchant_request-IsSafe caller dto key c draws =
      guarded_keeps (IsSafe svc opening) _ _ w (admitted-same svc signing caller w) λ user.
        checked_keeps (IsSafe svc opening) _ _ w λ valid safe. record {
          sound =
              pay_merchant-IsSound svc user dto (or_empty key) false c draws w opening safe.sound;
          fair =
              CacheStep-IsFair svc
                (pay_merchant-StepsCache svc user (or_empty key) false c draws dto w) safe.fair;
        }

  pub confirm_request-IsSafe :
      (caller : Caller) (id : ℕ) (otp : Text) (c : Challenge) (draws : ℕ → Draw)
      → Keeps (confirm_request svc signing caller id otp c draws w).1
  unfolding confirm_request
  confirm_request-IsSafe caller id otp c draws =
      guarded_keeps (IsSafe svc opening) _ _ w (admitted-same svc signing caller w) λ user.
        checked_keeps (IsSafe svc opening) _ _ w λ valid safe. record {
          sound =
              confirm_step_up-IsSound svc user c draws id otp w opening
                (λ pending key stored found.
                  safe.fair c.now (step_up user.sub id) (challenge pending key stored) found)
                safe.sound;
          fair =
              CacheStep-IsFair svc (confirm_step_up-StepsCache svc user c draws id otp w) safe.fair;
        }

  credit_account-keeps_cache :
      (admin_id account_id : ℕ) (dto : AdminCreditDto) (d : Draw)
      → (credit_account svc admin_id account_id dto d w).1.cache ≡ w.cache
  unfolding credit_account
  credit_account-keeps_cache admin_id account_id dto d = ground arith

  pub credit_request-IsSafe :
      (caller : Caller) (account_id : ℕ) (dto : AdminCreditDto) (d : Draw)
      → Keeps (credit_request svc signing caller account_id dto d w).1
  unfolding credit_request credit_is_valid
  credit_request-IsSafe caller account_id dto d =
      guarded_keeps (IsSafe svc opening) _ _ w (admitted_admin-same svc signing caller w) λ user.
        checked_keeps (IsSafe svc opening) _ _ w λ valid safe. record {
          sound =
              credit_account-IsSound svc user.sub account_id dto d w opening (ground arith)
                safe.sound;
          fair =
              CacheStep-IsFair svc (kept (credit_account-keeps_cache user.sub account_id dto d))
                safe.fair;
        }

  register-keeps_cache :
      (dto : RegisterDto) (d : AuthDraw) → (register svc signing dto d w).1.cache ≡ w.cache
  unfolding register register_new create_user create_notification
  register-keeps_cache dto d = ground arith

  pub register_request-IsSafe :
      (is_email : Text → Bool) (dto : RegisterDto) (d : AuthDraw)
      → count (with_account_id d.account_id) w.db.accounts ≡ 0
      → Keeps (register_request svc signing is_email dto d w).1
  unfolding register_request
  register_request-IsSafe is_email dto d fresh =
      checked_keeps (IsSafe svc opening) _ _ w λ valid safe. record {
        sound = register-IsSound svc signing dto d w opening fresh safe.sound;
        fair = CacheStep-IsFair svc (kept (register-keeps_cache dto d)) safe.fair;
      }

  pub login_request-IsSafe :
      (is_email : Text → Bool) (dto : LoginDto) (d : AuthDraw)
      → Keeps (login_request svc signing is_email dto d w).1
  unfolding login_request
  login_request-IsSafe is_email dto d =
      checked_keeps (IsSafe svc opening) _ _ w
        λ valid. IsQuiet-IsSafe (Effects.login-IsQuiet svc signing d w dto)

  pub verify_mfa_request-IsSafe :
      (caller : Caller) (otp : Text) (meta : RequestMeta) (d : AuthDraw)
      → Keeps (verify_mfa_request svc signing caller otp meta d w).1
  unfolding verify_mfa_request
  verify_mfa_request-IsSafe caller otp meta d =
      guarded_keeps (IsSafe svc opening) _ _ w (jwt_auth_guard-same svc signing caller w) λ user.
        checked_keeps (IsSafe svc opening) _ _ w
          λ valid. IsQuiet-IsSafe (Effects.verify_mfa-IsQuiet svc signing d w user otp (some meta))

  -- a method of a signed-in user that moves no money
  pub quiet_request-IsSafe :
      {B : Type 0} (caller : Caller) (method : JwtAccessPayload → Service B)
      → ((user : JwtAccessPayload) → IsQuiet svc w (method user w).1)
      → Keeps (guarded (admitted svc signing caller) method w).1
  quiet_request-IsSafe caller method quiet =
      guarded_keeps (IsSafe svc opening) _ method w (admitted-same svc signing caller w)
        λ user. IsQuiet-IsSafe (quiet user)

  pub quiet_admin_request-IsSafe :
      {B : Type 0} (caller : Caller) (method : JwtAccessPayload → Service B)
      → ((user : JwtAccessPayload) → IsQuiet svc w (method user w).1)
      → Keeps (guarded (admitted_admin svc signing caller) method w).1
  quiet_admin_request-IsSafe caller method quiet =
      guarded_keeps (IsSafe svc opening) _ method w (admitted_admin-same svc signing caller w)
        λ user. IsQuiet-IsSafe (quiet user)

  pub checked-IsQuiet :
      {B : Type 0} (valid : Bool) (method : Service B)
      → IsQuiet svc w (method w).1
      → IsQuiet svc w (checked valid method w).1
  unfolding checked
  checked-IsQuiet true method quiet = quiet
  checked-IsQuiet false method quiet = still refl refl refl
