-- ===== src/Http/Safety.antt =====
-- A step for every request to the controllers, and the states that sequences of them reach.
pub mod Keeps
pub mod Requests
pub mod Sequences
use online_banking.Base.{ℕ, ◌≡◌, Bool, Option, count}
use online_banking.Base.Text.{Text}
use online_banking.Services.{Services, World, Draw}
use online_banking.Auth.Types.{LoginDto, RegisterDto, RequestMeta, Signing, AuthDraw}
use online_banking.Payments.Types.{CreateTransferDto, TransferToBeneficiaryDto, PayMerchantDto}
use online_banking.Payments.Fraud.{Challenge}
use online_banking.Payments.Steps.{with_account_id}
use online_banking.Admin.Credit.{AdminCreditDto}
use online_banking.Cards.{CardDraw, IssueCardDto}
use online_banking.Beneficiaries.{CreateBeneficiaryDto}
use online_banking.Http.{Caller}
use online_banking.Http.Payments.{
  transfer_request, beneficiary_request, merchant_request, confirm_request, credit_request,
}
use online_banking.Base.Int.{ℤ}
use online_banking.Admin.Audit.{AuditEventFilters}
use online_banking.Http.Reads.{
  me_request, sessions_request, accounts_request, transactions_request, transaction_request,
  beneficiaries_request, merchants_request, cards_request, notifications_request, customers_request,
  audit_events_request, statement_request,
}
use online_banking.Http.Users.{
  register_request, login_request, verify_mfa_request, revoke_session_request, block_card_request,
  unblock_card_request, issue_card_request, close_card_request, initiate_reveal_request,
  verify_reveal_request, create_beneficiary_request, remove_beneficiary_request,
  mark_as_read_request, mark_all_as_read_request, verify_customer_request, reject_customer_request,
}

-- The state after one request, whatever its caller, its body and what is drawn for it, and whether it
-- returns or throws. Of what is drawn, only the id of a new account is asked to be new, as a uuid is.
pub data Step (svc : Services) (signing : Signing) (w : World) : World → Type 0 where
  registering :
      (is_email : Text → Bool) (dto : RegisterDto) (d : AuthDraw)
      → count (with_account_id d.account_id) w.db.accounts ≡ 0
      → Step svc signing w (register_request svc signing is_email dto d w).1
  logging_in :
      (is_email : Text → Bool) (dto : LoginDto) (d : AuthDraw)
      → Step svc signing w (login_request svc signing is_email dto d w).1
  verifying_mfa :
      (caller : Caller) (otp : Text) (meta : RequestMeta) (d : AuthDraw)
      → Step svc signing w (verify_mfa_request svc signing caller otp meta d w).1
  revoking_session :
      (caller : Caller) (id : ℕ) (meta : RequestMeta)
      → Step svc signing w (revoke_session_request svc signing caller id meta w).1
  transferring :
      (caller : Caller) (dto : CreateTransferDto) (key : Option Text) (c : Challenge)
      (draws : ℕ → Draw)
      → Step svc signing w (transfer_request svc signing caller dto key c draws w).1
  sending :
      (caller : Caller) (dto : TransferToBeneficiaryDto) (key : Option Text) (c : Challenge)
      (draws : ℕ → Draw)
      → Step svc signing w (beneficiary_request svc signing caller dto key c draws w).1
  paying :
      (caller : Caller) (dto : PayMerchantDto) (key : Option Text) (c : Challenge)
      (draws : ℕ → Draw)
      → Step svc signing w (merchant_request svc signing caller dto key c draws w).1
  confirming :
      (caller : Caller) (id : ℕ) (otp : Text) (c : Challenge) (draws : ℕ → Draw)
      → Step svc signing w (confirm_request svc signing caller id otp c draws w).1
  crediting :
      (caller : Caller) (account_id : ℕ) (dto : AdminCreditDto) (d : Draw)
      → Step svc signing w (credit_request svc signing caller account_id dto d w).1
  blocking_card :
      (caller : Caller) (id : ℕ) (d : CardDraw)
      → Step svc signing w (block_card_request svc signing caller id d w).1
  unblocking_card :
      (caller : Caller) (id : ℕ) (d : CardDraw)
      → Step svc signing w (unblock_card_request svc signing caller id d w).1
  issuing_card :
      (caller : Caller) (dto : IssueCardDto) (d : CardDraw)
      → Step svc signing w (issue_card_request svc signing caller dto d w).1
  closing_card :
      (caller : Caller) (id : ℕ) (d : CardDraw)
      → Step svc signing w (close_card_request svc signing caller id d w).1
  initiating_reveal :
      (caller : Caller) (id : ℕ) (d : CardDraw)
      → Step svc signing w (initiate_reveal_request svc signing caller id d w).1
  verifying_reveal :
      (caller : Caller) (id : ℕ) (otp : Text) (d : CardDraw)
      → Step svc signing w (verify_reveal_request svc signing caller id otp d w).1
  creating_beneficiary :
      (caller : Caller) (dto : CreateBeneficiaryDto) (id : ℕ)
      → Step svc signing w (create_beneficiary_request svc signing caller dto id w).1
  removing_beneficiary :
      (caller : Caller) (id : ℕ)
      → Step svc signing w (remove_beneficiary_request svc signing caller id w).1
  marking_as_read :
      (caller : Caller) (id : ℕ)
      → Step svc signing w (mark_as_read_request svc signing caller id w).1
  marking_all_as_read :
      (caller : Caller) → Step svc signing w (mark_all_as_read_request svc signing caller w).1
  verifying_customer :
      (caller : Caller) (id notice_id : ℕ)
      → Step svc signing w (verify_customer_request svc signing caller id notice_id w).1
  rejecting_customer :
      (caller : Caller) (id notice_id : ℕ)
      → Step svc signing w (reject_customer_request svc signing caller id notice_id w).1
  reading_me : (caller : Caller) → Step svc signing w (me_request svc signing caller w).1
  reading_sessions :
      (caller : Caller) → Step svc signing w (sessions_request svc signing caller w).1
  reading_accounts :
      (caller : Caller) → Step svc signing w (accounts_request svc signing caller w).1
  reading_transactions :
      (caller : Caller) → Step svc signing w (transactions_request svc signing caller w).1
  reading_transaction :
      (caller : Caller) (id : ℕ)
      → Step svc signing w (transaction_request svc signing caller id w).1
  reading_beneficiaries :
      (caller : Caller) → Step svc signing w (beneficiaries_request svc signing caller w).1
  reading_merchants :
      (caller : Caller) (before : Text → Text → Bool)
      → Step svc signing w (merchants_request svc signing caller before w).1
  reading_cards : (caller : Caller) → Step svc signing w (cards_request svc signing caller w).1
  reading_notifications :
      (caller : Caller) → Step svc signing w (notifications_request svc signing caller w).1
  reading_customers :
      (caller : Caller) → Step svc signing w (customers_request svc signing caller w).1
  reading_audit :
      (caller : Caller) (integer_of : Text → Option ℤ) (to_date : Text → Option ℕ)
      (f : AuditEventFilters)
      → Step svc signing w (audit_events_request svc signing caller integer_of to_date f w).1
  reading_statement :
      (caller : Caller) (to_date : Text → Option ℕ) (account_id : Option ℕ) (from to : Option Text)
      → Step svc signing w (statement_request svc signing caller to_date account_id from to w).1

-- the states after any number of requests
pub data Reaches (svc : Services) (signing : Signing) (w : World) : World → Type 0 where
  here : Reaches svc signing w w
  after :
      {v v' : World} → Reaches svc signing w v → Step svc signing v v' → Reaches svc signing w v'
