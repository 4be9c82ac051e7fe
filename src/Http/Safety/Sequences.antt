-- ===== src/Http/Safety/Sequences.antt =====
-- Every sequence of requests keeps the money sound.
use online_banking.Base.{ℕ, some}
use online_banking.Base.Int.{ℤ}
use online_banking.Schema.{KycStatus}
use online_banking.Services.{Services, World}
use online_banking.Auth.Types.{Signing}
use online_banking.Notifications.{mark_as_read, mark_all_as_read}
use online_banking.Http.Effects
use online_banking.Http.Effects.{IsQuiet-of_same}
use online_banking.Http.Effects.Reading
use online_banking.Http.Effects.Reading.{statement_body-same}
use online_banking.Http.Reads.{
  me_request, sessions_request, accounts_request, transactions_request, transaction_request,
  beneficiaries_request, merchants_request, cards_request, notifications_request, customers_request,
  audit_events_request, statement_request,
}
use online_banking.Http.Users.{
  revoke_session_request, block_card_request, unblock_card_request, issue_card_request,
  close_card_request, initiate_reveal_request, verify_reveal_request, create_beneficiary_request,
  remove_beneficiary_request, mark_as_read_request, mark_all_as_read_request,
  verify_customer_request, reject_customer_request,
}
use online_banking.Http.Safety.{
  Step, Reaches, here, after, registering, logging_in, verifying_mfa, transferring, sending, paying,
  confirming, crediting, revoking_session, blocking_card, unblocking_card, issuing_card,
  closing_card, initiating_reveal, verifying_reveal, creating_beneficiary, removing_beneficiary,
  marking_as_read, marking_all_as_read, verifying_customer, rejecting_customer, reading_me,
  reading_sessions, reading_accounts, reading_transactions, reading_transaction,
  reading_beneficiaries, reading_merchants, reading_cards, reading_notifications, reading_customers,
  reading_audit, reading_statement,
}
use online_banking.Http.Safety.Keeps.{IsSafe}
use online_banking.Http.Safety.Requests.{
  register_request-IsSafe, login_request-IsSafe, verify_mfa_request-IsSafe, transfer_request-IsSafe,
  beneficiary_request-IsSafe, merchant_request-IsSafe, confirm_request-IsSafe,
  credit_request-IsSafe, quiet_request-IsSafe, quiet_admin_request-IsSafe, checked-IsQuiet,
}

module _ (svc : Services) (signing : Signing) (opening : ℕ → ℤ) where
  Step-IsSafe :
      {v v' : World} → Step svc signing v v' → IsSafe svc opening v → IsSafe svc opening v'
  unfolding revoke_session_request block_card_request unblock_card_request issue_card_request
      close_card_request initiate_reveal_request verify_reveal_request create_beneficiary_request
      remove_beneficiary_request mark_as_read_request mark_all_as_read_request
      verify_customer_request reject_customer_request mark_as_read mark_all_as_read me_request
      sessions_request accounts_request transactions_request transaction_request
      beneficiaries_request merchants_request cards_request notifications_request customers_request
      audit_events_request statement_request
  Step-IsSafe {v} (registering is_email dto d fresh) =
      register_request-IsSafe svc signing opening v is_email dto d fresh
  Step-IsSafe {v} (logging_in is_email dto d) =
      login_request-IsSafe svc signing opening v is_email dto d
  Step-IsSafe {v} (verifying_mfa caller otp meta d) =
      verify_mfa_request-IsSafe svc signing opening v caller otp meta d
  Step-IsSafe {v} (transferring caller dto key c draws) =
      transfer_request-IsSafe svc signing opening v caller dto key c draws
  Step-IsSafe {v} (sending caller dto key c draws) =
      beneficiary_request-IsSafe svc signing opening v caller dto key c draws
  Step-IsSafe {v} (paying caller dto key c draws) =
      merchant_request-IsSafe svc signing opening v caller dto key c draws
  Step-IsSafe {v} (confirming caller id otp c draws) =
      confirm_request-IsSafe svc signing opening v caller id otp c draws
  Step-IsSafe {v} (crediting caller account_id dto d) =
      credit_request-IsSafe svc signing opening v caller account_id dto d
  Step-IsSafe {v} (revoking_session caller id meta) =
      quiet_request-IsSafe svc signing opening v caller _
        λ user. Effects.revoke_session-IsQuiet svc user.sub v id (some meta) caller.now
  Step-IsSafe {v} (blocking_card caller id d) =
      quiet_request-IsSafe svc signing opening v caller _
        λ user. Effects.block_card-IsQuiet svc user.sub v id d
  Step-IsSafe {v} (unblocking_card caller id d) =
      quiet_request-IsSafe svc signing opening v caller _
        λ user. Effects.unblock_card-IsQuiet svc user.sub v id d
  Step-IsSafe {v} (issuing_card caller dto d) =
      quiet_request-IsSafe svc signing opening v caller _
        λ user. Effects.issue_card-IsQuiet svc user.sub v dto d
  Step-IsSafe {v} (closing_card caller id d) =
      quiet_request-IsSafe svc signing opening v caller _
        λ user. Effects.close_card-IsQuiet svc user.sub v id d
  Step-IsSafe {v} (initiating_reveal caller id d) =
      quiet_request-IsSafe svc signing opening v caller _
        λ user. Effects.initiate_reveal-IsQuiet svc user.sub v id d
  Step-IsSafe {v} (verifying_reveal caller id otp d) =
      quiet_request-IsSafe svc signing opening v caller _ λ user.
        checked-IsQuiet svc signing opening v _ _
          (Effects.verify_reveal-IsQuiet svc user.sub v id otp d)
  Step-IsSafe {v} (creating_beneficiary caller dto id) =
      quiet_request-IsSafe svc signing opening v caller _ λ user.
        checked-IsQuiet svc signing opening v _ _
          (Effects.create_beneficiary-IsQuiet svc user.sub v dto id caller.now)
  Step-IsSafe {v} (removing_beneficiary caller id) =
      quiet_request-IsSafe svc signing opening v caller _
        λ user. Effects.remove_beneficiary-IsQuiet svc user.sub v id caller.now
  Step-IsSafe {v} (marking_as_read caller id) =
      quiet_request-IsSafe svc signing opening v caller _
        λ user. Effects.mark_as_read-IsQuiet svc user.sub v id caller.now
  Step-IsSafe {v} (marking_all_as_read caller) =
      quiet_request-IsSafe svc signing opening v caller _
        λ user. Effects.mark_all_as_read-IsQuiet svc user.sub v caller.now
  Step-IsSafe {v} (verifying_customer caller id notice_id) =
      quiet_admin_request-IsSafe svc signing opening v caller _ λ user.
        Effects.update_kyc_status-IsQuiet svc user.sub v id KycStatus.verified notice_id caller.now
  Step-IsSafe {v} (rejecting_customer caller id notice_id) =
      quiet_admin_request-IsSafe svc signing opening v caller _ λ user.
        Effects.update_kyc_status-IsQuiet svc user.sub v id KycStatus.rejected notice_id caller.now
  Step-IsSafe {v} (reading_me caller) =
      quiet_request-IsSafe svc signing opening v caller _
        λ user. IsQuiet-of_same (Reading.get_me-same svc v user.sub)
  Step-IsSafe {v} (reading_sessions caller) =
      quiet_request-IsSafe svc signing opening v caller _ λ user.
        IsQuiet-of_same (Reading.get_sessions-same svc v user.sub user.session_id caller.now)
  Step-IsSafe {v} (reading_accounts caller) =
      quiet_request-IsSafe svc signing opening v caller _
        λ user. IsQuiet-of_same (Reading.accounts_of-same svc v user.sub)
  Step-IsSafe {v} (reading_transactions caller) =
      quiet_request-IsSafe svc signing opening v caller _
        λ user. IsQuiet-of_same (Reading.transactions_of-same svc v user.sub)
  Step-IsSafe {v} (reading_transaction caller id) =
      quiet_request-IsSafe svc signing opening v caller _
        λ user. IsQuiet-of_same (Reading.transaction_of-same svc v user.sub id)
  Step-IsSafe {v} (reading_beneficiaries caller) =
      quiet_request-IsSafe svc signing opening v caller _
        λ user. IsQuiet-of_same (Reading.beneficiaries_of-same svc v user.sub)
  Step-IsSafe {v} (reading_merchants caller before) =
      quiet_request-IsSafe svc signing opening v caller _
        λ user. IsQuiet-of_same (Reading.active_merchants-same svc v before)
  Step-IsSafe {v} (reading_cards caller) =
      quiet_request-IsSafe svc signing opening v caller _
        λ user. IsQuiet-of_same (Reading.get_cards-same svc v user.sub)
  Step-IsSafe {v} (reading_notifications caller) =
      quiet_request-IsSafe svc signing opening v caller _
        λ user. IsQuiet-of_same (Reading.notifications_of-same svc v user.sub)
  Step-IsSafe {v} (reading_customers caller) =
      quiet_admin_request-IsSafe svc signing opening v caller _
        λ user. IsQuiet-of_same (Reading.get_customers-same svc v)
  Step-IsSafe {v} (reading_audit caller integer_of to_date f) =
      quiet_admin_request-IsSafe svc signing opening v caller _
        λ user. IsQuiet-of_same (Reading.get_audit_events-same svc v integer_of to_date f)
  Step-IsSafe {v} (reading_statement caller to_date account_id from to) =
      quiet_request-IsSafe svc signing opening v caller _
        λ user. IsQuiet-of_same (statement_body-same svc v to_date user.sub account_id from to)

  -- Whatever requests are made, to whichever methods of the controllers, in whatever order, by whoever
  -- and with whatever bodies, and however each of them ends, as long as the id of a new account is
  -- new: if at first balances are the opening balances with the booked entries, the entries of every
  -- transaction balance, no customer's account is overdrawn and no payment that waits for its password
  -- has an amount below zero, then all of this holds afterwards too.
  pub Reaches-IsSafe :
      {w v : World} → Reaches svc signing w v → IsSafe svc opening w → IsSafe svc opening v
  Reaches-IsSafe here safe = safe
  Reaches-IsSafe (after reaches step) safe = Step-IsSafe step (Reaches-IsSafe reaches safe)
