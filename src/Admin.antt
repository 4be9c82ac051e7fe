-- ===== src/Admin.antt =====
-- `updateKycStatus` of backend/src/admin/admin.service.ts.
pub mod Laws
pub mod Credit
pub mod Audit
use online_banking.Base.{
  ℕ, Bool, true, false, Option, none, some, not_found, pure, ◌>>=◌, ◌>>◌, ◌==◌, String,
  if◌then◌else◌,
}
use online_banking.Base.Text.{codes}
use online_banking.Schema.{CustomerProfile, KycStatus, kyc_is_verified, AuditEvent, Notification}
use online_banking.Services.{Services, Service}
use online_banking.Services.Statements.{find_or_throw, update_row, write_audit, create_notification}
use online_banking.Cards.{profile_table}

abbrev pub has_profile_id : ℕ → CustomerProfile → Bool
has_profile_id id p = p.id == id

-- the `data` of the update
abbrev pub decided : KycStatus → ℕ → CustomerProfile → CustomerProfile
decided status now p = record p {
  kyc_status = status;
  verified_at = if kyc_is_verified status then some now else none;
}

abbrev pub kyc_action : KycStatus → String
kyc_action status = if kyc_is_verified status then "CUSTOMER_VERIFIED" else "CUSTOMER_REJECTED"

kyc_event : ℕ → KycStatus → CustomerProfile → ℕ → AuditEvent
kyc_event admin_id status customer now = record {
  actor_user_id = admin_id;
  action = kyc_action status;
  resource_type = "CustomerProfile";
  resource_id = customer.id;
  ip_address = none;
  user_agent = none;
  created_at = now;
}

kyc_notice : KycStatus → CustomerProfile → (id now : ℕ) → Notification
kyc_notice status customer id now = record {
  id = id;
  user_id = customer.user_id;
  type = kyc_action status;
  title = if kyc_is_verified status then "KYC Verified" else "KYC Rejected";
  message = codes (
      if kyc_is_verified status
      then "Your identity has been verified successfully."
      else "Your identity verification was rejected. Please contact support.");
  created_at = now;
  read_at = none;
}

unfoldable pub update_kyc_status :
    Services → ℕ → ℕ → KycStatus → (notice_id now : ℕ) → Service CustomerProfile
unfolding kyc_event kyc_notice create_notification
update_kyc_status svc admin_id customer_id status notice_id now = do
  customer ←
      find_or_throw svc profile_table (has_profile_id customer_id)
        (not_found "Customer profile not found")
  update_row svc profile_table (has_profile_id customer_id) (decided status now)
  write_audit svc (kyc_event admin_id status customer now)
  create_notification svc (kyc_notice status customer notice_id now)
  pure (decided status now customer)
