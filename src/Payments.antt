-- ===== src/Payments.antt =====
-- Transfers and payments (backend/src/payments).
pub mod Types
pub mod Payloads
pub mod Stored
pub mod Steps
pub mod Fraud
pub mod Transfer
pub mod ToBeneficiary
pub mod PayMerchant
pub mod StepUp
pub mod Outcome
pub mod Replays
pub mod Retries
pub mod Guarantee
pub mod Keys
pub mod Existing
