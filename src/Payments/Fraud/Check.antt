-- ===== src/Payments/Fraud/Check.antt =====
-- What the fraud check may do.
use online_banking.Base.{ℕ, ◌≡◌, ◌⊎◌, Bool, false, arith, ok, pure, ◌>>=◌, if◌then◌else◌}
use online_banking.Base.Int.{ℤ}
use online_banking.Base.Text.{Text}
use online_banking.Services.{Services, Service, World}
use online_banking.Payments.Types.{PendingPayment}
use online_banking.Payments.Outcome.{is_ok}
use online_banking.Payments.Fraud.{Challenge, run_mock_fraud_check}

-- The check lets a request pass and changes nothing, or stops it and leaves the database alone.
pub skip_or_check :
    (svc : Services) (user : ℕ) (key : Text) (amount : ℤ) (pending : PendingPayment) (skip : Bool)
    (c : Challenge) (w : World)
    → ((if skip then pure tt else run_mock_fraud_check svc user key amount pending c) w
        ≡ (ok tt, w))
      ⊎ ((is_ok ((if skip then pure tt else run_mock_fraud_check svc user key amount pending c) w).0
            ≡ false)
          × (((if skip then pure tt else run_mock_fraud_check svc user key amount pending c) w).1.db
              ≡ w.db))
unfolding run_mock_fraud_check
skip_or_check svc user key amount pending skip c w = ground arith

-- A step that throws ends the request.
pub stop-bind :
    {A B : Type 0} {w : World} (m : Service A) (k : A → Service B)
    → is_ok (m w).0 ≡ false
    → (m w).1.db ≡ w.db
    → (is_ok ((m >>= k) w).0 ≡ false) × (((m >>= k) w).1.db ≡ w.db)
stop-bind m k stopped same = ground arith

-- A step that passes leaves the request to the rest.
pub pass-bind :
    {A B : Type 0} {w : World} (m : Service A) (k : A → Service B) {a : A}
    → m w ≡ (ok a, w)
    → (m >>= k) w ≡ k a w
pass-bind m k passed = ground arith
