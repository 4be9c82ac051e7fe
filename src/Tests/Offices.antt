-- ===== src/Tests/Offices.antt =====
-- The theorems on notifications and on an administrator's decisions, applied to the small bank.
use online_banking.Base.{ℕ, ◌≡◌, ◌≢◌, refl, false, none, some, [], ◌∷◌, ok, arith, count, All}
use online_banking.Base.Int.{pos}
use online_banking.Base.Text.{codes}
use online_banking.Schema.{Notification, KycStatus}
use online_banking.Services.{World}
use online_banking.Services.Statements.{create_notification}
use online_banking.Payments.Outcome.{is_ok}
use online_banking.Payments.Transfer.{transfer}
use online_banking.Payments.ToBeneficiary.{transfer_to_beneficiary}
use online_banking.Payments.PayMerchant.{pay_merchant}
use online_banking.Notifications.{own_unread, mark_as_read, mark_all_as_read}
use online_banking.Notifications.Laws.{notifications-own_unread}
use online_banking.Admin.{decided, update_kyc_status}
use online_banking.Admin.Laws.{IsDated, update_kyc_status-IsDated, update_kyc_status-stops}
use online_banking.Fixtures.{
  services, bank, world, ann, ann_profile, draw, drawn, between_own, to_payee, to_shop,
}

abbrev note : ℕ → ℕ → Notification
note id user_id = record {
  id = id;
  user_id = user_id;
  type = "CARD_BLOCKED";
  title = "Card Blocked";
  message = codes "blocked";
  created_at = 5;
  read_at = none;
}

-- two notifications for user 1 and one for user 2
abbrev noted : World
noted = record world {
  db = record bank { notifications = note 601 1 ∷ note 602 2 ∷ note 603 1 ∷ [] };
}

abbrev ann_id : ℕ
ann_id = 1

abbrev other_id : ℕ
other_id = 2

two_is_not_one : other_id ≢ ann_id
two_is_not_one h = omega arith

notifications-own_unread_example :
    ((mark_all_as_read services 1 70000 noted).0 ≡ ok (count (own_unread 1) noted.db.notifications))
    × (count (own_unread 1) (mark_all_as_read services 1 70000 noted).1.db.notifications ≡ 0)
    × (count (own_unread 2) (mark_all_as_read services 1 70000 noted).1.db.notifications
        ≡ count (own_unread 2) noted.db.notifications)
    × (count (own_unread 2) (mark_as_read services 602 1 70000 noted).1.db.notifications
        ≡ count (own_unread 2) noted.db.notifications)
notifications-own_unread_example =
    notifications-own_unread services 1 70000 noted 602 2 two_is_not_one

-- Ann's profile alone, verified at some time
abbrev dated : World
dated = record world {
  db = record bank { profiles = record ann_profile { verified_at = some 1 } ∷ [] };
}

update_kyc_status-IsDated_example :
    All IsDated (update_kyc_status services 9 10 KycStatus.rejected 3001 70000 dated).1.db.profiles
update_kyc_status-IsDated_example =
    update_kyc_status-IsDated services 9 10 KycStatus.rejected 3001 70000 dated (refl, tt)

abbrev after_refusal : World
after_refusal = (update_kyc_status services 9 10 KycStatus.rejected 3001 70000 dated).1

refusal :
    update_kyc_status services 9 10 KycStatus.rejected 3001 70000 dated
    ≡ (ok (decided KycStatus.rejected 70000 ann_profile), after_refusal)
unfolding update_kyc_status create_notification
refusal = refl

update_kyc_status-stops_example :
    ((is_ok
          (transfer services ann
            (between_own (pos 500))
            (codes "k")
            false
            drawn
            draw
            after_refusal).0
        ≡ false)
      × ((transfer services ann
            (between_own (pos 500))
            (codes "k")
            false
            drawn
            draw
            after_refusal).1
          ≡ after_refusal))
    × ((is_ok
            (transfer_to_beneficiary services ann
              (to_payee 301 (pos 500))
              (codes "k")
              false
              drawn
              draw
              after_refusal).0
          ≡ false)
        × ((transfer_to_beneficiary services ann
              (to_payee 301 (pos 500))
              (codes "k")
              false
              drawn
              draw
              after_refusal).1
            ≡ after_refusal))
    × (is_ok
          (pay_merchant services ann
            (to_shop (pos 500))
            (codes "k")
            false
            drawn
            draw
            after_refusal).0
        ≡ false)
    × ((pay_merchant services ann (to_shop (pos 500)) (codes "k") false drawn draw after_refusal).1
        ≡ after_refusal)
update_kyc_status-stops_example =
    update_kyc_status-stops services 9 10 KycStatus.rejected 3001 70000 ann dated after_refusal
      (decided KycStatus.rejected 70000 ann_profile) (codes "k") false drawn draw
      (between_own (pos 500)) (to_payee 301 (pos 500)) (to_shop (pos 500)) refl ((λ own. refl), tt)
      refusal
