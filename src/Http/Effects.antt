-- ===== src/Http/Effects.antt =====
-- The methods that move no money: they leave the accounts and the ledger's entries as they are, and
-- take at most one step in the cache.
pub mod Reading
use online_banking.Base.{ℕ, ◌≡◌, ◌⊎◌, refl, ap, arith, Option, inl, inr, Option-cases}
use online_banking.Base.Text.{Text}
use online_banking.Schema.{KycStatus, CustomerProfile, Card}
use online_banking.Redis.{Cache, CacheKey, mfa, reveal, password}
use online_banking.Services.{Services, World}
use online_banking.Services.Statements.{create_notification}
use online_banking.Ledger.{SameMoney}
use online_banking.Payments.StepUp.Fair.{CacheStep, kept, stored, deleted}
use online_banking.Auth.Types.{JwtAccessPayload, LoginDto, RequestMeta, Signing, AuthDraw}
use online_banking.Auth.Login.{login, open_session, verify_mfa}
use online_banking.Auth.Login.Laws.{login_lem}
use online_banking.Auth.Sessions.{revoke_session}
use online_banking.Cards.{
  CardDraw, IssueCardDto, own_open_card, block_card, unblock_card, issue_card, close_card,
  initiate_reveal, verify_reveal,
}
use online_banking.Payments.Steps.{by_user}
use online_banking.Beneficiaries.{
  CreateBeneficiaryDto, create_beneficiary, create_beneficiary_for, reactivate_beneficiary,
  add_beneficiary, remove_beneficiary,
}
use online_banking.Notifications.{mark_as_read, mark_all_as_read}
use online_banking.Admin.{update_kyc_status}

pub record IsQuiet (svc : Services) (w w' : World) : Type 0 where
  pub money : SameMoney w.db w'.db
  pub cache : CacheStep svc w.cache w'.cache

pub still :
    {svc : Services} {w w' : World}
    → w'.db.accounts ≡ w.db.accounts
    → w'.db.ledger_entries ≡ w.db.ledger_entries
    → w'.cache ≡ w.cache
    → IsQuiet svc w w'
still accounts entries cache = record {
  money = record { accounts = accounts; entries = entries };
  cache = kept cache;
}

pub IsQuiet-of_same : {svc : Services} {w w' : World} → w' ≡ w → IsQuiet svc w w'
IsQuiet-of_same same =
    still (ap (λ v. v.db.accounts) same) (ap (λ v. v.db.ledger_entries) same)
      (ap (λ v. v.cache) same)

-- a key is deleted, or nothing is done to the cache
CacheStep-of_cases :
    {svc : Services} {before after : Cache} (k : CacheKey)
    → (after ≡ before) ⊎ (after ≡ svc.redis.del k before)
    → CacheStep svc before after
CacheStep-of_cases k (inl same) = kept same
CacheStep-of_cases k (inr gone) = deleted k gone

module _ (svc : Services) (user_id : ℕ) (w : World) where
  pub block_card-IsQuiet :
      (card_id : ℕ) (d : CardDraw) → IsQuiet svc w (block_card svc user_id card_id d w).1
  unfolding block_card create_notification
  block_card-IsQuiet card_id d = still (ground arith) (ground arith) (ground arith)

  pub unblock_card-IsQuiet :
      (card_id : ℕ) (d : CardDraw) → IsQuiet svc w (unblock_card svc user_id card_id d w).1
  unfolding unblock_card create_notification
  unblock_card-IsQuiet card_id d = still (ground arith) (ground arith) (ground arith)

  pub issue_card-IsQuiet :
      (dto : IssueCardDto) (d : CardDraw) → IsQuiet svc w (issue_card svc user_id dto d w).1
  unfolding issue_card create_notification
  issue_card-IsQuiet dto d = still (ground arith) (ground arith) (ground arith)

  pub close_card-IsQuiet :
      (card_id : ℕ) (d : CardDraw) → IsQuiet svc w (close_card svc user_id card_id d w).1
  unfolding close_card create_notification
  close_card-IsQuiet card_id d = still (ground arith) (ground arith) (ground arith)

  pub initiate_reveal-IsQuiet :
      (card_id : ℕ) (d : CardDraw) → IsQuiet svc w (initiate_reveal svc user_id card_id d w).1
  unfolding initiate_reveal
  initiate_reveal-IsQuiet card_id d =
      elim (Option-cases (svc.prisma.find CustomerProfile (by_user user_id) w.db.profiles)) [
        | inl missing ↦ still (ground arith) (ground arith) (ground arith)
        | inr (p, found) ↦
            elim (Option-cases (svc.prisma.find Card (own_open_card card_id p.id) w.db.cards)) [
              | inl missing ↦ still (ground arith) (ground arith) (ground arith)
              | inr (card, held) ↦ record {
                money = record { accounts = ground arith; entries = ground arith };
                cache =
                    stored d.now 300 (reveal user_id card.id) (password d.otp) tt (ground arith);
              }
            ]
      ]

  pub create_beneficiary-IsQuiet :
      (dto : CreateBeneficiaryDto) (id now : ℕ)
      → IsQuiet svc w (create_beneficiary svc user_id dto id now w).1
  unfolding create_beneficiary create_beneficiary_for reactivate_beneficiary add_beneficiary
  create_beneficiary-IsQuiet dto id now = still (ground arith) (ground arith) (ground arith)

  pub remove_beneficiary-IsQuiet :
      (beneficiary_id now : ℕ)
      → IsQuiet svc w (remove_beneficiary svc user_id beneficiary_id now w).1
  unfolding remove_beneficiary
  remove_beneficiary-IsQuiet beneficiary_id now = still (ground arith) (ground arith) (ground arith)

  pub mark_as_read-IsQuiet : (id now : ℕ) → IsQuiet svc w (mark_as_read svc id user_id now w).1
  unfolding mark_as_read
  mark_as_read-IsQuiet id now = still refl refl refl

  pub mark_all_as_read-IsQuiet : (now : ℕ) → IsQuiet svc w (mark_all_as_read svc user_id now w).1
  unfolding mark_all_as_read
  mark_all_as_read-IsQuiet now = still refl refl refl

  pub update_kyc_status-IsQuiet :
      (customer_id : ℕ) (status : KycStatus) (notice_id now : ℕ)
      → IsQuiet svc w (update_kyc_status svc user_id customer_id status notice_id now w).1
  unfolding update_kyc_status create_notification
  update_kyc_status-IsQuiet customer_id status notice_id now =
      still (ground arith) (ground arith) (ground arith)

  pub revoke_session-IsQuiet :
      (session_id : ℕ) (meta : Option RequestMeta) (now : ℕ)
      → IsQuiet svc w (revoke_session svc user_id session_id meta now w).1
  unfolding revoke_session
  revoke_session-IsQuiet session_id meta now = still (ground arith) (ground arith) (ground arith)

  pub verify_reveal-IsQuiet :
      (card_id : ℕ) (otp : Text) (d : CardDraw)
      → IsQuiet svc w (verify_reveal svc user_id card_id otp d w).1
  unfolding verify_reveal
  verify_reveal-IsQuiet card_id otp d =
      elim (Option-cases (svc.prisma.find CustomerProfile (by_user user_id) w.db.profiles)) [
        | inl missing ↦ still (ground arith) (ground arith) (ground arith)
        | inr (p, found) ↦
            elim (Option-cases (svc.prisma.find Card (own_open_card card_id p.id) w.db.cards)) [
              | inl missing ↦ still (ground arith) (ground arith) (ground arith)
              | inr (card, held) ↦ record {
                money = record { accounts = ground arith; entries = ground arith };
                cache = CacheStep-of_cases (reveal user_id card.id) (ground arith);
              }
            ]
      ]

module _ (svc : Services) (signing : Signing) (d : AuthDraw) (w : World) where
  pub login-IsQuiet : (dto : LoginDto) → IsQuiet svc w (login svc signing dto d w).1
  login-IsQuiet dto = elim (login_lem svc signing d w dto) [
    | inr refused ↦ rw refused (still refl refl refl)
    | inl (r, w', h, c) ↦ rw h (record {
      money = record { accounts = rw c.db refl; entries = rw c.db refl };
      cache = stored d.now 300 (mfa c.known.user.id) (password d.otp) tt c.cache;
    })
  ]

  pub verify_mfa-IsQuiet :
      (payload : JwtAccessPayload) (otp : Text) (meta : Option RequestMeta)
      → IsQuiet svc w (verify_mfa svc signing payload otp meta d w).1
  unfolding verify_mfa open_session
  verify_mfa-IsQuiet payload otp meta = record {
    money = record { accounts = ground arith; entries = ground arith };
    cache = CacheStep-of_cases (mfa payload.sub) (ground arith);
  }
