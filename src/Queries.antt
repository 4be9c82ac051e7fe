-- ===== src/Queries.antt =====
-- The methods that only read: backend/src/accounts/accounts.service.ts,
-- backend/src/transactions/transactions.service.ts, `findActive` of backend/src/merchants,
-- `findByUser` of backend/src/beneficiaries, `getCards` of backend/src/cards, `findAllForUser` of
-- backend/src/notifications and `getCustomers` of backend/src/admin. A record holds what a `select` asks
-- for. A row's `account` or `user` is the one that its foreign key names.
pub mod Views
pub mod Own
pub mod Customers
use online_banking.Base.{
  ℕ, Bool, true, false, not, ◌&&◌, ◌||◌, Option, none, some, List, [], map, not_found, ok, gets,
  pure, leb, ◌==◌, ◌>>=◌, String,
}
use online_banking.Base.Int.{ℤ}
use online_banking.Base.Text.{Text}
use online_banking.Schema.{
  Db, CustomerProfile, KycStatus, Account, AccountStatus, Beneficiary, beneficiary_is_active,
  Transaction, TransactionType, TransactionStatus, LedgerEntry, LedgerSide, Merchant,
  merchant_is_active, Card, CardType, CardStatus, card_is_closed, Notification, User,
}
use online_banking.Services.{Services, Service}
use online_banking.Services.Statements.{find_or_throw}
use online_banking.Prisma.Statements.{Table, transaction_table}
use online_banking.Payments.Steps.{by_user, with_account_id}
use online_banking.Cards.{profile_table}
use online_banking.Queries.Views.{
  AccountView, account_view, customers_account, TransactionView, transaction_view,
  customers_transaction, EntryView, entry_of, TransactionDetails, BeneficiaryView, beneficiary_view,
  active_beneficiary, MerchantView, merchant_view, CardAccount, CardView, card_account, card_view,
  open_card,
}

-- no `orderBy`
abbrev pub any_order : {R : Type 0} → R → R → Bool
any_order a b = true

module _ (svc : Services) where
  abbrev profile_id : ℕ → Service ℕ
  profile_id user_id = do
    p ← find_or_throw svc profile_table (by_user user_id) (not_found "Customer profile not found")
    pure p.id

  -- `AccountsService.findByUser`
  unfoldable pub accounts_of : ℕ → Service (List AccountView)
  accounts_of user_id w = elim (svc.prisma.find CustomerProfile (by_user user_id) w.db.profiles) [
    | none ↦ (ok [], w)
    | some p ↦ (
      ok (
          map account_view (
            svc.prisma.find_many Account (customers_account p.id)
              (λ a b. leb a.opened_at b.opened_at) w.db.accounts)),
      w,
    )
  ]

  -- `TransactionsService.findByUser`
  unfoldable pub transactions_of : ℕ → Service (List TransactionView)
  transactions_of user_id = do
    customer_id ← profile_id user_id
    gets (λ w. map transaction_view (
        svc.prisma.find_many Transaction (customers_transaction customer_id)
          (λ a b. leb b.created_at a.created_at) w.db.transactions))

  -- `TransactionsService.findOneByUser`
  unfoldable pub transaction_of : ℕ → ℕ → Service TransactionDetails
  transaction_of user_id id = do
    customer_id ← profile_id user_id
    t ←
        find_or_throw svc transaction_table (λ t. t.id == id && customers_transaction customer_id t)
          (not_found "Transaction not found")
    entries ← gets (λ w.
        svc.prisma.find_many LedgerEntry (λ e. e.transaction_id == t.id)
          (λ a b. leb a.sequence b.sequence) w.db.ledger_entries)
    pure (record { transaction = transaction_view t; ledger_entries = map entry_of entries })

  -- `BeneficiariesService.findByUser`
  unfoldable pub beneficiaries_of : ℕ → Service (List BeneficiaryView)
  beneficiaries_of user_id = do
    customer_id ← profile_id user_id
    gets (λ w. map beneficiary_view (
        svc.prisma.find_many Beneficiary (active_beneficiary customer_id)
          (λ a b. leb b.created_at a.created_at) w.db.beneficiaries))

  -- `MerchantsService.findActive`; `before` is the database's order of names
  unfoldable pub active_merchants : (before : Text → Text → Bool) → Service (List MerchantView)
  active_merchants before = gets (λ w. map merchant_view (
      svc.prisma.find_many Merchant (λ m. merchant_is_active m.status) (λ a b. before a.name b.name)
        w.db.merchants))

  -- `CardsService.getCards`
  unfoldable pub get_cards : ℕ → Service (List CardView)
  get_cards user_id w = elim (svc.prisma.find CustomerProfile (by_user user_id) w.db.profiles) [
    | none ↦ (ok [], w)
    | some p ↦ (
      ok (
          map
            (λ c.
              card_view c (svc.prisma.find Account (with_account_id c.account_id) w.db.accounts))
            (svc.prisma.find_many Card (open_card p.id) any_order w.db.cards)),
      w,
    )
  ]

  -- `NotificationsService.findAllForUser`
  unfoldable pub notifications_of : ℕ → Service (List Notification)
  notifications_of user_id = gets (λ w.
      svc.prisma.find_many Notification (λ n. n.user_id == user_id)
        (λ a b. leb b.created_at a.created_at) w.db.notifications)
