-- ===== src/Queries/Own.antt =====
-- What a user is shown of the tables.
use online_banking.Base.{
  ℕ, ◌≡◌, refl, Bool, true, some, ok, List, map, Memᴰ, All, All-of_members, count, ◌&&◌, Result,
  leb, arith,
}
use online_banking.Schema.{CustomerProfile, Account}
use online_banking.Prisma.{Prisma}
use online_banking.Services.{Services, World}
use online_banking.Payments.Steps.{by_user, with_account_id}
use online_banking.Queries.Views.{
  account_view, customers_account, transaction_view, customers_transaction, beneficiary_view,
  active_beneficiary, card_view, open_card,
}
use online_banking.Queries.{accounts_of, transactions_of, beneficiaries_of, get_cards}

-- The answer shows rows of the table: only those that satisfy a test, and each of them as often as the
-- table has it.
pub record Shows {R V : Type 0} (own : R → Bool) (view : R → V) (table : List R) (w : World)
    (out : Result (List V) × World) : Type 0 where
  pub rows : List R
  pub shown : out ≡ (ok (map view rows), w)
  pub owned : All (λ r. own r ≡ true) rows
  pub listed : All (λ r. Memᴰ r table) rows
  pub complete : (q : R → Bool) → count q rows ≡ count (λ r. own r && q r) table

find_many-Shows :
    {R V : Type 0} (prisma : Prisma) (own : R → Bool) (before : R → R → Bool) (view : R → V)
    (table : List R) (w : World) (out : Result (List V) × World)
    → out ≡ (ok (map view (prisma.find_many R own before table)), w)
    → Shows own view table w out
find_many-Shows {R} prisma own before view table w out e = record {
  rows = prisma.find_many R own before table;
  shown = e;
  owned = prisma.find_many_holds R own before table;
  listed =
      prisma.find_many_among R (λ r. Memᴰ r table) own before table
        (All-of_members (λ r. Memᴰ r table) table (λ a m. m));
  complete = λ q. prisma.find_many_count R own q before table;
}

-- A user with a customer profile is shown the accounts of the customer that are no system accounts, the
-- customer's transactions, active payees and cards that are not closed, each of them and nothing else;
-- and reading changes nothing.
pub queries-Shows :
    (svc : Services) (user_id : ℕ) (w : World) (p : CustomerProfile)
    → svc.prisma.find CustomerProfile (by_user user_id) w.db.profiles ≡ some p
    → Shows (customers_account p.id) account_view w.db.accounts w (accounts_of svc user_id w)
      × Shows
          (customers_transaction p.id)
          transaction_view
          w.db.transactions
          w
          (transactions_of svc user_id w)
      × Shows
          (active_beneficiary p.id)
          beneficiary_view
          w.db.beneficiaries
          w
          (beneficiaries_of svc user_id w)
      × Shows
          (open_card p.id)
          (λ c. card_view c (svc.prisma.find Account (with_account_id c.account_id) w.db.accounts))
          w.db.cards
          w
          (get_cards svc user_id w)
unfolding accounts_of transactions_of beneficiaries_of get_cards
queries-Shows svc user_id w p found = (
  find_many-Shows svc.prisma (customers_account p.id) (λ a b. leb a.opened_at b.opened_at)
      account_view w.db.accounts w _ (rw (found, accounts_of) refl),
  find_many-Shows svc.prisma (customers_transaction p.id) (λ a b. leb b.created_at a.created_at)
      transaction_view w.db.transactions w _ (ground arith),
  find_many-Shows svc.prisma (active_beneficiary p.id) (λ a b. leb b.created_at a.created_at)
      beneficiary_view w.db.beneficiaries w _ (ground arith),
  find_many-Shows svc.prisma (open_card p.id) (λ a b. true)
      (λ c. card_view c (svc.prisma.find Account (with_account_id c.account_id) w.db.accounts))
      w.db.cards w _ (rw (found, get_cards) refl),
)
