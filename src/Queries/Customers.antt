-- ===== src/Queries/Customers.antt =====
-- `getCustomers` of backend/src/admin/admin.service.ts: the customers with no account, or with one that
-- is no system account, and their accounts that are none.
use online_banking.Base.{ℕ, Bool, ◌||◌, Option, List, map, gets, leb, ltb, count, ◌==◌, String}
use mathlib.Core.Option.{map as map_option}
use online_banking.Base.Int.{ℤ}
use online_banking.Base.Text.{Text}
use online_banking.Schema.{Db, CustomerProfile, KycStatus, Account, AccountStatus, User}
use online_banking.Services.{Services, Service}
use online_banking.Auth.Login.{has_user_id}
use online_banking.Queries.{any_order}
use online_banking.Queries.Views.{customers_account}

pub record CustomerAccount : Type 0 where
  pub id : ℕ
  pub iban : Text
  pub account_type : String
  pub status : AccountStatus
  pub available_balance : ℤ
  pub currency : Text

abbrev customer_account : Account → CustomerAccount
customer_account a = record {
  id = a.id;
  iban = a.iban;
  account_type = a.account_type;
  status = a.status;
  available_balance = a.available_balance;
  currency = a.currency;
}

-- the user is the one that the foreign key names
pub record CustomerView : Type 0 where
  pub id : ℕ
  pub user_id : Option ℕ
  pub email : Option Text
  pub full_legal_name : Text
  pub kyc_status : KycStatus
  pub verified_at : Option ℕ
  pub created_at : ℕ
  pub accounts : List CustomerAccount

-- the `OR` of the `where` clause
abbrev listed_customer : List Account → CustomerProfile → Bool
listed_customer accounts p =
    count (λ a. a.customer_id == p.id) accounts == 0
    || ltb 0 (count (customers_account p.id) accounts)

module _ (svc : Services) where
  abbrev customer_view : Db → CustomerProfile → CustomerView
  customer_view db p =
      let user = svc.prisma.find User (has_user_id p.user_id) db.users in
      record {
        id = p.id;
        user_id = map_option (λ u. u.id) user;
        email = map_option (λ u. u.email) user;
        full_legal_name = p.full_legal_name;
        kyc_status = p.kyc_status;
        verified_at = p.verified_at;
        created_at = p.created_at;
        accounts =
            map customer_account
              (svc.prisma.find_many Account (customers_account p.id) any_order db.accounts);
      }

  unfoldable pub get_customers : Service (List CustomerView)
  get_customers = gets (λ w. map (customer_view w.db) (
      svc.prisma.find_many CustomerProfile (listed_customer w.db.accounts)
        (λ a b. leb b.created_at a.created_at) w.db.profiles))
