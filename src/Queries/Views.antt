-- ===== src/Queries/Views.antt =====
-- What the reading methods select of a row, and their `where` clauses.
use online_banking.Base.{ℕ, Bool, false, not, ◌&&◌, Option, none, some, List, ◌==◌, String}
use mathlib.Core.Option.{map as map_option}
use online_banking.Base.Int.{ℤ}
use online_banking.Base.Text.{Text}
use online_banking.Schema.{
  Account, AccountStatus, Beneficiary, beneficiary_is_active, Transaction, TransactionType,
  TransactionStatus, LedgerEntry, LedgerSide, Merchant, Card, CardType, CardStatus, card_is_closed,
}

pub record AccountView : Type 0 where
  pub id : ℕ
  pub iban : Text
  pub currency : Text
  pub available_balance : ℤ
  pub account_type : String
  pub status : AccountStatus
  pub opened_at : ℕ

abbrev pub account_view : Account → AccountView
account_view a = record {
  id = a.id;
  iban = a.iban;
  currency = a.currency;
  available_balance = a.available_balance;
  account_type = a.account_type;
  status = a.status;
  opened_at = a.opened_at;
}

-- `where: { customerId, isSystem: false }`
abbrev pub customers_account : ℕ → Account → Bool
customers_account customer_id a = a.customer_id == customer_id && not a.is_system

pub record TransactionView : Type 0 where
  pub id : ℕ
  pub type : TransactionType
  pub status : TransactionStatus
  pub amount : ℤ
  pub currency : Text
  pub from_account_id : Option ℕ
  pub to_account_id : Option ℕ
  pub description : Option Text
  pub created_at : ℕ

abbrev pub transaction_view : Transaction → TransactionView
transaction_view t = record {
  id = t.id;
  type = t.type;
  status = t.status;
  amount = t.amount;
  currency = t.currency;
  from_account_id = t.from_account_id;
  to_account_id = t.to_account_id;
  description = t.description;
  created_at = t.created_at;
}

-- a nullable column that has a value
abbrev is_id : ℕ → Option ℕ → Bool
is_id id none = false
is_id id (some x) = x == id

abbrev pub customers_transaction : ℕ → Transaction → Bool
customers_transaction customer_id t = is_id customer_id t.customer_id

-- an entry of a transaction; its own id is left out, as in its row
pub record EntryView : Type 0 where
  pub account_id : ℕ
  pub side : LedgerSide
  pub amount : ℤ
  pub currency : Text
  pub created_at : ℕ

abbrev pub entry_of : LedgerEntry → EntryView
entry_of e = record {
  account_id = e.account_id;
  side = e.side;
  amount = e.amount;
  currency = e.currency;
  created_at = e.created_at;
}

pub record TransactionDetails : Type 0 where
  pub transaction : TransactionView
  pub ledger_entries : List EntryView

pub record BeneficiaryView : Type 0 where
  pub id : ℕ
  pub display_name : Text
  pub alias : Option Text
  pub iban : Text
  pub created_at : ℕ

abbrev pub beneficiary_view : Beneficiary → BeneficiaryView
beneficiary_view b = record {
  id = b.id;
  display_name = b.display_name;
  alias = b.alias;
  iban = b.iban;
  created_at = b.created_at;
}

abbrev pub active_beneficiary : ℕ → Beneficiary → Bool
active_beneficiary customer_id b = b.customer_id == customer_id && beneficiary_is_active b.status

pub record MerchantView : Type 0 where
  pub id : ℕ
  pub name : Text
  pub merchant_code : String
  pub category : String

abbrev pub merchant_view : Merchant → MerchantView
merchant_view m = record {
  id = m.id;
  name = m.name;
  merchant_code = m.merchant_code;
  category = m.category;
}

pub record CardAccount : Type 0 where
  pub id : ℕ
  pub iban : Text
  pub account_type : String
  pub currency : Text

pub record CardView : Type 0 where
  pub id : ℕ
  pub masked_pan : Text
  pub card_type : CardType
  pub status : CardStatus
  pub account : Option CardAccount

abbrev pub card_account : Account → CardAccount
card_account a = record {
  id = a.id;
  iban = a.iban;
  account_type = a.account_type;
  currency = a.currency;
}

abbrev pub card_view : Card → Option Account → CardView
card_view c account = record {
  id = c.id;
  masked_pan = c.masked_pan;
  card_type = c.card_type;
  status = c.status;
  account = map_option card_account account;
}

abbrev pub open_card : ℕ → Card → Bool
open_card customer_id c = c.customer_id == customer_id && not (card_is_closed c.status)
