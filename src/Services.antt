-- ===== src/Services.antt =====
-- What the services are given: the database client, the Redis client and the other libraries'
-- functions; and the state that they share.
pub mod Statements
use online_banking.Base.{ℕ, Exec, Result}
use online_banking.Schema.{Db}
use online_banking.Prisma.{Prisma}
use online_banking.Prisma.Tx.{Transactions}
use online_banking.Redis.{Redis, Cache}
use online_banking.Payments.Types.{Formats}
use online_banking.Numbers.{Numbers}

pub record Services : Type 1 where
  pub prisma : Prisma
  pub transactions : Transactions
  pub redis : Redis
  pub formats : Formats
  pub numbers : Numbers

pub record World : Type 0 where
  pub db : Db
  pub cache : Cache

abbrev pub Service : Type 0 → Type 0
Service A = Exec World A

-- What the database and the generators of random values supply in one attempt at a request: the ids
-- of the rows that it creates, and the time.
pub record Draw : Type 0 where
  pub key_id : ℕ
  pub transaction_id : ℕ
  pub notice_id : ℕ
  pub second_notice_id : ℕ
  pub now : ℕ

-- a step on the database alone
abbrev pub on_db : {A : Type 0} → (Db → Result A × Db) → Service A
on_db f w = let (r, db) = f w.db in (r, record w { db = db })
