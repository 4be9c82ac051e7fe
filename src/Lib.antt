-- ===== src/Lib.antt =====
-- A verification library for the online-banking backend (backend/src), a NestJS service that keeps
-- accounts in a relational database through Prisma and one-time secrets in Redis.
--
-- The program. Requests reach a service with the claims of the user's token. The payment service
-- (backend/src/payments/payments.service.ts) checks the customer, asks for a one-time password above
-- a threshold, and then runs one serializable transaction, up to five times: it claims the request's
-- idempotency key, debits one account, credits another, writes the transaction with its two ledger
-- entries, the audit event and a notification, and completes the key with the response. The card
-- service (backend/src/cards) and the beneficiary service (backend/src/beneficiaries) write rows
-- directly. Services meet in the tables and in the cache: a payment above the threshold leaves a
-- challenge there that `confirmStepUp` takes up, with the fraud check skipped. A user signs in in two
-- steps (backend/src/auth): a password gives a token without MFA, a one-time password from the cache a
-- session and a token that names it. The controllers put guards and the checks of a body before a
-- service's method.
--
-- The files.
-- - Base: shared names; Base/Lists has tables as lists (count, patch), Base/Actions the methods that
--   read and write a state and may throw, Base/Int the integers, Base/Text JavaScript strings as
--   lists of code points with `trim` and `toUpperCase` on ASCII.
-- - Schema: the rows, enums and JSON values of backend/prisma/schema.prisma.
-- - Prisma: the database client as an interface of operations and laws. Prisma/Tx has a transaction's
--   callback and how running one may end: commit, rollback, or given up by the database; what is
--   written beside `tx` survives. Prisma/Memory and Redis/Memory are implementations in memory.
-- - Redis: the cache as an interface, keys that expire. Services: what all services are given, and
--   the state `World` that they share; Services/Statements has statements outside a transaction.
-- - Ledger: what soundness of the money is, and its lemmas. The money of a database is
--   sound relative to the balances before its first entry.
-- - Payments: Types and Payloads have the requests, responses, hashes and stored payloads; Steps the
--   statements that the three transactions share and the retry loop; Fraud `runMockFraudCheck` and
--   the first guards; Transfer, ToBeneficiary and PayMerchant one payment each, with the transaction
--   `execute…Tx` (Existing and ToBeneficiary/Rows have what it looks for, Effect is about a
--   committed one, Guarantee about a request); StepUp `confirmStepUp`. Outcome says how a
--   payment may end, Replays is about the answers of existing keys, Retries and Guarantee carry a
--   transaction's effect through the loop and the guards.
--   StepUp/Fair and StepUp/Stores are about the amounts that wait in the cache, StepUp/Flow about a
--   payment that is stopped and then confirmed.
-- - Auth: Types has the bodies and the interface to hashing and signing, Login, Register and Sessions
--   are `AuthService`, Guards the guards and `JwtStrategy`; their Laws are beside them.
-- - Admin: `AdminService`; Admin/Credit is `creditAccount`, Admin/Audit `getAuditEvents`
--   (Matches says what a filter asks for).
-- - Statements: `StatementsService`; Sums is about sums of entries, Balances about the texts of a
--   statement's numbers, Meaning about what a statement says. Numbers: the floating-point numbers of
--   JavaScript that a statement is added up in, as an interface with the rounding of each operation.
-- - Notifications, Cards, Beneficiaries: the services of those names. Queries: the methods that only
--   read, of all services; Queries/Views has what they select.
-- - Http: the controllers. Bodies is what the decorators of backend/src/*/dto ask for, Payments, Users
--   and Reads the methods (`transfer_request` is `PaymentsController.transfer`, and so on), Access is
--   about tokens; Safety has a step for every request, and what sequences of them keep.
-- - Fixtures and Tests: a small bank on which operations run and the theorems are applied.
--
-- Numbers. An amount of money is an integer number of ten-thousandths (`Decimal(19, 4)`), without
-- the column's bound. Ids are numbers; a time is a number of milliseconds, a lifetime of a cached
-- value a number of seconds. A statement's numbers are right for accounts whose entries add up to
-- at most 7.5 thousand million, where a double's rounding stays below half of a ten-thousandth.
-- The retry loop counts its rounds down from five, the source's constant; a round calls the
-- transaction once, so no more fuel is needed.
--
-- Not modelled. The digest, the printing of decimals and of ids, password hashing, tokens, the
-- reading of dates and numbers, the random numbers, the clock and the ids of new rows are
-- parameters. A serializable transaction is taken to run as a whole on the database it begins
-- with. The metadata of audit events and the texts of KYC exceptions beyond their code are left
-- out, as are log lines. Throttling, the parsing of requests and the form of an address are
-- libraries'. The seed of the database, the frontend and the legacy demonstration are not
-- modelled.
pub mod Base
pub mod Prisma
pub mod Schema
pub mod Redis
pub mod Services
pub mod Ledger
pub mod Auth
pub mod Payments
pub mod Cards
pub mod Beneficiaries
pub mod Notifications
pub mod Numbers
pub mod Admin
pub mod Statements
pub mod Queries
pub mod Http
pub mod Fixtures
pub mod Tests
