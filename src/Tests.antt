-- ===== src/Tests.antt =====
-- Test runs, and the theorems applied to concrete inputs.
mod Payments
mod Money
mod Requests
mod Customers
mod Offices
mod Access
mod Sessions
mod Books
mod Server
