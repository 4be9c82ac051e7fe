-- ===== src/Auth.antt =====
-- Sign-in, sessions and access control (backend/src/auth).
pub mod Types
pub mod Login
pub mod Register
pub mod Sessions
pub mod Guards
