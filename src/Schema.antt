-- ===== src/Schema.antt =====
-- The database of backend/prisma/schema.prisma: its enums and rows, JSON columns, and the state
-- that the services share.
mod Enums
mod Rows
pub mod Json
pub use Enums.*
pub use Rows.*
