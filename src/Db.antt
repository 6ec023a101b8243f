-- ===== src/Db.antt =====
-- The database of coloanex-api (prisma/schema.prisma): the tables that the modelled services read
-- and write, and the calls of the Prisma client on one table.
mod Rows
mod Table
mod Handler
pub mod Membership
pub mod Latest
pub use Rows.*
pub use Table.*
unfoldable pub use Handler.*
