-- ===== src/Wallets.antt =====
-- coloanex-api/src/wallets: the wallets that a user links, and the mode in which gas is paid.
pub mod Service
pub mod Changes
pub mod Counts
pub mod Primary
pub mod Unique
