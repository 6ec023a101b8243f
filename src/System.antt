-- ===== src/System.antt =====
-- The requests of coloanex-api on loans, contracts, payments and transactions, one after another.
pub mod Requests
pub mod Permits
pub mod Reachable
