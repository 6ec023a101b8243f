-- ===== src/Tests.antt =====
-- A small database and requests on it, and the properties at these.
pub mod Data
pub mod Orchestration
pub mod Lending
pub mod Billing
pub mod Reviews
pub mod Summaries
pub mod Plans
pub mod Rules
