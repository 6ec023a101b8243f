-- ===== src/Orchestrator.antt =====
-- coloanex-api/src/transaction-orchestrator: who pays the gas of a transaction, and whether the user
-- may make it.
pub mod Gas
pub mod Usage
pub mod Subscriptions
pub mod Policy
pub mod Wallets
pub mod WalletLaws
pub mod Decide
pub mod Eligible
pub mod Backing
pub mod Frame
pub mod Guarantees
pub mod Quota
