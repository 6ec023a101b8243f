-- ===== src/Rules.antt =====
-- coloanex-api/src/rules: the rules by which a tenant lends.
pub mod Service
pub mod Ownership
