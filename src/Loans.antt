-- ===== src/Loans.antt =====
-- coloanex-api/src/loans/loans.service.ts: the loans, from their application to their review.
pub mod Apply
pub mod Change
pub mod Review
pub mod Posting
pub mod Guards
pub mod PaymentLaws
pub mod ReviewLaws
pub mod ReviewOutcome
pub mod Removal
