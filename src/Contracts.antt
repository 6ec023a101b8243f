-- ===== src/Contracts.antt =====
-- coloanex-api/src/contracts: from the terms of a loan to its payment schedule, and the life of a
-- contract from draft to disbursement.
pub mod Rounding
pub mod Installments
pub mod Schedule
pub mod Totals
pub mod Exactness
pub mod Drafting
pub mod Editing
pub mod Removed
pub mod ScheduleOnce
pub mod Signing
pub mod SigningOutcome
pub mod SigningOrder
pub mod Disbursing
pub mod DisbursingLaws
pub mod DisbursingOrder
pub mod Ledger
pub mod LedgerLaws
pub mod Posting
pub mod Drafts
pub mod Edits
pub mod Signatures
pub mod DraftingLaws
pub mod GenerateLaws
pub mod Activation
pub mod Listing
pub mod ListingLaws
