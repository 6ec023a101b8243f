-- ===== src/Transactions.antt =====
-- coloanex-api/src/transactions/transactions.service.ts: transactions by hand, their status, and the
-- summary of a wallet.
pub mod Record
pub mod Buckets
pub mod BucketLaws
pub mod Summary
pub mod SummaryLaws
pub mod RecordLaws
pub mod Posting
