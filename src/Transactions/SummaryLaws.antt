-- ===== src/Transactions/SummaryLaws.antt =====
-- The series of `getWalletSummary` (transactions.service.ts) against its total.
use coloanex_prod.Common.{
  All, Bool, Bool-cases, List, Option, [], arith, filter, if◌then◌else◌, inl, inr, leb, length, ltb,
  none, refl, some, true, ℕ, ◌&&◌, ◌+◌, ◌<◌, ◌∷◌, ◌≡◌, ◌≤◌,
}
use coloanex_prod.Db.{Transaction, Db}
use coloanex_prod.Transactions.Summary.{
  counts_of, in_bucket, summary_with, WalletSummary, get_wallet_summary, wallet_transactions,
  concerns,
}
use coloanex_prod.Transactions.BucketLaws.{
  Chain, IsCalendar, CoversRange, build_wallet_buckets-CoversRange,
}
use coloanex_prod.Transactions.Buckets.{
  DateInput, Bucket, resolve_wallet_range, Months, build_wallet_buckets, Range,
}
use coloanex_prod.Service.{JwtPayload}

pub resolve_wallet_range_le :
    (now : ℕ) (start_date end_date : DateInput)
    → (resolve_wallet_range now start_date end_date).start
      ≤ (resolve_wallet_range now start_date end_date).stop
unfolding resolve_wallet_range
resolve_wallet_range_le now start_date end_date = ground arith

abbrev pub sum_of : List ℕ → ℕ
sum_of [] = 0
sum_of (n ∷ ns) = n + sum_of ns

-- How many buckets an instant is in.
abbrev hits : Transaction → List Bucket → ℕ
hits t [] = 0
hits t (b ∷ bs) = (if in_bucket b t then 1 else 0) + hits t bs

hits_before :
    (t : Transaction) (from to : ℕ) (bs : List Bucket)
    → Chain from bs to
    → t.created_at < from
    → hits t bs ≡ 0
hits_before t from to [] c h = refl
hits_before t from to (b ∷ bs) c h =
    let later : hits t bs ≡ 0 =
      hits_before t b.stop to bs c.2
        (let e : b.start ≡ from = c.0 in let k : b.start < b.stop = c.1 in omega arith) in
    let e : b.start ≡ from = c.0 in ground arith

-- An instant between the ends of a chain is in exactly one bucket.
hits_once :
    (t : Transaction) (from to : ℕ) (bs : List Bucket)
    → Chain from bs to
    → from ≤ t.created_at
    → t.created_at < to
    → hits t bs ≡ 1
hits_once t from to [] c h k = let e : from ≡ to = c in omega arith
hits_once t from to (b ∷ bs) c h k = elim (Bool-cases (ltb t.created_at b.stop)) [
  | inl here ↦
      let later : hits t bs ≡ 0 = hits_before t b.stop to bs c.2 (ground arith) in
      let e : b.start ≡ from = c.0 in ground arith
  | inr there ↦
      let later : hits t bs ≡ 1 = hits_once t b.stop to bs c.2 (ground arith) k in ground arith
]

counts_nil : (bs : List Bucket) → sum_of (counts_of [] bs) ≡ 0
counts_nil [] = refl
counts_nil (b ∷ bs) = let later : _ ≡ _ = counts_nil bs in omega arith

counts_cons :
    (t : Transaction) (ts : List Transaction) (bs : List Bucket)
    → sum_of (counts_of (t ∷ ts) bs) ≡ hits t bs + sum_of (counts_of ts bs)
counts_cons t ts [] = refl
counts_cons t ts (b ∷ bs) = let later : _ ≡ _ = counts_cons t ts bs in ground arith

counts_total :
    (from to : ℕ) (bs : List Bucket) (ts : List Transaction)
    → Chain from bs to
    → All (λ t. (from ≤ t.created_at) × (t.created_at < to)) ts
    → sum_of (counts_of ts bs) ≡ length ts
counts_total from to bs [] c h = counts_nil bs
counts_total from to bs (t ∷ ts) c h =
    let once : hits t bs ≡ 1 = hits_once t from to bs c h.0.0 h.0.1 in
    let later : _ ≡ _ = counts_total from to bs ts c h.1 in
    let split : _ ≡ _ = counts_cons t ts bs in omega arith

starts_in :
    (user : JwtPayload) (r : Range) (t : Transaction) (from : ℕ)
    → from ≤ r.start
    → (leb r.start t.created_at && (leb t.created_at r.stop && concerns user t)) ≡ true
    → from ≤ t.created_at
starts_in user r t from h hit = ground arith

ends_in :
    (user : JwtPayload) (r : Range) (t : Transaction) (to : ℕ)
    → r.stop < to
    → (leb r.start t.created_at && (leb t.created_at r.stop && concerns user t)) ≡ true
    → t.created_at < to
ends_in user r t to k hit = ground arith

-- The rows of the query lie between the ends of its buckets.
rows_between :
    (user : JwtPayload) (r : Range) (from to : ℕ) (ts : List Transaction)
    → from ≤ r.start
    → r.stop < to
    → All
        (λ t. (from ≤ t.created_at) × (t.created_at < to))
        (filter (λ t. leb r.start t.created_at && (leb t.created_at r.stop && concerns user t)) ts)
rows_between user r from to [] h k = tt
rows_between user r from to (t ∷ ts) h k =
    let p : Transaction → Bool =
      λ x. leb r.start x.created_at && (leb x.created_at r.stop && concerns user x) in
    let later : All _ _ = rows_between user r from to ts h k in
    elim (Bool-cases (p t)) [
      | inr out ↦ rw out later
      | inl hit ↦ rw hit ((starts_in user r t from h hit, ends_in user r t to k hit), later)
    ]

-- A summary whose series of counts adds up to its number of transactions.
abbrev pub CountsUp : Option WalletSummary → Type 0
CountsUp none = ⊥
CountsUp (some s) = sum_of s.total_transactions_series ≡ s.total_transactions

summary_with-CountsUp :
    (user : JwtPayload) (r : Range) (d : Db) (bs : Option (List Bucket))
    → CoversRange r.start r.stop bs
    → CountsUp (summary_with user (wallet_transactions user r d) bs)
unfolding wallet_transactions
summary_with-CountsUp user r d none c = c
summary_with-CountsUp user r d (some bs) (from, to, chain, h, k) =
    counts_total from to bs (wallet_transactions user r d) chain
      (rows_between user r from to d.transactions h k)

-- Whatever the caller and the dates of the query, missing and unreadable ones included, and with a
-- calendar of months, `getWalletSummary` ends with a summary, and its series of counts over the
-- buckets adds up to its number of transactions: every transaction of the range is in one bucket.
pub get_wallet_summary-CountsUp :
    (now : ℕ) (months : Months) (user : JwtPayload) (start_date end_date : DateInput) (d : Db)
    → IsCalendar months
    → CountsUp (get_wallet_summary now months user start_date end_date d)
unfolding get_wallet_summary
get_wallet_summary-CountsUp now months user start_date end_date d calendar =
    let r : Range = resolve_wallet_range now start_date end_date in
    summary_with-CountsUp user r d (build_wallet_buckets months r.start r.stop) (
      build_wallet_buckets-CoversRange months r.start r.stop calendar
        (resolve_wallet_range_le now start_date end_date))
