-- ===== src/Transactions/BucketLaws.antt =====
-- The buckets of a wallet's summary (transactions.service.ts, `buildWalletBuckets`) follow each other
-- and cover the range.
use coloanex_prod.Common.{
  Bool-cases, List, Option, [], arith, inl, inr, leb, ltb, none, refl, some, subst, suc, sym, zero,
  ℕ, ◌*◌, ◌+◌, ◌-◌, ◌<◌, ◌∷◌, ◌≡◌, ◌≤◌,
}
use coloanex_prod.Transactions.Buckets.{
  Months, Bucket, in_front, bucket_loop, buckets_by, hour_ms, build_wallet_buckets, fuel_for,
  day_in_ms,
}

-- Buckets that follow each other without a gap, from one instant to another, none empty.
abbrev pub Chain : ℕ → List Bucket → ℕ → Type 0
Chain from [] to = from ≡ to
Chain from (b ∷ bs) to = (b.start ≡ from) × (b.start < b.stop) × Chain b.stop bs to

-- What the code relies on of the calendar: an instant lies in its month, months follow each other,
-- and an earlier month is over before a later one starts.
pub record IsCalendar (m : Months) : Type 0 where
  pub starts : (t : ℕ) → m.month_start t ≤ t
  pub goes_on : (t : ℕ) → t < m.next_month t
  pub lands : (t : ℕ) → m.month_start (m.next_month t) ≡ m.next_month t
  pub settles : (t : ℕ) → m.month_start (m.month_start t) ≡ m.month_start t
  pub ordered : (s t : ℕ) → m.month_start s < m.month_start t → s < m.month_start t

-- How a loop ends: with buckets from the cursor to an instant past the last one, where the loop can
-- stand.
abbrev Covers : (ℕ → Type 0) → ℕ → ℕ → Option (List Bucket) → Type 0
Covers P from last none = ⊥
Covers P from last (some bs) = (to : ℕ) × P to × Chain from bs to × (last < to)

module _ (P : ℕ → Type 0) where
  in_front-Covers :
      (cursor next last : ℕ) (r : Option (List Bucket))
      → cursor < next
      → Covers P next last r
      → Covers P cursor last (in_front (record { start = cursor; stop = next }) r)
  in_front-Covers cursor next last none h c = c
  in_front-Covers cursor next last (some bs) h (to, p, chain, later) =
      (to, p, (refl, h, chain), later)

  module _ (next : ℕ → ℕ) (last : ℕ) (goes_on : (t : ℕ) → t < next t)
      (lands : (t : ℕ) → P (next t)) where
    bucket_loop-Covers :
        (fuel cursor : ℕ)
        → last + 2 ≤ fuel + cursor
        → 0 < fuel
        → P cursor
        → Covers P cursor last (bucket_loop fuel next cursor last)
    unfolding bucket_loop
    bucket_loop-Covers zero cursor enough h p = omega arith
    bucket_loop-Covers (suc fuel) cursor enough h p = elim (Bool-cases (leb cursor last)) [
      | inr over ↦ rw over (cursor, p, refl, ground arith)
      | inl goes ↦ rw goes (
          in_front-Covers cursor (next cursor) last (bucket_loop fuel next (next cursor) last)
            (goes_on cursor)
            (let g : _ < _ = goes_on cursor in
              let k : cursor ≤ last = ground arith in
              bucket_loop-Covers fuel (next cursor) (omega arith) (omega arith) (lands cursor)))
    ]

    buckets_by-Covers :
        (first : ℕ) → first ≤ last → P first → Covers P first last (buckets_by next first last)
    buckets_by-Covers first h p =
        bucket_loop-Covers (fuel_for first last) first (omega arith) (omega arith) p

-- Buckets without a gap from no later than the start to past the end.
abbrev pub CoversRange : ℕ → ℕ → Option (List Bucket) → Type 0
CoversRange start end none = ⊥
CoversRange start end (some bs) =
    (from : ℕ) × (to : ℕ) × Chain from bs to × (from ≤ start) × (end < to)

CoversRange-of_Covers :
    (P : ℕ → Type 0) (from last start end : ℕ) (r : Option (List Bucket))
    → Covers P from last r
    → from ≤ start
    → ((to : ℕ) → P to → last < to → end < to)
    → CoversRange start end r
CoversRange-of_Covers P from last start end none c h k = c
CoversRange-of_Covers P from last start end (some bs) (to, p, chain, later) h k =
    (from, to, chain, h, k to p later)

month_le :
    (months : Months)
    → IsCalendar months
    → (start end : ℕ) → start ≤ end
    → months.month_start start ≤ months.month_start end
month_le months calendar start end h =
    elim (Bool-cases (ltb (months.month_start end) (months.month_start start))) [
      | inl less ↦
          let earlier : end < months.month_start start =
            calendar.ordered end start (ground arith) in
          let k : months.month_start start ≤ start = calendar.starts start in omega arith
      | inr not_less ↦ ground arith
    ]

-- For a range whose ends are in order and a calendar of months, `buildWalletBuckets` ends: its loops
-- stop within the fuel, and their buckets follow each other without a gap, none of them empty, from
-- no later than the start of the range to past its end.
pub build_wallet_buckets-CoversRange :
    (months : Months) (start end : ℕ)
    → IsCalendar months
    → start ≤ end
    → CoversRange start end (build_wallet_buckets months start end)
unfolding build_wallet_buckets
build_wallet_buckets-CoversRange months start end calendar h =
    let short : (step : ℕ)
        → 0 < step
        → CoversRange start end (buckets_by (λ t. t + step) start end) =
      λ step positive.
        CoversRange-of_Covers (λ t. Unit) start end start end (buckets_by (λ t. t + step) start end)
          (buckets_by-Covers (λ t. Unit) (λ t. t + step) end (λ t. omega arith) (λ t. tt) start h
            tt)
          (omega arith) (λ to p later. later) in
    elim (Bool-cases (leb (end - start) day_in_ms)) [
      | inl hours ↦ rw hours (short (4 * hour_ms) (omega arith))
      | inr longer ↦ elim (Bool-cases (leb (end - start) (31 * day_in_ms))) [
        | inl days ↦ rw (longer, days) (short day_in_ms (omega arith))
        | inr long ↦
            rw (longer, long)
              (CoversRange-of_Covers (λ t. months.month_start t ≡ t) (months.month_start start)
                (months.month_start end) start end
                (buckets_by months.next_month (months.month_start start) (months.month_start end))
                (buckets_by-Covers (λ t. months.month_start t ≡ t) months.next_month
                  (months.month_start end) calendar.goes_on calendar.lands
                  (months.month_start start) (month_le months calendar start end h)
                  (calendar.settles start))
                (calendar.starts start)
                (λ to p later.
                  subst (λ x. end < x) p
                    (calendar.ordered end to
                      (subst (λ x. months.month_start end < x) (sym p) later))))
      ]
    ]
