-- ===== src/Transactions/Buckets.antt =====
-- transactions.service.ts: `resolveWalletRange` and `buildWalletBuckets`. Instants count from an
-- origin before every range; labels are left out.
use coloanex_prod.Common.{
  List, Option, [], if◌then◌else◌, leb, ltb, none, some, suc, zero, ℕ, ◌*◌, ◌+◌, ◌-◌, ◌∷◌,
}

-- A date of a query: absent, one that does not parse, or an instant.
pub data DateInput : Type 0 where
  absent invalid : DateInput
  at : ℕ → DateInput

abbrev pub date_or : DateInput → ℕ → ℕ
date_or absent t = t
date_or invalid t = t
date_or (at s) t = s

pub record Range : Type 0 where
  pub start : ℕ
  pub stop : ℕ

abbrev pub hour_ms : ℕ
hour_ms = 60 * 60 * 1000

abbrev pub day_in_ms : ℕ
day_in_ms = 24 * hour_ms

-- The ends are swapped where they are in the wrong order.
unfoldable pub resolve_wallet_range : ℕ → DateInput → DateInput → Range
resolve_wallet_range now start_date end_date =
    let stop = date_or end_date now in
    let start = date_or start_date (stop - 180 * day_in_ms) in
    if ltb stop start
    then record { start = stop; stop = start }
    else record { start = start; stop = stop }

pub record Bucket : Type 0 where
  pub start : ℕ
  pub stop : ℕ

-- The first instant of an instant's month, and of the month after it, in local time.
pub record Months : Type 0 where
  pub month_start : ℕ → ℕ
  pub next_month : ℕ → ℕ

abbrev pub in_front : Bucket → Option (List Bucket) → Option (List Bucket)
in_front b none = none
in_front b (some bs) = some (b ∷ bs)

-- `while (cursor <= end) { push(cursor, next); cursor = next; }`; none is that the fuel ran out.
unfoldable pub bucket_loop : ℕ → (ℕ → ℕ) → ℕ → ℕ → Option (List Bucket)
bucket_loop zero next cursor last = none
bucket_loop (suc fuel) next cursor last =
    let rest = bucket_loop fuel next (next cursor) last in
    if leb cursor last
    then in_front (record { start = cursor; stop = next cursor }) rest
    else some []

-- As every turn moves the cursor on, `last + 2 - cursor` turns are enough.
abbrev pub fuel_for : ℕ → ℕ → ℕ
fuel_for cursor last = last + 2 - cursor

abbrev pub buckets_by : (ℕ → ℕ) → ℕ → ℕ → Option (List Bucket)
buckets_by next first last = bucket_loop (fuel_for first last) next first last

unfoldable pub build_wallet_buckets : Months → ℕ → ℕ → Option (List Bucket)
unfolding bucket_loop
build_wallet_buckets months start stop =
    if leb (stop - start) day_in_ms
    then buckets_by (λ t. t + 4 * hour_ms) start stop
    else if leb (stop - start) (31 * day_in_ms)
    then buckets_by (λ t. t + day_in_ms) start stop
    else buckets_by months.next_month (months.month_start start) (months.month_start stop)
