-- ===== src/Transactions/Summary.antt =====
-- transactions.service.ts: `getWalletSummary`. The percentages, which are fractions rounded for
-- display, are left out; the order of the transactions does not matter to the sums. The test for the
-- Super Admin ignores capitals, which the model's roles do not have.
use coloanex_prod.Common.{
  Bool, List, Option, [], filter, if◌then◌else◌, is_number, leb, length, ltb, map, none, not, some,
  ℕ, ◌&&◌, ◌==◌, ◌||◌, ◌∷◌,
}
use coloanex_prod.Common.Int.{ℤ, pos, ◌+ℤ◌, ◌-ℤ◌, pos_part}
use coloanex_prod.Db.{Transaction, Db}
use coloanex_prod.Service.{JwtPayload, is_super_admin}
use coloanex_prod.Contracts.Disbursing.{is_disbursement, is_completed}
use coloanex_prod.Payments.Apply.{is_repayment}
use coloanex_prod.Transactions.Buckets.{
  DateInput, Bucket, Months, resolve_wallet_range, Range, build_wallet_buckets,
}

-- `entityIds.includes(id)`, the caller's identifier or tenant.
abbrev pub is_entity : JwtPayload → ℕ → Bool
is_entity user id = user.sub == id || is_number user.tenant_id id

abbrev pub concerns : JwtPayload → Transaction → Bool
concerns user t = is_super_admin user || (is_entity user t.sent_by || is_entity user t.received_by)

-- The rows of the query.
unfoldable pub wallet_transactions : JwtPayload → Range → Db → List Transaction
wallet_transactions user r d =
    filter (λ t. leb r.start t.created_at && (leb t.created_at r.stop && concerns user t))
      d.transactions

abbrev pub amount_if : Bool → Transaction → ℤ
amount_if b t = if b then pos t.amount else pos 0

-- What a transaction adds to `toGive`.
unfoldable pub give_part : JwtPayload → Transaction → ℤ
give_part user t =
    if not (is_completed t.status)
    then pos 0
    else if is_super_admin user
    then pos t.amount
    else amount_if (is_entity user t.received_by && is_disbursement t.type) t
      -ℤ amount_if (is_entity user t.sent_by && is_repayment t.type) t

-- What a transaction adds to `toReceive`.
unfoldable pub receive_part : JwtPayload → Transaction → ℤ
receive_part user t =
    if not (is_completed t.status) || is_super_admin user
    then pos 0
    else amount_if (is_entity user t.sent_by && is_disbursement t.type) t
      -ℤ amount_if (is_entity user t.received_by && is_repayment t.type) t

-- The loop's sum, from the first transaction to the last.
abbrev pub sum_from : ℤ → (Transaction → ℤ) → List Transaction → ℤ
sum_from acc part [] = acc
sum_from acc part (t ∷ ts) = sum_from (acc +ℤ part t) part ts

abbrev pub in_bucket : Bucket → Transaction → Bool
in_bucket b t = leb b.start t.created_at && ltb t.created_at b.stop

-- `Math.max(0, …)` of the sum over a bucket.
abbrev pub series_of : (Transaction → ℤ) → List Transaction → List Bucket → List ℕ
series_of part ts bs = map (λ b. pos_part (sum_from (pos 0) part (filter (in_bucket b) ts))) bs

abbrev pub counts_of : List Transaction → List Bucket → List ℕ
counts_of ts bs = map (λ b. length (filter (in_bucket b) ts)) bs

pub record WalletSummary : Type 0 where
  pub to_give : ℕ
  pub to_receive : ℕ
  pub total_transactions : ℕ
  pub to_give_series : List ℕ
  pub to_receive_series : List ℕ
  pub total_transactions_series : List ℕ

abbrev pub summary_of : JwtPayload → List Transaction → List Bucket → WalletSummary
summary_of user ts bs = record {
  to_give = pos_part (sum_from (pos 0) (give_part user) ts);
  to_receive = pos_part (sum_from (pos 0) (receive_part user) ts);
  total_transactions = length ts;
  to_give_series = series_of (give_part user) ts bs;
  to_receive_series = series_of (receive_part user) ts bs;
  total_transactions_series = counts_of ts bs;
}

abbrev pub summary_with :
    JwtPayload → List Transaction → Option (List Bucket) → Option WalletSummary
summary_with user ts none = none
summary_with user ts (some bs) = some (summary_of user ts bs)

-- None is that the loop over the buckets has not ended.
unfoldable pub get_wallet_summary :
    ℕ → Months → JwtPayload → DateInput → DateInput → Db → Option WalletSummary
unfolding wallet_transactions build_wallet_buckets resolve_wallet_range
get_wallet_summary now months user start_date end_date d =
    let r = resolve_wallet_range now start_date end_date in
    summary_with user (wallet_transactions user r d) (build_wallet_buckets months r.start r.stop)
