-- ===== src/Orchestrator/Policy.antt =====
-- transaction-policy-engine.service.ts: the plan's limit on the number of transactions.
use coloanex_prod.Common.{
  Bool, Option, String, false, find, get_or, if◌then◌else◌, is_some, leb, none, not, some, true, ℕ,
  ◌&&◌, ◌==◌,
}
use coloanex_prod.Db.{SubscriptionPlan, Subscription, SubscriptionScope, Db}
use coloanex_prod.Orchestrator.Usage.{plan_of, max_of_plan, cycle_days, restart_if_over}

-- `maxTransactions` and `usageWindowDays`.
pub record FeatureFlags : Type 0 where
  pub max_transactions : ℕ
  pub usage_window_days : ℕ

pub record Policy : Type 0 where
  pub eligible : Bool
  pub feature_flags : Option FeatureFlags
  pub denial_reason : Option String

-- Here the billing cycle is compared as it stands, without `toUpperCase`.
unfoldable pub policy_window_days : Option SubscriptionPlan → ℕ
policy_window_days none = 30
policy_window_days (some p) =
    if p.usage_window_days == 0 then cycle_days p.billing_cycle else p.usage_window_days

abbrev pub find_subscription : ℕ → Db → Option Subscription
find_subscription id d = find (λ s. s.id == id) d.subscriptions

abbrev pub window_start_of : Option Subscription → Option ℕ
window_start_of none = none
window_start_of (some s) = s.usage_window_start

-- The reset of a window that is over, for the subscription as it is read here.
unfoldable pub reset_window : ℕ → ℕ → ℕ → Db → Db
reset_window now days id d = record d {
  subscriptions =
      restart_if_over now days id (window_start_of (find_subscription id d)) d.subscriptions;
}

-- `freshSubscription && freshSubscription.usageCount >= maxTransactions`
abbrev pub reaches_limit : ℕ → Option Subscription → Bool
reaches_limit limit none = false
reaches_limit limit (some s) = leb limit s.usage_count

-- The end of `evaluate`, where the plan has been read.
unfoldable pub evaluate_limit : ℕ → ℕ → ℕ → Option ℕ → Db → Policy × Db
evaluate_limit now limit days none d = (
  record {
    eligible = true;
    feature_flags = some (record { max_transactions = limit; usage_window_days = days });
    denial_reason = none;
  },
  d,
)
evaluate_limit now limit days (some id) d =
    let flags : FeatureFlags = record { max_transactions = limit; usage_window_days = days } in
    let d' = if limit == 0 then d else reset_window now days id d in
    let denied = not (limit == 0) && reaches_limit limit (find_subscription id d') in
    (
      record {
        eligible = not denied;
        feature_flags = some flags;
        denial_reason = if denied then some "Transaction limit reached for current plan" else none;
      },
      d',
    )

-- `plan` is none for 'NONE'; `transactionType` and `userId` are not read.
unfoldable pub evaluate :
    ℕ → Option SubscriptionScope → Option ℕ → Option ℕ → Bool → Db → Policy × Db
evaluate now scope plan subscription_id requires_subscription d =
    if requires_subscription && not (is_some subscription_id && is_some plan)
    then (
      record {
        eligible = false;
        feature_flags = none;
        denial_reason = some "A valid subscription is required for PLATFORM_WALLET transactions.";
      },
      d,
    )
    else if not (is_some scope && is_some plan)
    then (record { eligible = true; feature_flags = none; denial_reason = none }, d)
    else let row = plan_of d.plans (get_or plan 0) in
      evaluate_limit now (max_of_plan row) (policy_window_days row) subscription_id d
