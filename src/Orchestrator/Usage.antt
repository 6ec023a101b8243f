-- ===== src/Orchestrator/Usage.antt =====
-- subscription-resolver.service.ts, one subscription at a time: whether it is active, its usage
-- window, its limit, and the use of one transaction. `now` is the instant of the request; the plan
-- is the row that `planRef` includes (a foreign key), with no limit where there is none.
use coloanex_prod.Common.{
  Bool, List, Option, [], false, find, if◌then◌else◌, leb, ltb, none, or_else, some, true, ℕ, ◌&&◌,
  ◌*◌, ◌+◌, ◌-◌, ◌==◌, ◌∷◌,
}
use coloanex_prod.Common.Text.{codes, text_eq, upper}
use coloanex_prod.Db.{
  SubscriptionPlan, Subscription, SubscriptionStatus, active, inactive, expired, cancelled,
  update_where, Db,
}

abbrev pub day_ms : ℕ
day_ms = 24 * 60 * 60 * 1000

abbrev pub is_active_status : SubscriptionStatus → Bool
is_active_status active = true
is_active_status inactive = false
is_active_status expired = false
is_active_status cancelled = false

-- `!subscription.endsAt || subscription.endsAt >= now`
abbrev pub not_ended : Option ℕ → ℕ → Bool
not_ended none now = true
not_ended (some ends_at) now = leb now ends_at

unfoldable pub is_subscription_active : ℕ → Subscription → Bool
is_subscription_active now s =
    is_active_status s.status && (leb s.starts_at now && not_ended s.ends_at now)

abbrev pub plan_of : List SubscriptionPlan → ℕ → Option SubscriptionPlan
plan_of plans code = find (λ p. p.code == code) plans

abbrev pub max_of_plan : Option SubscriptionPlan → ℕ
max_of_plan none = 0
max_of_plan (some p) = p.max_transactions

-- `Number(subscription.planRef.maxTransactions || 0)`
abbrev pub max_transactions_of : List SubscriptionPlan → Subscription → ℕ
max_transactions_of plans s = max_of_plan (plan_of plans s.plan)

unfoldable pub is_limit_reached : List SubscriptionPlan → Subscription → Bool
is_limit_reached plans s =
    let limit = max_transactions_of plans s in if limit == 0 then false else leb limit s.usage_count

-- The days of a billing cycle whose text is compared as it stands.
unfoldable pub cycle_days : List ℕ → ℕ
cycle_days cycle =
    if text_eq cycle (codes "YEARLY") then 365 else if text_eq cycle (codes "WEEKLY") then 7 else 30

-- `getUsageWindowDays`: the cycle is put into upper case first.
unfoldable pub get_usage_window_days : Option SubscriptionPlan → ℕ
get_usage_window_days none = 30
get_usage_window_days (some p) =
    if p.usage_window_days == 0 then cycle_days (upper p.billing_cycle) else p.usage_window_days

-- Whether `elapsedMs > windowMs`; a clock behind the window's start has negative elapsed time.
unfoldable pub is_window_over : ℕ → ℕ → ℕ → Bool
is_window_over now days start = ltb (days * day_ms) (now - start)

abbrev pub restart_window : ℕ → Subscription → Subscription
restart_window now s = record s { usage_count = 0; usage_window_start = some now }

abbrev pub update_subscription :
    ℕ → (Subscription → Subscription) → List Subscription → List Subscription
update_subscription id f = update_where (λ s. s.id == id) f

-- The write of a window's reset, for the start that was read before.
unfoldable pub restart_if_over : ℕ → ℕ → ℕ → Option ℕ → List Subscription → List Subscription
restart_if_over now days id none subs = subs
restart_if_over now days id (some start) subs =
    if is_window_over now days start then update_subscription id (restart_window now) subs else subs

-- `ensureWindowFresh`, for a subscription that was read before.
unfoldable pub ensure_window_fresh :
    ℕ → List SubscriptionPlan → Subscription → List Subscription → List Subscription
ensure_window_fresh now plans s subs =
    restart_if_over now (get_usage_window_days (plan_of plans s.plan)) s.id s.usage_window_start
      subs

-- The loop over the subscriptions that were found.
unfoldable pub refresh_windows :
    ℕ → List SubscriptionPlan → List Subscription → List Subscription → List Subscription
refresh_windows now plans [] subs = subs
refresh_windows now plans (s ∷ found) subs =
    refresh_windows now plans found (ensure_window_fresh now plans s subs)

-- The update of `consumeUsage`: one more use, and the window starts if it had not.
abbrev pub use_once : ℕ → Subscription → Subscription
use_once now s = record s {
  usage_count = s.usage_count + 1;
  usage_window_start = or_else s.usage_window_start (some now);
}

unfoldable pub consume_usage : ℕ → Option ℕ → Db → Db
consume_usage now none d = d
consume_usage now (some id) d = record d {
  subscriptions = update_subscription id (use_once now) d.subscriptions;
}
