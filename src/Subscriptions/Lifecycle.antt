-- ===== src/Subscriptions/Lifecycle.antt =====
-- subscriptions.service.ts: `computeLifecycleStatus` and `resolvePlanDurationMs`.
use coloanex_prod.Common.{
  Bool, List, Option, false, if◌then◌else◌, leb, ltb, none, not, some, true, ℕ, ◌&&◌, ◌*◌, ◌==◌,
  ◌||◌,
}
use coloanex_prod.Db.{Subscription, SubscriptionPlan}
use coloanex_prod.Orchestrator.Usage.{day_ms, is_active_status, max_transactions_of}
use coloanex_prod.Common.Text.{codes, text_eq, upper}

pub data LifecycleStatus : Type 0 where
  bought lapsed limit_exceeded : LifecycleStatus

-- `!endsAt || endsAt >= now` on milliseconds, where 0 counts as no end.
abbrev pub within_end : Option ℕ → ℕ → Bool
within_end none now = true
within_end (some ends_at) now = ends_at == 0 || leb now ends_at

unfoldable pub compute_lifecycle_status : ℕ → List SubscriptionPlan → Subscription → LifecycleStatus
compute_lifecycle_status now plans s =
    let limit = max_transactions_of plans s in
    if not (is_active_status s.status) || not (leb s.starts_at now && within_end s.ends_at now)
    then lapsed
    else if ltb 0 limit && leb limit s.usage_count
    then limit_exceeded
    else bought

abbrev pub is_bought : LifecycleStatus → Bool
is_bought bought = true
is_bought lapsed = false
is_bought limit_exceeded = false

-- The days of a billing cycle in upper case.
unfoldable pub duration_of_cycle : List ℕ → ℕ
duration_of_cycle cycle =
    if text_eq cycle (codes "WEEKLY")
    then 7
    else if text_eq cycle (codes "YEARLY")
    then 365
    else if text_eq cycle (codes "ONCE")
    then 3650
    else 30

unfoldable pub resolve_plan_duration_ms : SubscriptionPlan → ℕ
resolve_plan_duration_ms p =
    if ltb 0 p.duration_days
    then p.duration_days * day_ms
    else duration_of_cycle (upper p.billing_cycle) * day_ms
