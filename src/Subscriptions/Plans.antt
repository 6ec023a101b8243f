-- ===== src/Subscriptions/Plans.antt =====
-- subscriptions.service.ts: `createPlan`, `updatePlan` and `removePlan`. Codes are given as
-- `normalizePlanCode` leaves them; names, descriptions and currencies are left out.
use coloanex_prod.Common.{
  Bool, List, Option, [], any, find, get_or, if◌then◌else◌, none, not, some, true, ℕ, ◌&&◌, ◌++◌,
  ◌==◌, ◌∷◌,
}
use coloanex_prod.Service.{Env, JwtPayload, is_super_admin}
use coloanex_prod.Db.{
  delete_where, update_where, forbidden, modify, foreign_key_violation, throw_if, not_found,
  unique_violation, gets, Action, find_or_throw, SubscriptionPlan, Db, user_scope, Subscription,
  SubscriptionScope, ◌>>◌, ◌>>=◌,
}
use coloanex_prod.Common.Text.{codes}

pub record CreatePlanDto : Type 0 where
  pub code : ℕ
  pub scope : Option SubscriptionScope
  pub has_features : Bool
  pub price : ℕ
  pub max_transactions : Option ℕ
  pub billing_cycle : Option (List ℕ)
  pub is_active : Option Bool

unfoldable pub find_plan : ℕ → Db → Option SubscriptionPlan
find_plan code d = find (λ p. p.code == code) d.plans

unfoldable pub find_plan_by_id : ℕ → Db → Option SubscriptionPlan
find_plan_by_id id d = find (λ p. p.id == id) d.plans

-- `dto.billingCycle || 'MONTHLY'`
abbrev pub cycle_or_monthly : Option (List ℕ) → List ℕ
cycle_or_monthly none = codes "MONTHLY"
cycle_or_monthly (some []) = codes "MONTHLY"
cycle_or_monthly (some (c ∷ cs)) = c ∷ cs

-- The features of a request are an array of strings, which has neither `usageWindowDays` nor
-- `durationDays`.
abbrev pub new_plan : Env → CreatePlanDto → SubscriptionPlan
new_plan env dto = record {
  id = env.uuid 0;
  code = dto.code;
  scope = get_or dto.scope user_scope;
  price = dto.price;
  max_transactions = get_or dto.max_transactions 100;
  billing_cycle = cycle_or_monthly dto.billing_cycle;
  usage_window_days = 0;
  duration_days = 0;
  is_active = get_or dto.is_active true;
}

abbrev pub rewritten_plan : CreatePlanDto → SubscriptionPlan → SubscriptionPlan
rewritten_plan dto p = record p {
  scope = get_or dto.scope user_scope;
  price = dto.price;
  max_transactions = get_or dto.max_transactions 100;
  billing_cycle = cycle_or_monthly dto.billing_cycle;
  usage_window_days = if dto.has_features then 0 else p.usage_window_days;
  duration_days = if dto.has_features then 0 else p.duration_days;
  is_active = get_or dto.is_active true;
}

-- The `upsert` on the code.
unfoldable pub upsert_plan : Env → CreatePlanDto → Option SubscriptionPlan → Db → Db
upsert_plan env dto none d = record d { plans = d.plans ++ new_plan env dto ∷ [] }
upsert_plan env dto (some p) d = record d {
  plans = update_where (λ x. x.code == dto.code) (rewritten_plan dto) d.plans;
}

abbrev pub ensure_super_admin : JwtPayload → Action (Unit {0})
ensure_super_admin user =
    throw_if (not (is_super_admin user)) (forbidden "Only Super Admin can manage subscriptions")

unfoldable pub create_plan : Env → CreatePlanDto → JwtPayload → Action (Unit {0})
create_plan env dto user = do
  ensure_super_admin user
  p ← gets (find_plan dto.code)
  modify (upsert_plan env dto p)

pub record UpdatePlanDto : Type 0 where
  pub code : Option ℕ
  pub scope : Option SubscriptionScope
  pub has_features : Bool
  pub price : Option ℕ
  pub max_transactions : Option ℕ
  pub billing_cycle : Option (List ℕ)
  pub is_active : Option Bool

abbrev pub edited_plan : UpdatePlanDto → SubscriptionPlan → SubscriptionPlan
edited_plan dto p = record p {
  code = get_or dto.code p.code;
  scope = get_or dto.scope p.scope;
  price = get_or dto.price p.price;
  max_transactions = get_or dto.max_transactions p.max_transactions;
  billing_cycle = get_or dto.billing_cycle p.billing_cycle;
  usage_window_days = if dto.has_features then 0 else p.usage_window_days;
  duration_days = if dto.has_features then 0 else p.duration_days;
  is_active = get_or dto.is_active p.is_active;
}

-- The foreign key of a subscription follows the code of its plan (`onUpdate: Cascade`).
abbrev pub follow_plan : ℕ → ℕ → List Subscription → List Subscription
follow_plan code code' = update_where (λ s. s.plan == code) (λ s. record s { plan = code' })

-- Another plan has the code.
abbrev pub is_code_taken : ℕ → ℕ → Db → Bool
is_code_taken id code d = any (λ x. not (x.id == id) && x.code == code) d.plans

abbrev pub write_plan : UpdatePlanDto → SubscriptionPlan → Db → Db
write_plan dto p d = record d {
  plans = update_where (λ x. x.id == p.id) (edited_plan dto) d.plans;
  subscriptions = follow_plan p.code (get_or dto.code p.code) d.subscriptions;
}

unfoldable pub update_plan : ℕ → UpdatePlanDto → JwtPayload → Action (Unit {0})
update_plan id dto user = do
  ensure_super_admin user
  p ← find_or_throw (find_plan_by_id id) (not_found "Subscription plan not found")
  taken ← gets (is_code_taken id (get_or dto.code p.code))
  throw_if taken unique_violation
  modify (write_plan dto p)

-- The foreign key of a subscription restricts the deletion of its plan.
abbrev pub is_plan_used : ℕ → Db → Bool
is_plan_used code d = any (λ s. s.plan == code) d.subscriptions

unfoldable pub remove_plan : ℕ → JwtPayload → Action (Unit {0})
remove_plan id user = do
  ensure_super_admin user
  p ← find_or_throw (find_plan_by_id id) (not_found "Subscription plan not found")
  used ← gets (is_plan_used p.code)
  throw_if used foreign_key_violation
  modify (λ d. record d { plans = delete_where (λ x. x.id == id) d.plans })
