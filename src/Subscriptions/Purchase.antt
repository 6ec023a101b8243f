-- ===== src/Subscriptions/Purchase.antt =====
-- subscriptions.service.ts: `purchase`. The plan's code is given as `normalizePlanCode` leaves it, and
-- the names that two messages quote are left out.
use coloanex_prod.Common.{
  Bool, Option, [], any, false, filter, find, if◌then◌else◌, is_number, ltb, none, not, or_else,
  some, true, ℕ, ◌&&◌, ◌++◌, ◌+◌, ◌==◌, ◌∷◌,
}
use coloanex_prod.Db.{
  Subscription, SubscriptionPlan, SubscriptionStatus, SubscriptionScope, user_scope, tenant_scope,
  TransactionType, fee, update_where, modify, throw, some_or_throw, throw_if, Action, not_found,
  find_or_throw, forbidden, pure, gets, Transaction, Db, ◌>>◌, ◌>>=◌,
}
use coloanex_prod.Service.{find_transaction, is_borrower, is_super_admin, Env, JwtPayload}
use coloanex_prod.Contracts.Disbursing.{is_completed}
use coloanex_prod.Orchestrator.Subscriptions.{of_tenant, of_user, is_tenant_scope}
use coloanex_prod.Subscriptions.Lifecycle.{
  resolve_plan_duration_ms, compute_lifecycle_status, is_bought,
}

pub record PurchaseDto : Type 0 where
  pub plan_code : ℕ
  pub scope : SubscriptionScope
  pub tenant_id : Option ℕ
  pub payment_transaction_id : Option ℕ

-- `findFirst({ where: { code, isActive: true } })`
unfoldable pub find_active_plan : ℕ → Db → Option SubscriptionPlan
find_active_plan code d = find (λ p. p.code == code && p.is_active) d.plans

abbrev pub same_scope : SubscriptionScope → SubscriptionScope → Bool
same_scope user_scope user_scope = true
same_scope tenant_scope tenant_scope = true
same_scope user_scope tenant_scope = false
same_scope tenant_scope user_scope = false

abbrev pub is_fee : TransactionType → Bool
is_fee fee = true
is_fee _ = false

-- A transaction that is a completed fee payment.
abbrev pub is_fee_paid : Option Transaction → Bool
is_fee_paid none = false
is_fee_paid (some t) = is_completed t.status && is_fee t.type

abbrev pub sent_by_user : ℕ → Option Transaction → Bool
sent_by_user user_id none = false
sent_by_user user_id (some t) = t.sent_by == user_id

abbrev pub amount_of : Option Transaction → ℕ
amount_of none = 0
amount_of (some t) = t.amount

-- The guards on the transaction that the request names for a paid plan.
unfoldable pub check_fee : ℕ → ℕ → Option ℕ → Action (Unit {0})
check_fee price user_id none =
    throw (forbidden "Paid plans require a successful payment before activation")
check_fee price user_id (some payment) = do
  t ← gets (find_transaction payment)
  throw_if (not (is_fee_paid t))
      (forbidden "Subscription payment transaction is invalid or not completed")
  throw_if (not (sent_by_user user_id t))
      (forbidden "Subscription payment must be completed by the same user")
  throw_if (ltb (amount_of t) price)
      (forbidden "Subscription payment amount is insufficient for selected plan")

unfoldable pub check_payment : SubscriptionPlan → ℕ → Option ℕ → Action (Unit {0})
check_payment p user_id payment =
    if ltb 0 p.price then check_fee p.price user_id payment else pure tt

-- `findFirst` on the owner and the plan, and the lifecycle of what it found.
unfoldable pub find_same_plan : (Subscription → Bool) → ℕ → Db → Option Subscription
find_same_plan owned code d = find (λ s. owned s && s.plan == code) d.subscriptions

abbrev pub is_in_use : ℕ → Db → Option Subscription → Bool
is_in_use now d none = false
is_in_use now d (some s) = is_bought (compute_lifecycle_status now d.plans s)

abbrev pub has_selected : (Subscription → Bool) → Db → Bool
has_selected owned d = any (λ s. s.selected) (filter owned d.subscriptions)

-- What the upsert writes into a subscription that is there; the other owner column is cleared.
abbrev pub renewed : Env → SubscriptionPlan → PurchaseDto → Bool → ℕ → Subscription → Subscription
renewed env p dto selected user_id s = record s {
  status = SubscriptionStatus.active;
  user_id = if is_tenant_scope dto.scope then none else s.user_id;
  tenant_id = if is_tenant_scope dto.scope then s.tenant_id else none;
  starts_at = env.now;
  ends_at = some (env.now + resolve_plan_duration_ms p);
  usage_count = 0;
  usage_window_start = none;
  selected = selected;
  payment_transaction_id = dto.payment_transaction_id;
  created_by = some user_id;
}

abbrev pub new_subscription : Env → SubscriptionPlan → PurchaseDto → ℕ → Bool → ℕ → Subscription
new_subscription env p dto owner selected user_id = record {
  id = env.uuid 0;
  scope = dto.scope;
  plan = dto.plan_code;
  status = SubscriptionStatus.active;
  user_id = if is_tenant_scope dto.scope then none else some owner;
  tenant_id = if is_tenant_scope dto.scope then some owner else none;
  starts_at = env.now;
  ends_at = some (env.now + resolve_plan_duration_ms p);
  usage_count = 0;
  usage_window_start = none;
  selected = selected;
  payment_transaction_id = dto.payment_transaction_id;
  created_by = some user_id;
  created_at = env.now;
}

abbrev pub owned_in : SubscriptionScope → ℕ → Subscription → Bool
owned_in tenant_scope owner = of_tenant owner
owned_in user_scope owner = of_user owner

-- The `upsert` on the unique key of the owner and the plan.
unfoldable pub upsert :
    Env → SubscriptionPlan → PurchaseDto → ℕ → Bool → ℕ → Option Subscription → Db → Db
upsert env p dto owner selected user_id (some s) d = record d {
  subscriptions =
      update_where (λ x. x.id == s.id) (renewed env p dto selected user_id) d.subscriptions;
}
upsert env p dto owner selected user_id none d = record d {
  subscriptions = d.subscriptions ++ new_subscription env p dto owner selected user_id ∷ [];
}

-- The rest of `purchase` for an owner, the same for both scopes.
unfoldable pub buy_for : Env → SubscriptionPlan → PurchaseDto → ℕ → ℕ → Action (Unit {0})
buy_for env p dto owner user_id = do
  same ← gets (find_same_plan (owned_in dto.scope owner) dto.plan_code)
  in_use ← gets (λ d. is_in_use env.now d same)
  throw_if in_use (forbidden "You already have an active subscription")
  selected ← gets (has_selected (owned_in dto.scope owner))
  modify (upsert env p dto owner (not selected) user_id same)

-- The guards on the tenant for which a tenant's plan is bought.
unfoldable pub check_tenant : ℕ → JwtPayload → Action (Unit {0})
check_tenant tenant_id user = do
  throw_if (not (is_super_admin user) && is_borrower user)
      (forbidden "Borrowers cannot purchase tenant-level subscriptions.")
  throw_if (not (is_super_admin user) && not (is_number user.tenant_id tenant_id))
      (forbidden "You can only purchase for your tenant")

unfoldable pub purchase_in_scope :
    Env → SubscriptionPlan → PurchaseDto → JwtPayload → SubscriptionScope → Action (Unit {0})
purchase_in_scope env p dto user user_scope = buy_for env p dto user.sub user.sub
purchase_in_scope env p dto user tenant_scope = do
  tenant_id ← λ d.
      some_or_throw (or_else dto.tenant_id user.tenant_id)
        (forbidden "Tenant subscription requires a tenant") d
  check_tenant tenant_id user
  buy_for env p dto tenant_id user.sub

unfoldable pub purchase : Env → PurchaseDto → JwtPayload → Action (Unit {0})
purchase env dto user = do
  p ← find_or_throw (find_active_plan dto.plan_code) (not_found "Subscription plan not found")
  throw_if (not (same_scope dto.scope p.scope)) (forbidden "Plan is scoped to other subscriptions")
  check_payment p user.sub dto.payment_transaction_id
  purchase_in_scope env p dto user dto.scope
