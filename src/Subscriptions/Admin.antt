-- ===== src/Subscriptions/Admin.antt =====
-- subscriptions.service.ts: `create`, `update` and `remove`, with which a Super Admin keeps the
-- subscriptions of others. Instants are given as numbers.
use coloanex_prod.Common.{
  Bool, Option, [], any, false, get_or, if◌then◌else◌, is_number, is_some, none, not, or_else, some,
  ℕ, ◌&&◌, ◌++◌, ◌==◌, ◌||◌, ◌∷◌,
}
use coloanex_prod.Service.{Env, JwtPayload}
use coloanex_prod.Db.{
  delete_where, update_where, Action, throw_if, gets, not_found, pure, unique_violation,
  foreign_key_violation, find_or_throw, some_or_throw, forbidden, modify, Subscription,
  SubscriptionScope, Db, SubscriptionStatus, ◌>>◌, ◌>>=◌,
}
use coloanex_prod.Orchestrator.Subscriptions.{is_tenant_scope}
use coloanex_prod.Subscriptions.Plans.{find_plan, ensure_super_admin}
use coloanex_prod.Subscriptions.Purchase.{owned_in, find_same_plan, same_scope}
use coloanex_prod.Orchestrator.Policy.{find_subscription}

pub record CreateSubscriptionDto : Type 0 where
  pub scope : SubscriptionScope
  pub plan : ℕ
  pub status : SubscriptionStatus
  pub user_id : Option ℕ
  pub tenant_id : Option ℕ
  pub starts_at : ℕ
  pub ends_at : Option ℕ

abbrev pub granted : CreateSubscriptionDto → ℕ → ℕ → Subscription → Subscription
granted dto owner user_id s = record s {
  plan = dto.plan;
  status = dto.status;
  starts_at = dto.starts_at;
  ends_at = dto.ends_at;
  user_id = if is_tenant_scope dto.scope then none else some owner;
  tenant_id = if is_tenant_scope dto.scope then some owner else none;
  created_by = some user_id;
}

abbrev pub new_grant : Env → CreateSubscriptionDto → ℕ → ℕ → Subscription
new_grant env dto owner user_id = record {
  id = env.uuid 0;
  scope = dto.scope;
  plan = dto.plan;
  status = dto.status;
  user_id = if is_tenant_scope dto.scope then none else some owner;
  tenant_id = if is_tenant_scope dto.scope then some owner else none;
  starts_at = dto.starts_at;
  ends_at = dto.ends_at;
  usage_count = 0;
  usage_window_start = none;
  selected = false;
  payment_transaction_id = none;
  created_by = some user_id;
  created_at = env.now;
}

-- The `upsert` on the unique key of the scope, the owner and the plan.
unfoldable pub grant : Env → CreateSubscriptionDto → ℕ → ℕ → Option Subscription → Db → Db
grant env dto owner user_id (some s) d = record d {
  subscriptions = update_where (λ x. x.id == s.id) (granted dto owner user_id) d.subscriptions;
}
grant env dto owner user_id none d = record d {
  subscriptions = d.subscriptions ++ new_grant env dto owner user_id ∷ [];
}

abbrev pub owner_of : CreateSubscriptionDto → Option ℕ
owner_of dto = if is_tenant_scope dto.scope then dto.tenant_id else dto.user_id

-- `owner_exists` is that the users' or the tenants' table has the owner.
unfoldable pub create_subscription :
    Bool → Env → CreateSubscriptionDto → JwtPayload → Action (Unit {0})
create_subscription owner_exists env dto user = do
  ensure_super_admin user
  p ← find_or_throw (find_plan dto.plan) (not_found "Subscription plan not found")
  throw_if (not (same_scope dto.scope p.scope)) (forbidden "Plan is scoped to other subscriptions")
  owner ← some_or_throw (owner_of dto) (forbidden "Subscription requires an owner")
  same ← gets (find_same_plan (owned_in dto.scope owner) dto.plan)
  throw_if (not owner_exists) foreign_key_violation
  modify (grant env dto owner user.sub same)

pub record UpdateSubscriptionDto : Type 0 where
  pub plan : Option ℕ
  pub status : Option SubscriptionStatus
  pub starts_at : Option ℕ
  pub ends_at : Option ℕ
  pub user_id : Option ℕ
  pub tenant_id : Option ℕ

abbrev pub edited_subscription : UpdateSubscriptionDto → Subscription → Subscription
edited_subscription dto s = record s {
  plan = get_or dto.plan s.plan;
  status = get_or dto.status s.status;
  starts_at = get_or dto.starts_at s.starts_at;
  ends_at = or_else dto.ends_at s.ends_at;
  user_id = or_else dto.user_id s.user_id;
  tenant_id = or_else dto.tenant_id s.tenant_id;
}

abbrev pub same_number : Option ℕ → Option ℕ → Bool
same_number (some a) o = is_number o a
same_number none o = false

-- The two unique keys, on the scope, the plan and the user or the tenant.
abbrev pub shares_key : Subscription → Subscription → Bool
shares_key s x =
    not (x.id == s.id)
    && same_scope x.scope s.scope
    && x.plan == s.plan
    && (same_number s.user_id x.user_id || same_number s.tenant_id x.tenant_id)

unfoldable pub check_plan : Option ℕ → Action (Unit {0})
check_plan none = pure tt
check_plan (some code) = do
  p ← gets (find_plan code)
  throw_if (not (is_some p)) (not_found "Subscription plan not found")

-- The row that is written; `owners_exist` is that the users' and the tenants' tables have the owners
-- of the request.
unfoldable pub write_subscription :
    Bool → ℕ → UpdateSubscriptionDto → Subscription → Action (Unit {0})
write_subscription owners_exist id dto s = do
  clash ← gets (λ d. any (shares_key (edited_subscription dto s)) d.subscriptions)
  throw_if clash unique_violation
  throw_if (not owners_exist) foreign_key_violation
  modify (λ d. record d {
    subscriptions = update_where (λ x. x.id == id) (edited_subscription dto) d.subscriptions;
  })

unfoldable pub change_subscription :
    Bool → ℕ → UpdateSubscriptionDto → JwtPayload → Action (Unit {0})
change_subscription owners_exist id dto user = do
  ensure_super_admin user
  s ← find_or_throw (find_subscription id) (not_found "Subscription not found")
  check_plan dto.plan
  write_subscription owners_exist id dto s

unfoldable pub remove_subscription : ℕ → JwtPayload → Action (Unit {0})
remove_subscription id user = do
  ensure_super_admin user
  s ← find_or_throw (find_subscription id) (not_found "Subscription not found")
  modify (λ d. record d { subscriptions = delete_where (λ x. x.id == id) d.subscriptions })
