-- ===== src/Orchestrator/Subscriptions.antt =====
-- subscription-resolver.service.ts, `resolveActiveSubscription`: the subscription that pays for a
-- user's transactions. A tenant's subscriptions hide the user's own.
use coloanex_prod.Common.{
  Bool, List, Option, String, [], false, filter, find, head?, if◌then◌else◌, is_number, is_some,
  none, not, or_else, some, true, ℕ, ◌&&◌, ◌==◌, ◌∷◌,
}
use coloanex_prod.Db.{
  User, Subscription, SubscriptionScope, user_scope, tenant_scope, find_many_desc, Db,
}
use coloanex_prod.Orchestrator.Usage.{is_subscription_active, is_limit_reached, refresh_windows}

-- `scope` is none for 'NONE'. The decision's `hasSubscriptionRecord` is not used by any caller.
pub record Resolution : Type 0 where
  pub scope : Option SubscriptionScope
  pub subscription : Option Subscription
  pub denial_reason : Option String

abbrev pub is_tenant_scope : SubscriptionScope → Bool
is_tenant_scope user_scope = false
is_tenant_scope tenant_scope = true

abbrev pub of_tenant : ℕ → Subscription → Bool
of_tenant tenant_id s = is_tenant_scope s.scope && is_number s.tenant_id tenant_id

abbrev pub of_user : ℕ → Subscription → Bool
of_user user_id s = not (is_tenant_scope s.scope) && is_number s.user_id user_id

-- `findMany({ where, orderBy: { createdAt: 'desc' } })`
unfoldable pub find_subscriptions : (Subscription → Bool) → Db → List Subscription
find_subscriptions owned d = find_many_desc (λ s. s.created_at) owned d.subscriptions

unfoldable pub is_usable : ℕ → Db → Subscription → Bool
is_usable now d s = is_subscription_active now s && not (is_limit_reached d.plans s)

-- The selected one of the usable subscriptions, or else the newest.
unfoldable pub choose : List Subscription → Option Subscription
choose usable = or_else (find (λ s. s.selected) usable) (head? usable)

unfoldable pub refresh : ℕ → List Subscription → Db → Db
refresh now found d = record d { subscriptions = refresh_windows now d.plans found d.subscriptions }

-- The answer for a scope in which there are subscriptions, read again after the refresh.
unfoldable pub resolution_in :
    SubscriptionScope → String → ℕ → (Subscription → Bool) → Db → Resolution
resolution_in scope reason now owned d =
    let chosen = choose (filter (is_usable now d) (find_subscriptions owned d)) in
    record {
      scope = some scope;
      subscription = chosen;
      denial_reason = if is_some chosen then none else some reason;
    }

-- The user's own subscriptions, where `found` are those of the query.
unfoldable pub resolve_user_found : ℕ → ℕ → List Subscription → Db → Resolution × Db
resolve_user_found now user_id [] d = (
  record {
    scope = none;
    subscription = none;
    denial_reason =
        some "No active subscription found. Please purchase subscription or switch to USER_WALLET.";
  },
  d,
)
resolve_user_found now user_id (s ∷ found) d =
    let d' = refresh now (s ∷ found) d in
    (
      resolution_in user_scope
          "No user subscription is currently usable. Renew subscription or switch to USER_WALLET."
          now (of_user user_id) d',
      d',
    )

unfoldable pub resolve_user_subscription : ℕ → ℕ → Db → Resolution × Db
resolve_user_subscription now user_id d =
    resolve_user_found now user_id (find_subscriptions (of_user user_id) d) d

-- The tenant's subscriptions, where `found` are those of the query; without any, the user's own.
unfoldable pub resolve_tenant_found : ℕ → ℕ → ℕ → List Subscription → Db → Resolution × Db
resolve_tenant_found now user_id tenant_id [] d = resolve_user_subscription now user_id d
resolve_tenant_found now user_id tenant_id (s ∷ found) d =
    let d' = refresh now (s ∷ found) d in
    (
      resolution_in tenant_scope
          "No tenant subscription is currently usable. Renew or select USER_WALLET mode." now
          (of_tenant tenant_id) d',
      d',
    )

unfoldable pub resolve_for_tenant : ℕ → ℕ → Option ℕ → Db → Resolution × Db
resolve_for_tenant now user_id none d = resolve_user_subscription now user_id d
resolve_for_tenant now user_id (some tenant_id) d =
    resolve_tenant_found now user_id tenant_id (find_subscriptions (of_tenant tenant_id) d) d

abbrev pub find_user : ℕ → Db → Option User
find_user user_id d = find (λ u. u.id == user_id) d.users

abbrev pub tenant_of_user : Option User → Option ℕ
tenant_of_user none = none
tenant_of_user (some u) = u.tenant_id

-- `tenantId || user?.tenantId || undefined`
abbrev pub effective_tenant : Option ℕ → ℕ → Db → Option ℕ
effective_tenant tenant_id user_id d = or_else tenant_id (tenant_of_user (find_user user_id d))

unfoldable pub resolve_active_subscription : ℕ → ℕ → Option ℕ → Db → Resolution × Db
resolve_active_subscription now user_id tenant_id d =
    resolve_for_tenant now user_id (effective_tenant tenant_id user_id d) d
