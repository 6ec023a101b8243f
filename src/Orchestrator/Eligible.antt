-- ===== src/Orchestrator/Eligible.antt =====
-- What an eligible decision of `orchestrate` guarantees: a usable subscription of the right owner
-- behind platform-paid gas, an active wallet behind user-paid gas.
use coloanex_prod.Common.{
  Bool, Elem, List, Option, Option-cases, String, [], arith, filter, find, inl, inr, none, some,
  true, ℕ, ◌||◌, ◌∷◌, ◌≡◌,
}
use coloanex_prod.Db.{Subscription, SubscriptionScope, Db, user_scope, tenant_scope}
use coloanex_prod.Db.Membership.{Elem-filter, Elem-order_desc, Elem-head?, Elem-find}
use coloanex_prod.Orchestrator.Subscriptions.{
  find_subscriptions, is_usable, choose, resolution_in, refresh, resolve_for_tenant,
  resolve_user_subscription, of_user, resolve_user_found, resolve_tenant_found, of_tenant,
}
use coloanex_prod.Orchestrator.Usage.{is_subscription_active, restart_window, is_limit_reached}

-- `choose` takes one of the usable subscriptions.
choose-Elem :
    (s : Subscription) (usable : List Subscription) → choose usable ≡ some s → Elem s usable
unfolding choose
choose-Elem s usable h = elim (Option-cases (find (λ t. t.selected) usable)) [
  | inl e ↦ Elem-head? s usable (ground arith)
  | inr (t, e) ↦ (Elem-find (λ t. t.selected) s usable (ground arith)).0
]

-- The subscription that a resolution names stands in the database, is usable, and is of the owner
-- that was asked for.
pub record IsChosen (now : ℕ) (owned : Subscription → Bool) (d : Db) (s : Subscription)
    : Type 0 where
  pub stored : Elem s d.subscriptions
  pub usable : is_usable now d s ≡ true
  pub owner : owned s ≡ true

resolution_in-IsChosen :
    (scope : SubscriptionScope) (reason : String) (now : ℕ) (owned : Subscription → Bool) (d : Db)
    {s : Subscription}
    → (resolution_in scope reason now owned d).subscription ≡ some s
    → IsChosen now owned d s
unfolding resolution_in find_subscriptions
resolution_in-IsChosen scope reason now owned d {s} h =
    let found = find_subscriptions owned d in
    let (listed, usable) =
      Elem-filter (is_usable now d) s found (choose-Elem s (filter (is_usable now d) found) h) in
    let (stored, owner) =
      Elem-filter owned s d.subscriptions (Elem-order_desc (λ t. t.created_at) s _ listed) in
    record { stored = stored; usable = usable; owner = owner }

-- The owner of a request's subscription: the user, or the tenant of the request.
abbrev pub is_owned : ℕ → Option ℕ → Subscription → Bool
is_owned user_id none s = of_user user_id s
is_owned user_id (some tenant_id) s = of_tenant tenant_id s || of_user user_id s

resolve_user_found-IsChosen :
    (now user_id : ℕ) (found : List Subscription) (d : Db) {s : Subscription}
    → (resolve_user_found now user_id found d).0.subscription ≡ some s
    → IsChosen now (of_user user_id) (resolve_user_found now user_id found d).1 s
unfolding resolve_user_found
resolve_user_found-IsChosen now user_id [] d h = cc
resolve_user_found-IsChosen now user_id (t ∷ found) d h =
    resolution_in-IsChosen user_scope
      "No user subscription is currently usable. Renew subscription or switch to USER_WALLET." now
      (of_user user_id) (refresh now (t ∷ found) d) h

-- A wider owner.
IsChosen-wider :
    {now : ℕ} {owned owned' : Subscription → Bool} {d : Db} {s : Subscription}
    → (owned s ≡ true → owned' s ≡ true)
    → IsChosen now owned d s
    → IsChosen now owned' d s
IsChosen-wider wider h = record { stored = h.stored; usable = h.usable; owner = wider h.owner }

resolve_tenant_found-IsChosen :
    (now user_id tenant_id : ℕ) (found : List Subscription) (d : Db) {s : Subscription}
    → (resolve_tenant_found now user_id tenant_id found d).0.subscription ≡ some s
    → IsChosen now
        (is_owned user_id (some tenant_id))
        (resolve_tenant_found now user_id tenant_id found d).1
        s
unfolding resolve_tenant_found resolve_user_subscription
resolve_tenant_found-IsChosen now user_id tenant_id [] d h =
    IsChosen-wider (λ e. ground arith)
      (resolve_user_found-IsChosen now user_id (find_subscriptions (of_user user_id) d) d h)
resolve_tenant_found-IsChosen now user_id tenant_id (t ∷ found) d h =
    IsChosen-wider (λ e. ground arith)
      (resolution_in-IsChosen tenant_scope
        "No tenant subscription is currently usable. Renew or select USER_WALLET mode." now
        (of_tenant tenant_id) (refresh now (t ∷ found) d) h)

pub resolve_for_tenant-IsChosen :
    (now user_id : ℕ) (tenant_id : Option ℕ) (d : Db) {s : Subscription}
    → (resolve_for_tenant now user_id tenant_id d).0.subscription ≡ some s
    → IsChosen now (is_owned user_id tenant_id) (resolve_for_tenant now user_id tenant_id d).1 s
unfolding resolve_for_tenant resolve_user_subscription
resolve_for_tenant-IsChosen now user_id none d h =
    resolve_user_found-IsChosen now user_id (find_subscriptions (of_user user_id) d) d h
resolve_for_tenant-IsChosen now user_id (some tenant_id) d h =
    resolve_tenant_found-IsChosen now user_id tenant_id (find_subscriptions (of_tenant tenant_id) d)
      d h

-- The policy may restart the window of a subscription, which leaves it usable.
pub restart-is_usable :
    (now : ℕ) (d : Db) (s : Subscription)
    → is_usable now d s ≡ true
    → is_usable now d (restart_window now s) ≡ true
unfolding is_usable is_subscription_active is_limit_reached
restart-is_usable now d s h = ground arith
