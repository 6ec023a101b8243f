-- ===== src/Orchestrator/Quota.antt =====
-- The plan's limit as an invariant of the subscriptions table, over `orchestrate` followed by
-- `consumeUsage`, as the services call them.
use coloanex_prod.Common.{
  All, Bool-cases, Distinct, Elem, List, Option, Option-cases, [], arith, inl, inr, map, none,
  or_else, refl, some, true, ℕ, ◌<◌, ◌==◌, ◌∷◌, ◌≡◌, ◌≤◌,
}
use coloanex_prod.Db.{Subscription, SubscriptionPlan, Db, PlatformType, User}
use coloanex_prod.Orchestrator.Subscriptions.{
  refresh, resolve_tenant_found, is_usable, resolve_active_subscription, resolve_user_found,
  resolve_user_subscription, resolve_for_tenant, find_user,
}
use coloanex_prod.Db.Membership.{
  map-update_where, All-update_where, All-of_Elem, All-Elem, Elem-update_where, Distinct-Elem,
}
use coloanex_prod.Orchestrator.Usage.{
  restart_window, update_subscription, max_transactions_of, refresh_windows, ensure_window_fresh,
  plan_of, is_limit_reached, use_once, is_subscription_active, get_usage_window_days, consume_usage,
}
use coloanex_prod.Orchestrator.Backing.{Restarted, decide_gas-Restarted, restart_if_over-Restarted}
use coloanex_prod.Orchestrator.Gas.{resolve}
use coloanex_prod.Orchestrator.Decide.{
  orchestrate_allowed, OrchestrationInput, orchestrate_user, orchestrate, platform_of_request,
}
use coloanex_prod.Orchestrator.Guarantees.{orchestrate-IsBacked}
use coloanex_prod.Orchestrator.Frame.{orchestrate_user-cases}

-- A subscription whose plan has a limit (a positive one) has not passed it.
abbrev pub IsWithinLimit : List SubscriptionPlan → Subscription → Type 0
IsWithinLimit plans s =
    0 < max_transactions_of plans s → s.usage_count ≤ max_transactions_of plans s

-- No subscription has passed its limit; identifiers are a primary key.
pub record InQuota (d : Db) : Type 0 where
  pub distinct : Distinct (map (λ s. s.id) d.subscriptions)
  pub bounded : All (IsWithinLimit d.plans) d.subscriptions

-- Restarting windows, of whichever subscriptions.
restart-InQuota :
    (now id : ℕ) (d : Db)
    → InQuota d
    → InQuota
        (record d { subscriptions = update_subscription id (restart_window now) d.subscriptions })
restart-InQuota now id d h = record {
  distinct =
      rw
        (map-update_where (λ s. s.id) (λ s. s.id == id) (restart_window now) d.subscriptions
          (λ s. refl))
        h.distinct;
  bounded =
      All-update_where (IsWithinLimit d.plans) (λ s. s.id == id) (restart_window now)
        d.subscriptions (λ s b p. omega arith) h.bounded;
}

Restarted-InQuota : (now : ℕ) (d d' : Db) → Restarted now d d' → InQuota d → InQuota d'
Restarted-InQuota now d d' (inl same) h = rw same h
Restarted-InQuota now d d' (inr (id, e)) h = rw e (restart-InQuota now id d h)

refresh-InQuota :
    (now : ℕ) (found : List Subscription) (d : Db) → InQuota d → InQuota (refresh now found d)
unfolding refresh refresh_windows ensure_window_fresh
refresh-InQuota now [] d h = h
refresh-InQuota now (s ∷ found) d h =
    let d' = record d { subscriptions = ensure_window_fresh now d.plans s d.subscriptions } in
    refresh-InQuota now found d' (
      Restarted-InQuota now d d'
        (restart_if_over-Restarted now (get_usage_window_days (plan_of d.plans s.plan)) s.id
          s.usage_window_start d)
        h)

resolve_user_found-InQuota :
    (now user_id : ℕ) (found : List Subscription) (d : Db)
    → InQuota d
    → InQuota (resolve_user_found now user_id found d).1
unfolding resolve_user_found
resolve_user_found-InQuota now user_id [] d h = h
resolve_user_found-InQuota now user_id (s ∷ found) d h = refresh-InQuota now (s ∷ found) d h

resolve_tenant_found-InQuota :
    (now user_id tenant_id : ℕ) (found : List Subscription) (d : Db)
    → InQuota d
    → InQuota (resolve_tenant_found now user_id tenant_id found d).1
unfolding resolve_tenant_found resolve_user_subscription
resolve_tenant_found-InQuota now user_id tenant_id [] d h =
    resolve_user_found-InQuota now user_id _ d h
resolve_tenant_found-InQuota now user_id tenant_id (s ∷ found) d h =
    refresh-InQuota now (s ∷ found) d h

resolve_for_tenant-InQuota :
    (now user_id : ℕ) (tenant_id : Option ℕ) (d : Db)
    → InQuota d
    → InQuota (resolve_for_tenant now user_id tenant_id d).1
unfolding resolve_for_tenant resolve_user_subscription
resolve_for_tenant-InQuota now user_id none d h = resolve_user_found-InQuota now user_id _ d h
resolve_for_tenant-InQuota now user_id (some tenant_id) d h =
    resolve_tenant_found-InQuota now user_id tenant_id _ d h

orchestrate_allowed-InQuota :
    (now : ℕ) (input : OrchestrationInput) (user : User) (platform : PlatformType) (d : Db)
    → InQuota d
    → InQuota (orchestrate_allowed now input user platform d).1
unfolding orchestrate_allowed resolve_active_subscription
orchestrate_allowed-InQuota now input user platform d h =
    let (res, d') =
      resolve_active_subscription now input.user_id (or_else input.tenant_id user.tenant_id) d in
    Restarted-InQuota now d' _
      (decide_gas-Restarted now input platform res
        (resolve platform input.requested_gas_payment_mode user.gas_payment_mode) d')
      (resolve_for_tenant-InQuota now input.user_id _ d h)

orchestrate_user-InQuota :
    (now : ℕ) (input : OrchestrationInput) (user : User) (d : Db)
    → InQuota d
    → InQuota (orchestrate_user now input user d).1
orchestrate_user-InQuota now input user d h = elim (orchestrate_user-cases now input user d) [
  | inl same ↦ rw same h
  | inr last ↦
      rw last (orchestrate_allowed-InQuota now input user (platform_of_request input user) d h)
]

-- A usable subscription has room for one more use.
use_once-IsWithinLimit :
    (now : ℕ) (d : Db) (s : Subscription)
    → is_usable now d s ≡ true
    → IsWithinLimit d.plans (use_once now s)
unfolding is_usable is_subscription_active is_limit_reached
use_once-IsWithinLimit now d s h = ground arith

-- `orchestrate` itself lets no subscription pass its limit, whatever it decides.
pub orchestrate-InQuota :
    (now : ℕ) (input : OrchestrationInput) (d : Db)
    → InQuota d
    → InQuota (orchestrate now input d).1
unfolding orchestrate
orchestrate-InQuota now input d h = elim (Option-cases (find_user input.user_id d)) [
  | inl e ↦ rw (e, orchestrate) h
  | inr (user, e) ↦ rw (e, orchestrate) (orchestrate_user-InQuota now input user d h)
]

-- One use of a subscription that is usable.
consume-InQuota :
    (now id : ℕ) (d : Db) (s : Subscription)
    → InQuota d
    → Elem s d.subscriptions
    → is_usable now d s ≡ true
    → s.id ≡ id
    → InQuota (consume_usage now (some id) d)
unfolding consume_usage
consume-InQuota now id d s h stored usable same = record {
  distinct =
      rw (map-update_where (λ t. t.id) (λ t. t.id == id) (use_once now) d.subscriptions (λ t. refl))
        h.distinct;
  bounded = All-of_Elem (IsWithinLimit d.plans) _ (λ t m.
      let (x, stored_x, image) =
        Elem-update_where (λ u. u.id == id) (use_once now) t d.subscriptions m in
      rw image (elim (Bool-cases (x.id == id)) [
        | inl hit ↦ rw hit (
            rw
              (← Distinct-Elem (λ u. u.id) s x d.subscriptions h.distinct stored stored_x
                (ground arith))
              (use_once-IsWithinLimit now d s usable))
        | inr miss ↦ rw miss (All-Elem (IsWithinLimit d.plans) x d.subscriptions h.bounded stored_x)
      ]));
}

-- Where no subscription has passed its plan's limit and identifiers are distinct, this is still so
-- after a transaction that `orchestrate` allows and the use that the caller then records, whoever
-- pays the gas.
pub orchestrate-consume-InQuota :
    (now : ℕ) (input : OrchestrationInput) (d : Db)
    → InQuota d
    → (orchestrate now input d).0.eligible ≡ true
    → InQuota
        (consume_usage now (orchestrate now input d).0.subscription_id (orchestrate now input d).1)
unfolding consume_usage
orchestrate-consume-InQuota now input d h eligible =
    let (dec, d') = orchestrate now input d in
    elim (Option-cases dec.subscription_id) [
      | inl e ↦ rw (e, consume_usage) (orchestrate-InQuota now input d h)
      | inr (id, e) ↦
          let (s, chosen, same) = orchestrate-IsBacked now input d eligible id e in
          rw e (
            consume-InQuota now id d' s (orchestrate-InQuota now input d h) chosen.stored
              chosen.usable same)
    ]
