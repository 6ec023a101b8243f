-- ===== src/Orchestrator/Frame.antt =====
-- `orchestrate` and `consumeUsage` write to the subscriptions table and to no other.
use coloanex_prod.Common.{
  List, Option, Option-cases, [], ap, arith, inl, inr, none, or_else, refl, some, ℕ, ◌∙◌, ◌∷◌, ◌≡◌,
  ◌⊎◌,
}
use coloanex_prod.Db.{Subscription, User, PlatformType, Db}
use coloanex_prod.Orchestrator.Gas.{resolve}
use coloanex_prod.Orchestrator.Decide.{
  orchestrate, platform_of_request, orchestrate_user, OrchestrationInput, orchestrate_allowed,
}
use coloanex_prod.Orchestrator.Backing.{Restarted, decide_gas-Restarted}
use coloanex_prod.Orchestrator.Usage.{consume_usage}
use coloanex_prod.Orchestrator.Subscriptions.{
  find_user, resolve_user_subscription, resolve_active_subscription, resolve_for_tenant, refresh,
  resolve_user_found, resolve_tenant_found,
}

abbrev pub OnlySubscriptions : Db → Db → Type 0
OnlySubscriptions d d' = d' ≡ record d { subscriptions = d'.subscriptions }

pub OnlySubscriptions-trans :
    (d d' d'' : Db) → OnlySubscriptions d d' → OnlySubscriptions d' d'' → OnlySubscriptions d d''
OnlySubscriptions-trans d d' d'' p q =
    q ∙ ap (λ (x : Db). record x { subscriptions = d''.subscriptions }) p

resolve_user_found-OnlySubscriptions :
    (now user_id : ℕ) (found : List Subscription) (d : Db)
    → OnlySubscriptions d (resolve_user_found now user_id found d).1
unfolding resolve_user_found refresh
resolve_user_found-OnlySubscriptions now user_id [] d = refl
resolve_user_found-OnlySubscriptions now user_id (s ∷ found) d = refl

resolve_tenant_found-OnlySubscriptions :
    (now user_id tenant_id : ℕ) (found : List Subscription) (d : Db)
    → OnlySubscriptions d (resolve_tenant_found now user_id tenant_id found d).1
unfolding resolve_tenant_found refresh resolve_user_subscription
resolve_tenant_found-OnlySubscriptions now user_id tenant_id [] d =
    resolve_user_found-OnlySubscriptions now user_id _ d
resolve_tenant_found-OnlySubscriptions now user_id tenant_id (s ∷ found) d = refl

pub resolve_for_tenant-OnlySubscriptions :
    (now user_id : ℕ) (tenant_id : Option ℕ) (d : Db)
    → OnlySubscriptions d (resolve_for_tenant now user_id tenant_id d).1
unfolding resolve_for_tenant resolve_user_subscription
resolve_for_tenant-OnlySubscriptions now user_id none d =
    resolve_user_found-OnlySubscriptions now user_id _ d
resolve_for_tenant-OnlySubscriptions now user_id (some tenant_id) d =
    resolve_tenant_found-OnlySubscriptions now user_id tenant_id _ d

Restarted-OnlySubscriptions : (now : ℕ) (d d' : Db) → Restarted now d d' → OnlySubscriptions d d'
Restarted-OnlySubscriptions now d d' (inl same) = rw same
Restarted-OnlySubscriptions now d d' (inr (id, e)) = rw e

orchestrate_allowed-OnlySubscriptions :
    (now : ℕ) (input : OrchestrationInput) (user : User) (platform : PlatformType) (d : Db)
    → OnlySubscriptions d (orchestrate_allowed now input user platform d).1
unfolding orchestrate_allowed resolve_active_subscription
orchestrate_allowed-OnlySubscriptions now input user platform d =
    let (res, d') =
      resolve_active_subscription now input.user_id (or_else input.tenant_id user.tenant_id) d in
    OnlySubscriptions-trans d d' _ (resolve_for_tenant-OnlySubscriptions now input.user_id _ d) (
      Restarted-OnlySubscriptions now d' _ (
        decide_gas-Restarted now input platform res
          (resolve platform input.requested_gas_payment_mode user.gas_payment_mode) d'))

-- Where the last part is not reached, nothing is written.
pub orchestrate_user-cases :
    (now : ℕ) (input : OrchestrationInput) (user : User) (d : Db)
    → ((orchestrate_user now input user d).1 ≡ d)
      ⊎ (orchestrate_user now input user d
          ≡ orchestrate_allowed now input user (platform_of_request input user) d)
unfolding orchestrate_user
orchestrate_user-cases now input user d = ground arith

orchestrate_user-OnlySubscriptions :
    (now : ℕ) (input : OrchestrationInput) (user : User) (d : Db)
    → OnlySubscriptions d (orchestrate_user now input user d).1
orchestrate_user-OnlySubscriptions now input user d =
    elim (orchestrate_user-cases now input user d) [
      | inl same ↦ rw same
      | inr last ↦
          rw last (
            orchestrate_allowed-OnlySubscriptions now input user (platform_of_request input user) d)
    ]

-- Whatever it decides, `orchestrate` writes to the subscriptions table alone.
pub orchestrate-OnlySubscriptions :
    (now : ℕ) (input : OrchestrationInput) (d : Db)
    → OnlySubscriptions d (orchestrate now input d).1
unfolding orchestrate
orchestrate-OnlySubscriptions now input d = elim (Option-cases (find_user input.user_id d)) [
  | inl e ↦ rw (e, orchestrate)
  | inr (user, e) ↦ rw (e, orchestrate) (orchestrate_user-OnlySubscriptions now input user d)
]

pub consume_usage-OnlySubscriptions :
    (now : ℕ) (subscription_id : Option ℕ) (d : Db)
    → OnlySubscriptions d (consume_usage now subscription_id d)
unfolding consume_usage
consume_usage-OnlySubscriptions now none d = refl
consume_usage-OnlySubscriptions now (some id) d = refl
