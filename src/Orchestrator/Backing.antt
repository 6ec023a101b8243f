-- ===== src/Orchestrator/Backing.antt =====
-- The subscription that an eligible decision names, through the policy's reset of its window, and
-- the wallet of a user who pays.
use coloanex_prod.Common.{
  Bool, Bool-cases, Option, Option-cases, arith, get_or, if◌then◌else◌, inl, inr, is_some, none,
  not, refl, some, true, ℕ, ◌==◌, ◌∙◌, ◌≡◌, ◌⊎◌,
}
use coloanex_prod.Db.{
  SubscriptionScope, Db, Subscription, pays_user, pays_platform, Wallet, PlatformType,
}
use coloanex_prod.Orchestrator.Policy.{
  evaluate, reset_window, evaluate_limit, window_start_of, policy_window_days, find_subscription,
}
use coloanex_prod.Orchestrator.Usage.{
  update_subscription, max_of_plan, is_window_over, restart_window, plan_of, is_limit_reached,
  restart_if_over,
}
use coloanex_prod.Orchestrator.Eligible.{IsChosen, is_owned, restart-is_usable}
use coloanex_prod.Db.Membership.{update_where-Elem}
use coloanex_prod.Orchestrator.Gas.{Gas}
use coloanex_prod.Orchestrator.Subscriptions.{Resolution, is_usable}
use coloanex_prod.Orchestrator.Wallets.{resolve_wallet}
use coloanex_prod.Orchestrator.Decide.{
  id_of_subscription, decide_gas, OrchestrationInput, plan_of_subscription, pays_gas_user,
}

-- The only change that the policy makes: one subscription's window is restarted, or nothing is.
abbrev pub Restarted : ℕ → Db → Db → Type 0
Restarted now d d' =
    (d' ≡ d)
    ⊎ ((id : ℕ) × (d' ≡ record d {
      subscriptions = update_subscription id (restart_window now) d.subscriptions;
    }))

pub restart_if_over-Restarted :
    (now days id : ℕ) (start : Option ℕ) (d : Db)
    → Restarted now d
        (record d { subscriptions = restart_if_over now days id start d.subscriptions })
unfolding restart_if_over
restart_if_over-Restarted now days id none d = inl refl
restart_if_over-Restarted now days id (some start) d =
    elim (Bool-cases (is_window_over now days start)) [
      | inl over ↦ rw over (inr (id, refl))
      | inr fresh ↦ rw fresh (inl refl)
    ]

evaluate_limit-Restarted :
    (now limit days : ℕ) (subscription_id : Option ℕ) (d : Db)
    → Restarted now d (evaluate_limit now limit days subscription_id d).1
unfolding evaluate_limit reset_window
evaluate_limit-Restarted now limit days none d = inl refl
evaluate_limit-Restarted now limit days (some id) d = elim (Bool-cases (limit == 0)) [
  | inl unlimited ↦ rw unlimited (inl refl)
  | inr limited ↦
      rw limited
        (restart_if_over-Restarted now days id (window_start_of (find_subscription id d)) d)
]

pub evaluate-Restarted :
    (now : ℕ) (scope : Option SubscriptionScope) (plan subscription_id : Option ℕ) (required : Bool)
    (d : Db)
    → Restarted now d (evaluate now scope plan subscription_id required d).1
unfolding evaluate
evaluate-Restarted now scope plan subscription_id required d = ground (
  arith,
  evaluate_limit-Restarted now (max_of_plan (plan_of d.plans (get_or plan 0)))
      (policy_window_days (plan_of d.plans (get_or plan 0))) subscription_id d,
)

-- What is usable stays usable through a restart, for an owner that the restart does not touch.
restart-IsChosen :
    (now id : ℕ) (owned : Subscription → Bool) (d : Db) (s : Subscription)
    → owned (restart_window now s) ≡ true
    → IsChosen now owned d s
    → IsChosen now owned
        (record d { subscriptions = update_subscription id (restart_window now) d.subscriptions })
        (if s.id == id then restart_window now s else s)
unfolding is_usable is_limit_reached
restart-IsChosen now id owned d s kept h = record {
  stored = update_where-Elem (λ t. t.id == id) (restart_window now) s d.subscriptions h.stored;
  usable = elim (Bool-cases (s.id == id)) [
    | inl hit ↦ rw hit (restart-is_usable now d s h.usable)
    | inr miss ↦ rw miss h.usable
  ];
  owner = elim (Bool-cases (s.id == id)) [ inl hit ↦ rw hit kept | inr miss ↦ rw miss h.owner ];
}

restart_id :
    (now id : ℕ) (s : Subscription) → (if s.id == id then restart_window now s else s).id ≡ s.id
restart_id now id s = ground arith

is_owned-restart :
    (now user_id : ℕ) (tenant_id : Option ℕ) (s : Subscription)
    → is_owned user_id tenant_id (restart_window now s) ≡ is_owned user_id tenant_id s
is_owned-restart now user_id none s = refl
is_owned-restart now user_id (some t) s = refl

pub Restarted-IsChosen :
    (now user_id : ℕ) (tenant_id : Option ℕ) (d d' : Db) (s : Subscription)
    → Restarted now d d'
    → IsChosen now (is_owned user_id tenant_id) d s
    → (s' : Subscription) × IsChosen now (is_owned user_id tenant_id) d' s' × (s'.id ≡ s.id)
Restarted-IsChosen now user_id tenant_id d d' s (inl same) h = (s, rw same h, refl)
Restarted-IsChosen now user_id tenant_id d d' s (inr (id, e)) h = (
  if s.id == id then restart_window now s else s,
  rw e (
      restart-IsChosen now id (is_owned user_id tenant_id) d s
        (is_owned-restart now user_id tenant_id s ∙ h.owner) h),
  restart_id now id s,
)

-- An eligible decision names the resolution's subscription, which there is if the platform pays.
pub decide_gas-named :
    (now : ℕ) (input : OrchestrationInput) (platform : PlatformType) (res : Resolution) (gas : Gas)
    (d : Db)
    → (decide_gas now input platform res gas d).0.eligible ≡ true
    → (decide_gas now input platform res gas d).0.subscription_id
      ≡ id_of_subscription res.subscription
unfolding decide_gas
decide_gas-named now input platform res gas d eligible = ground arith

pub decide_gas-platform :
    (now : ℕ) (input : OrchestrationInput) (platform : PlatformType) (res : Resolution) (gas : Gas)
    (d : Db)
    → (decide_gas now input platform res gas d).0.eligible ≡ true
    → (decide_gas now input platform res gas d).0.gas_payer ≡ pays_platform
    → is_some (decide_gas now input platform res gas d).0.subscription_id ≡ true
unfolding decide_gas
decide_gas-platform now input platform res gas d eligible payer = ground arith

pub decide_gas-Restarted :
    (now : ℕ) (input : OrchestrationInput) (platform : PlatformType) (res : Resolution) (gas : Gas)
    (d : Db)
    → Restarted now d (decide_gas now input platform res gas d).1
unfolding decide_gas
decide_gas-Restarted now input platform res gas d = ground (
  arith,
  evaluate-Restarted now res.scope (plan_of_subscription res.subscription)
      (id_of_subscription res.subscription) (not (pays_gas_user gas.gas_payer)) d,
)

-- An eligible decision on user-paid gas names a wallet that the resolver found.
pub decide_gas-user :
    (now : ℕ) (input : OrchestrationInput) (platform : PlatformType) (res : Resolution) (gas : Gas)
    (d : Db)
    → (decide_gas now input platform res gas d).0.eligible ≡ true
    → (decide_gas now input platform res gas d).0.gas_payer ≡ pays_user
    → (w : Wallet) × (resolve_wallet input.user_id platform input.preferred_wallet_id true d
        ≡ some w)
      × ((decide_gas now input platform res gas d).0.wallet_id ≡ some w.id)
unfolding decide_gas
decide_gas-user now input platform res gas d eligible payer =
    elim (Option-cases (resolve_wallet input.user_id platform input.preferred_wallet_id true d)) [
      | inl e ↦ absurd (ground arith)
      | inr (w, e) ↦ (w, e, ground arith)
    ]
