-- ===== src/Orchestrator/Guarantees.antt =====
-- What an eligible decision of `orchestrate` rests on (transaction-orchestrator.service.ts).
use coloanex_prod.Common.{
  Option, Option-cases, ap, arith, inl, inr, is_some, none, or_else, refl, some, sym, true, ℕ, ◌∙◌,
  ◌≡◌,
}
use coloanex_prod.Db.{
  web, Wallet, PlatformType, Db, pays_platform, User, Subscription, pays_user, GasPaymentMode,
}
use coloanex_prod.Orchestrator.Eligible.{IsChosen, is_owned, resolve_for_tenant-IsChosen}
use coloanex_prod.Orchestrator.Subscriptions.{
  effective_tenant, resolve_active_subscription, resolve_for_tenant, find_user, Resolution,
}
use coloanex_prod.Orchestrator.Decide.{
  orchestrate, orchestrate_user, OrchestrationInput, OrchestrationDecision, decide_gas,
  orchestrate_allowed, platform_of_request, id_of_subscription,
}
use coloanex_prod.Orchestrator.Backing.{
  decide_gas-platform, decide_gas-Restarted, Restarted-IsChosen, decide_gas-user, decide_gas-named,
}
use coloanex_prod.Orchestrator.Gas.{resolve, Gas, resolve-pays_user}
use coloanex_prod.Orchestrator.WalletLaws.{IsActiveWallet, resolve_wallet-IsActiveWallet}
use coloanex_prod.Orchestrator.Frame.{resolve_for_tenant-OnlySubscriptions}

-- The tenant of a request: its own, or else the user's.
abbrev pub tenant_of_request : OrchestrationInput → Db → Option ℕ
tenant_of_request input d = effective_tenant input.tenant_id input.user_id d

-- Of a decision and the database after it: a subscription that an eligible decision names is
-- usable and of the right owner.
abbrev pub IsBacked : ℕ → ℕ → Option ℕ → OrchestrationDecision × Db → Type 0
IsBacked now user_id tenant_id (dec, d) =
    dec.eligible ≡ true
    → (id : ℕ) → dec.subscription_id ≡ some id
    → (s : Subscription) × IsChosen now (is_owned user_id tenant_id) d s × (s.id ≡ id)

id_of_subscription-some :
    (o : Option Subscription) (id : ℕ)
    → id_of_subscription o ≡ some id
    → (s : Subscription) × (o ≡ some s) × (s.id ≡ id)
id_of_subscription-some none id h = absurd (ground arith)
id_of_subscription-some (some s) id h = (s, refl, ground arith)

decide_gas-IsBacked :
    (now : ℕ) (input : OrchestrationInput) (platform : PlatformType) (gas : Gas)
    (tenant_id : Option ℕ) (d : Db)
    → let (res, d') = resolve_for_tenant now input.user_id tenant_id d in
      IsBacked now input.user_id tenant_id (decide_gas now input platform res gas d')
decide_gas-IsBacked now input platform gas tenant_id d eligible id named =
    let (res, d') = resolve_for_tenant now input.user_id tenant_id d in
    let (s, chosen, same) =
      id_of_subscription-some res.subscription id
        (sym (decide_gas-named now input platform res gas d' eligible) ∙ named) in
    let (s', chosen', same') =
      Restarted-IsChosen now input.user_id tenant_id d' (decide_gas now input platform res gas d').1
        s (decide_gas-Restarted now input platform res gas d')
        (resolve_for_tenant-IsChosen now input.user_id tenant_id d chosen) in
    (s', chosen', same' ∙ same)

-- The early refusals are not eligible, so an eligible decision comes from the last part.
orchestrate_user-eligible :
    (now : ℕ) (input : OrchestrationInput) (user : User) (d : Db)
    → (orchestrate_user now input user d).0.eligible ≡ true
    → orchestrate_user now input user d
      ≡ orchestrate_allowed now input user (platform_of_request input user) d
unfolding orchestrate_user
orchestrate_user-eligible now input user d h = ground arith

orchestrate-eligible :
    (now : ℕ) (input : OrchestrationInput) (d : Db)
    → (orchestrate now input d).0.eligible ≡ true
    → (user : User) × (find_user input.user_id d ≡ some user)
      × (orchestrate now input d
          ≡ orchestrate_allowed now input user (platform_of_request input user) d)
unfolding orchestrate
orchestrate-eligible now input d h = elim (Option-cases (find_user input.user_id d)) [
  | inl e ↦ absurd (ground arith)
  | inr (user, e) ↦ (user, e, ground (arith, orchestrate_user-eligible now input user d))
]

-- The user's own tenant is looked up twice, with the same answer.
effective_tenant_twice :
    (input : OrchestrationInput) (user : User) (d : Db)
    → find_user input.user_id d ≡ some user
    → effective_tenant (or_else input.tenant_id user.tenant_id) input.user_id d
      ≡ tenant_of_request input d
effective_tenant_twice input user d h = ground arith

-- Whoever pays: a subscription that an eligible decision names is usable and of the right owner.
pub orchestrate-IsBacked :
    (now : ℕ) (input : OrchestrationInput) (d : Db)
    → IsBacked now input.user_id (tenant_of_request input d) (orchestrate now input d)
unfolding orchestrate_allowed resolve_active_subscription
orchestrate-IsBacked now input d eligible id named =
    let (user, found, last) = orchestrate-eligible now input d eligible in
    rw (last, ← effective_tenant_twice input user d found)
      (decide_gas-IsBacked now input (platform_of_request input user)
        (resolve (platform_of_request input user) input.requested_gas_payment_mode
          user.gas_payment_mode)
        (effective_tenant (or_else input.tenant_id user.tenant_id) input.user_id d) d
        (rw last at eligible) id (rw last at named))

is_some-value : (o : Option ℕ) → is_some o ≡ true → (a : ℕ) × (o ≡ some a)
is_some-value none h = absurd (ground arith)
is_some-value (some a) h = (a, refl)

orchestrate-platform_named :
    (now : ℕ) (input : OrchestrationInput) (d : Db)
    → (orchestrate now input d).0.eligible ≡ true
    → (orchestrate now input d).0.gas_payer ≡ pays_platform
    → is_some (orchestrate now input d).0.subscription_id ≡ true
unfolding orchestrate_allowed
orchestrate-platform_named now input d eligible payer =
    let (user, found, last) = orchestrate-eligible now input d eligible in
    let (res, d') =
      resolve_active_subscription now input.user_id (or_else input.tenant_id user.tenant_id) d in
    rw last (
      decide_gas-platform now input (platform_of_request input user) res _ d' (rw last at eligible)
        (rw last at payer))

-- A transaction that is allowed on platform-paid gas is backed by a subscription that, in the
-- database after the decision, is active, within its dates and below its plan's limit, and that
-- belongs to the user or to the tenant of the request.
pub orchestrate-platform_backed :
    (now : ℕ) (input : OrchestrationInput) (d : Db)
    → (orchestrate now input d).0.eligible ≡ true
    → (orchestrate now input d).0.gas_payer ≡ pays_platform
    → (s : Subscription) × IsChosen now
        (is_owned input.user_id (tenant_of_request input d))
        (orchestrate now input d).1
        s
      × ((orchestrate now input d).0.subscription_id ≡ some s.id)
orchestrate-platform_backed now input d eligible payer =
    let (id, named) = is_some-value _ (orchestrate-platform_named now input d eligible payer) in
    let (s, chosen, same) = orchestrate-IsBacked now input d eligible id named in
    (s, chosen, named ∙ ap some (sym same))

decide_gas-payer :
    (now : ℕ) (input : OrchestrationInput) (platform : PlatformType) (res : Resolution) (gas : Gas)
    (d : Db)
    → (decide_gas now input platform res gas d).0.gas_payer ≡ gas.gas_payer
unfolding decide_gas
decide_gas-payer now input platform res gas d = ground arith

-- The wallet of an eligible decision on gas that the user pays, for a gas record of `resolve`.
decide_gas-IsActiveWallet :
    (now : ℕ) (input : OrchestrationInput) (platform : PlatformType) (res : Resolution)
    (requested : Option GasPaymentMode) (mode : GasPaymentMode) (d : Db)
    → let r = decide_gas now input platform res (resolve platform requested mode) d in
      r.0.eligible ≡ true
      → r.0.gas_payer ≡ pays_user
      → (w : Wallet) × IsActiveWallet input.user_id web d w × (r.0.wallet_id ≡ some w.id)
decide_gas-IsActiveWallet now input platform res requested mode d eligible payer =
    let gas = resolve platform requested mode in
    let (w, found, named) = decide_gas-user now input platform res gas d eligible payer in
    let on_web : platform ≡ web =
      ((resolve-pays_user platform requested mode).0
        (sym (decide_gas-payer now input platform res gas d) ∙ payer)).0 in
    (
      w,
      resolve_wallet-IsActiveWallet input.user_id web input.preferred_wallet_id true d w
          (rw on_web at found),
      named,
    )

IsActiveWallet-same :
    {user_id : ℕ} {platform : PlatformType} {d d' : Db} {w : Wallet}
    → d'.wallets ≡ d.wallets
    → IsActiveWallet user_id platform d' w
    → IsActiveWallet user_id platform d w
IsActiveWallet-same {w} same h = record { stored = rw same at h.stored; candidate = h.candidate }

-- A transaction that is allowed on user-paid gas is made on the web, and names an active wallet of
-- the user for the web.
pub orchestrate-user_backed :
    (now : ℕ) (input : OrchestrationInput) (d : Db)
    → (orchestrate now input d).0.eligible ≡ true
    → (orchestrate now input d).0.gas_payer ≡ pays_user
    → (w : Wallet) × IsActiveWallet input.user_id web d w
      × ((orchestrate now input d).0.wallet_id ≡ some w.id)
unfolding orchestrate_allowed resolve_active_subscription
orchestrate-user_backed now input d eligible payer =
    let (user, found, last) = orchestrate-eligible now input d eligible in
    let (res, d') =
      resolve_active_subscription now input.user_id (or_else input.tenant_id user.tenant_id) d in
    let (w, active, named) =
      decide_gas-IsActiveWallet now input (platform_of_request input user) res
        input.requested_gas_payment_mode user.gas_payment_mode d' (rw last at eligible)
        (rw last at payer) in
    (
      w,
      IsActiveWallet-same
          (ap (λ x. x.wallets) (resolve_for_tenant-OnlySubscriptions now input.user_id _ d)) active,
      rw last named,
    )
