-- ===== src/Orchestrator/Decide.antt =====
-- transaction-orchestrator.service.ts, `orchestrate`: the decision on one transaction. It changes the
-- database only in the usage windows of subscriptions.
use coloanex_prod.Common.{
  Bool, List, Option, String, [], any, false, if◌then◌else◌, is_some, none, not, or_else, some,
  true, ℕ, ◌&&◌, ◌∷◌,
}
use coloanex_prod.Db.{
  User, Role, super_admin, borrower, GasPaymentMode, platform_wallet, user_wallet, auto,
  PlatformType, web, app, GasPayer, pays_user, pays_platform, Wallet, WalletProvider, Subscription,
  SubscriptionScope, Db,
}
use coloanex_prod.Orchestrator.Gas.{Gas, resolve}
use coloanex_prod.Orchestrator.Subscriptions.{Resolution, find_user, resolve_active_subscription}
use coloanex_prod.Orchestrator.Policy.{FeatureFlags, Policy, evaluate}
use coloanex_prod.Orchestrator.Wallets.{resolve_wallet}

-- `platform` is none for a value that is neither 'APP' nor 'WEB'; `transactionType` is not read.
pub record OrchestrationInput : Type 0 where
  pub user_id : ℕ
  pub tenant_id : Option ℕ
  pub platform : Option PlatformType
  pub user_roles : List Role
  pub preferred_wallet_id : Option ℕ
  pub requested_gas_payment_mode : Option GasPaymentMode

-- `scope` and `plan` are none for 'NONE'; `platform` is the one of `evaluationData`.
pub record OrchestrationDecision : Type 0 where
  pub eligible : Bool
  pub denial_reason : Option String
  pub scope : Option SubscriptionScope
  pub plan : Option ℕ
  pub gas_payment_mode : GasPaymentMode
  pub gas_payer : GasPayer
  pub wallet_id : Option ℕ
  pub wallet_provider : Option WalletProvider
  pub subscription_id : Option ℕ
  pub feature_flags : Option FeatureFlags
  pub platform : Option PlatformType

abbrev pub is_borrower_role : Role → Bool
is_borrower_role borrower = true
is_borrower_role _ = false

abbrev pub is_super_admin_role : Role → Bool
is_super_admin_role super_admin = true
is_super_admin_role _ = false

abbrev pub is_app : PlatformType → Bool
is_app app = true
is_app web = false

abbrev pub is_user_wallet : Option GasPaymentMode → Bool
is_user_wallet (some user_wallet) = true
is_user_wallet (some platform_wallet) = false
is_user_wallet (some auto) = false
is_user_wallet none = false

abbrev pub pays_gas_user : GasPayer → Bool
pays_gas_user pays_user = true
pays_gas_user pays_platform = false

-- `input.userRoles?.length ? input.userRoles : user.roles…`
abbrev pub effective_roles : List Role → User → List Role
effective_roles [] user = user.roles
effective_roles (r ∷ rs) user = r ∷ rs

abbrev pub effective_platform : Option PlatformType → Bool → PlatformType
effective_platform none is_borrower = if is_borrower then app else web
effective_platform (some platform) is_borrower = platform

abbrev pub is_app_requested : Option PlatformType → Bool
is_app_requested none = false
is_app_requested (some platform) = is_app platform

-- A refusal before the subscription is looked for.
denied_early : String → GasPayer → OrchestrationDecision
denied_early reason payer = record {
  eligible = false;
  denial_reason = some reason;
  scope = none;
  plan = none;
  gas_payment_mode = platform_wallet;
  gas_payer = payer;
  wallet_id = none;
  wallet_provider = none;
  subscription_id = none;
  feature_flags = none;
  platform = none;
}

abbrev pub id_of_subscription : Option Subscription → Option ℕ
id_of_subscription none = none
id_of_subscription (some s) = some s.id

abbrev pub plan_of_subscription : Option Subscription → Option ℕ
plan_of_subscription none = none
plan_of_subscription (some s) = some s.plan

abbrev id_of_wallet : Option Wallet → Option ℕ
id_of_wallet none = none
id_of_wallet (some w) = some w.id

abbrev provider_of_wallet : Option Wallet → Option WalletProvider
provider_of_wallet none = none
provider_of_wallet (some w) = some w.provider

-- A decision once scope, plan and payer are known.
decision :
    Bool
    → Option String
    → Resolution
    → Gas
    → Option Wallet
    → Option ℕ
    → Option FeatureFlags
    → OrchestrationDecision
decision eligible reason res gas wallet subscription_id flags = record {
  eligible = eligible;
  denial_reason = reason;
  scope = res.scope;
  plan = plan_of_subscription res.subscription;
  gas_payment_mode = gas.gas_payment_mode;
  gas_payer = gas.gas_payer;
  wallet_id = id_of_wallet wallet;
  wallet_provider = provider_of_wallet wallet;
  subscription_id = subscription_id;
  feature_flags = flags;
  platform = none;
}

-- The last part: the wallet and the policy are known.
unfoldable pub decide_last :
    PlatformType → Resolution → Gas → Option Wallet → Policy → OrchestrationDecision
unfolding decision
decide_last platform res gas wallet policy =
    let id = id_of_subscription res.subscription in
    if pays_gas_user gas.gas_payer && not (is_some wallet)
    then decision false (some "No active wallet available for user-paid gas") res gas none id
        policy.feature_flags
    else if not policy.eligible
    then decision false policy.denial_reason res gas wallet id policy.feature_flags
    else record (decision true none res gas wallet id policy.feature_flags) {
      platform = some platform;
    }

-- The middle part: the subscription and the payer are known.
unfoldable pub decide_gas :
    ℕ → OrchestrationInput → PlatformType → Resolution → Gas → Db → OrchestrationDecision × Db
unfolding decide_last decision
decide_gas now input platform res gas d =
    if is_app platform && is_some input.preferred_wallet_id
    then (
      decision false
          (some
            "Wallet connection is not supported for mobile borrowers. Use subscription-based platform gas.")
          res gas none (id_of_subscription res.subscription) none,
      d,
    )
    else if not (pays_gas_user gas.gas_payer) && not (is_some res.subscription)
    then (
      decision false
          (or_else res.denial_reason (some "No valid subscription found for platform-paid gas."))
          res gas none none none,
      d,
    )
    else let wallet =
        resolve_wallet input.user_id platform input.preferred_wallet_id
          (pays_gas_user gas.gas_payer) d in
      let (policy, d') =
        evaluate now res.scope (plan_of_subscription res.subscription)
          (id_of_subscription res.subscription) (not (pays_gas_user gas.gas_payer)) d in
      (decide_last platform res gas wallet policy, d')

-- What follows the two refusals of the mobile app.
unfoldable pub orchestrate_allowed :
    ℕ → OrchestrationInput → User → PlatformType → Db → OrchestrationDecision × Db
orchestrate_allowed now input user platform d =
    let (res, d') =
      resolve_active_subscription now input.user_id (or_else input.tenant_id user.tenant_id) d in
    decide_gas now input platform res
      (resolve platform input.requested_gas_payment_mode user.gas_payment_mode) d'

abbrev pub is_borrower_request : OrchestrationInput → User → Bool
is_borrower_request input user = any is_borrower_role (effective_roles input.user_roles user)

abbrev pub platform_of_request : OrchestrationInput → User → PlatformType
platform_of_request input user = effective_platform input.platform (is_borrower_request input user)

-- The first part, for a user that exists.
unfoldable pub orchestrate_user : ℕ → OrchestrationInput → User → Db → OrchestrationDecision × Db
unfolding denied_early
orchestrate_user now input user d =
    let platform = platform_of_request input user in
    if is_app_requested input.platform && not (is_borrower_request input user)
    then (
      denied_early "Mobile app is restricted to Borrower users only. Please use the web platform."
          pays_platform,
      d,
    )
    else if is_app platform && is_user_wallet input.requested_gas_payment_mode
    then (
      denied_early
          "Wallet mode is not supported in the app. Please switch to Platform Mode (subscription mode)."
          pays_platform,
      d,
    )
    else orchestrate_allowed now input user platform d

unfoldable pub orchestrate : ℕ → OrchestrationInput → Db → OrchestrationDecision × Db
unfolding orchestrate_user denied_early
orchestrate now input d = elim (find_user input.user_id d) [
  | none ↦ (denied_early "User not found" pays_user, d)
  | some user ↦ orchestrate_user now input user d
]
