-- ===== src/Tests/Orchestration.antt =====
-- The orchestrator at small inputs.
use coloanex_prod.Common.{Option, [], arith, false, none, refl, some, true, ◌∷◌, ◌≡◌}
use coloanex_prod.Common.Text.{codes}
use coloanex_prod.Db.{
  tenant_scope, Role, WalletPurpose, web, user_wallet, pays_user, GasPaymentMode, pays_platform,
  Wallet, Subscription, SubscriptionPlan,
}
use coloanex_prod.Orchestrator.WalletLaws.{IsActiveWallet, resolve_wallet-IsActiveWallet}
use coloanex_prod.Orchestrator.Frame.{OnlySubscriptions, orchestrate-OnlySubscriptions}
use coloanex_prod.Orchestrator.Gas.{resolve}
use coloanex_prod.Orchestrator.Wallets.{
  resolve_wallet, wallet_by_purpose, preferred_wallet, any_wallet,
}
use coloanex_prod.Orchestrator.Decide.{
  orchestrate, OrchestrationInput, orchestrate_user, decide_gas, orchestrate_allowed, decide_last,
}
use coloanex_prod.Tests.Data.{wallet_of, db, plan_with}
use coloanex_prod.Orchestrator.Policy.{evaluate, policy_window_days, reset_window, evaluate_limit}
use coloanex_prod.Orchestrator.Eligible.{IsChosen, is_owned}
use coloanex_prod.Orchestrator.Usage.{
  consume_usage, refresh_windows, cycle_days, get_usage_window_days, is_limit_reached,
  restart_if_over, is_subscription_active, ensure_window_fresh, is_window_over,
}
use coloanex_prod.Orchestrator.Subscriptions.{
  find_subscriptions, resolve_user_subscription, resolve_for_tenant, is_usable,
  resolve_tenant_found, choose, resolve_user_found, refresh, resolve_active_subscription,
  resolution_in,
}
use coloanex_prod.Orchestrator.Guarantees.{
  tenant_of_request, orchestrate-platform_backed, orchestrate-user_backed,
}
use coloanex_prod.Orchestrator.Quota.{InQuota, orchestrate-consume-InQuota}

abbrev request : Option GasPaymentMode → OrchestrationInput
request mode = record {
  user_id = 1;
  tenant_id = some 10;
  platform = some web;
  user_roles = Role.lender ∷ [];
  preferred_wallet_id = none;
  requested_gas_payment_mode = mode;
}

resolve_wallet-IsActiveWallet_example :
    IsActiveWallet 1 web db (wallet_of 81 WalletPurpose.gas false)
unfolding resolve_wallet preferred_wallet wallet_by_purpose any_wallet
resolve_wallet-IsActiveWallet_example =
    resolve_wallet-IsActiveWallet 1 web none true db (wallet_of 81 WalletPurpose.gas false) refl

orchestrate-OnlySubscriptions_example : OnlySubscriptions db (orchestrate 1000 (request none) db).1
orchestrate-OnlySubscriptions_example = orchestrate-OnlySubscriptions 1000 (request none) db

platform_allowed : (orchestrate 1000 (request none) db).0.eligible ≡ true
unfolding decide_last decide_gas orchestrate_allowed orchestrate_user orchestrate resolve
    policy_window_days reset_window evaluate_limit evaluate find_subscriptions is_usable choose
    refresh resolution_in resolve_user_found resolve_user_subscription resolve_tenant_found
    resolve_for_tenant resolve_active_subscription is_subscription_active is_limit_reached
    cycle_days get_usage_window_days is_window_over restart_if_over ensure_window_fresh
    refresh_windows preferred_wallet wallet_by_purpose any_wallet resolve_wallet
platform_allowed = refl

platform_pays : (orchestrate 1000 (request none) db).0.gas_payer ≡ pays_platform
unfolding decide_last decide_gas orchestrate_allowed orchestrate_user orchestrate resolve
    policy_window_days reset_window evaluate_limit evaluate find_subscriptions is_usable choose
    refresh resolution_in resolve_user_found resolve_user_subscription resolve_tenant_found
    resolve_for_tenant resolve_active_subscription is_subscription_active is_limit_reached
    cycle_days get_usage_window_days is_window_over restart_if_over ensure_window_fresh
    refresh_windows preferred_wallet wallet_by_purpose any_wallet resolve_wallet
platform_pays = refl

user_allowed : (orchestrate 1000 (request (some user_wallet)) db).0.eligible ≡ true
unfolding decide_last decide_gas orchestrate_allowed orchestrate_user orchestrate resolve
    policy_window_days reset_window evaluate_limit evaluate find_subscriptions is_usable choose
    refresh resolution_in resolve_user_found resolve_user_subscription resolve_tenant_found
    resolve_for_tenant resolve_active_subscription is_subscription_active is_limit_reached
    cycle_days get_usage_window_days is_window_over restart_if_over ensure_window_fresh
    refresh_windows preferred_wallet wallet_by_purpose any_wallet resolve_wallet
user_allowed = refl

user_pays : (orchestrate 1000 (request (some user_wallet)) db).0.gas_payer ≡ pays_user
unfolding decide_last decide_gas orchestrate_allowed orchestrate_user orchestrate resolve
    policy_window_days reset_window evaluate_limit evaluate find_subscriptions is_usable choose
    refresh resolution_in resolve_user_found resolve_user_subscription resolve_tenant_found
    resolve_for_tenant resolve_active_subscription is_subscription_active is_limit_reached
    cycle_days get_usage_window_days is_window_over restart_if_over ensure_window_fresh
    refresh_windows preferred_wallet wallet_by_purpose any_wallet resolve_wallet
user_pays = refl

orchestrate-platform_backed_example :
    (s : Subscription) × IsChosen 1000
      (is_owned 1 (tenant_of_request (request none) db))
      (orchestrate 1000 (request none) db).1
      s
    × ((orchestrate 1000 (request none) db).0.subscription_id ≡ some s.id)
orchestrate-platform_backed_example =
    orchestrate-platform_backed 1000 (request none) db platform_allowed platform_pays

orchestrate-user_backed_example :
    (w : Wallet) × IsActiveWallet 1 web db w
    × ((orchestrate 1000 (request (some user_wallet)) db).0.wallet_id ≡ some w.id)
orchestrate-user_backed_example =
    orchestrate-user_backed 1000 (request (some user_wallet)) db user_allowed user_pays

-- The small database is within its limits.
db-InQuota : InQuota db
db-InQuota = record {
  distinct = ((ground arith, tt), (tt, tt));
  bounded = (λ limited. omega arith, (λ limited. omega arith, tt));
}

orchestrate-consume-InQuota_example : InQuota (
    consume_usage 1000
      (orchestrate 1000 (request none) db).0.subscription_id
      (orchestrate 1000 (request none) db).1)
orchestrate-consume-InQuota_example =
    orchestrate-consume-InQuota 1000 (request none) db db-InQuota platform_allowed

-- A plan whose billing cycle is written in lower case.
abbrev lower_case_plan : SubscriptionPlan
lower_case_plan = record (plan_with 5 tenant_scope 0) { billing_cycle = codes "yearly" }

windows_differ :
    (get_usage_window_days (some lower_case_plan) ≡ 365)
    × (policy_window_days (some lower_case_plan) ≡ 30)
unfolding get_usage_window_days policy_window_days cycle_days
windows_differ = (refl, refl)
