-- ===== src/Tests/Billing.antt =====
-- Payments, subscriptions and wallets at small inputs.
use coloanex_prod.Common.{[], arith, false, map, none, refl, some, true, ℕ, ◌++◌, ◌∷◌, ◌≡◌, ◌≤◌}
use coloanex_prod.Db.{
  TransactionType, user_scope, WalletProvider, WalletPurpose, web, unique_violation, err, ok, Db,
  Wallet, invalid_enum_value, tenant_scope,
}
use coloanex_prod.Service.{consume, submit, require_decision, find_contract}
use coloanex_prod.Orchestrator.Usage.{
  consume_usage, ensure_window_fresh, is_limit_reached, refresh_windows, get_usage_window_days,
  is_window_over, restart_if_over, cycle_days, is_subscription_active,
}
use coloanex_prod.Tests.Data.{wallet_of, borrower_jwt, db, lender_jwt, env, subscription_of}
use coloanex_prod.Payments.Apply.{
  apply_payment, pay_schedules, apply_to_schedules, new_status, pay_schedule, find_schedules,
}
use coloanex_prod.Payments.Repeat.{verify_payment-idempotent}
use coloanex_prod.Payments.Balance.{balance_totals, verify_payment-totals}
use coloanex_prod.Payments.Configs.{
  contract_context, gateway_esewa, gateway_khalti, resolve_user_config, config_for,
  resolve_tenant_config,
}
use coloanex_prod.Payments.Verify.{
  VerifyDto, create_transaction, Gateways, record_once, decide_payment, find_by_uuid,
  refers_to_rows, recorded, record_payment, verify_payment, bypass,
}
use coloanex_prod.Wallets.Service.{
  CreateWalletDto, create_wallet, ensure_wallet_management_allowed, find_wallet_user, store_wallets,
  clear_primaries, check_create, write_link, check_request, find_purpose, find_address,
}
use coloanex_prod.Wallets.Counts.{is_primary_of, HasDistinctIds, count}
use coloanex_prod.Wallets.Changes.{
  require_own, find_own, set_primary, promote, next_wallet, delete_wallet, promote_next,
  remove_wallet,
}
use coloanex_prod.Wallets.Primary.{create_wallet-primary}
use coloanex_prod.Wallets.Unique.{set_primary-unique_violation}
use coloanex_prod.Subscriptions.Select.{select_subscription}
use coloanex_prod.Subscriptions.SelectLaws.{SelectOutcome, select_subscription-outcome}
use coloanex_prod.Subscriptions.PurchaseLaws.{PurchaseOutcome, purchase-outcome}
use coloanex_prod.Subscriptions.Purchase.{
  PurchaseDto, purchase, purchase_in_scope, check_payment, upsert, find_same_plan, buy_for,
  find_active_plan, check_tenant,
}
use coloanex_prod.Orchestrator.Policy.{policy_window_days, reset_window, evaluate_limit, evaluate}
use coloanex_prod.Orchestrator.Gas.{resolve}
use coloanex_prod.Orchestrator.Subscriptions.{
  resolution_in, resolve_tenant_found, resolve_for_tenant, resolve_user_found,
  resolve_user_subscription, find_subscriptions, is_usable, choose, resolve_active_subscription,
  refresh,
}
use coloanex_prod.Orchestrator.Wallets.{
  any_wallet, wallet_by_purpose, preferred_wallet, resolve_wallet,
}
use coloanex_prod.Orchestrator.Decide.{
  orchestrate_user, decide_last, orchestrate, decide_gas, orchestrate_allowed,
}
use coloanex_prod.Common.Int.{◌+ℤ◌, pos, ◌-ℤ◌}
use coloanex_prod.Subscriptions.Lifecycle.{compute_lifecycle_status}

abbrev gateways : Gateways
gateways = record {
  configs = [];
  owner_user = λ tenant. none;
  env_config = λ gateway. true;
  registered = λ gateway. true;
  verify = λ uuid amount. some (record { success = true; gateway_transaction_id = none });
}

-- The first installment, paid in full.
abbrev repayment : ℕ → VerifyDto
repayment uuid = record {
  transaction_uuid = uuid;
  total_amount = 9333;
  gateway = gateway_esewa;
  type = TransactionType.installment_payment;
  contract_id = some 40;
  payment_schedule_ids = 70 ∷ [];
  wallet_id = none;
  gas_payment_mode = none;
}

verify_payment-totals_example :
    balance_totals (verify_payment gateways env (repayment 55) lender_jwt db).1 ≡ balance_totals db
verify_payment-totals_example = verify_payment-totals gateways env (repayment 55) lender_jwt db

abbrev fee_payment : VerifyDto
fee_payment = record {
  transaction_uuid = 57;
  total_amount = 500;
  gateway = gateway_khalti;
  type = TransactionType.fee;
  contract_id = none;
  payment_schedule_ids = [];
  wallet_id = none;
  gas_payment_mode = none;
}

abbrev db_after_fee : Db
db_after_fee = record db {
  transactions =
      db.transactions ++ recorded env fee_payment lender_jwt none (bypass lender_jwt) ∷ [];
}

fee_result :
    verify_payment gateways env fee_payment lender_jwt db
    ≡ (ok (record { success = true; transaction_id = some 900 }), db_after_fee)
unfolding verify_payment record_once record_payment decide_payment create_transaction refers_to_rows
    apply_payment consume consume_usage find_by_uuid contract_context submit config_for
fee_result = refl

verify_payment-idempotent_example :
    (verify_payment gateways env fee_payment borrower_jwt db_after_fee).1 ≡ db_after_fee
verify_payment-idempotent_example =
    verify_payment-idempotent gateways gateways env env fee_payment fee_payment lender_jwt
      borrower_jwt db db_after_fee (record { success = true; transaction_id = some 900 }) fee_result
      refl refl

-- Less than the first installment.
abbrev part_payment : VerifyDto
part_payment = record (repayment 58) { total_amount = 5000 }

part_payment_throws :
    (verify_payment gateways env part_payment lender_jwt db).0 ≡ err invalid_enum_value
unfolding verify_payment record_once record_payment decide_payment create_transaction refers_to_rows
    apply_payment apply_to_schedules find_schedules pay_schedules pay_schedule new_status consume
    consume_usage find_by_uuid contract_context submit config_for resolve_user_config
    resolve_tenant_config find_contract require_decision ◌+ℤ◌ ◌-ℤ◌ decide_last decide_gas
    orchestrate_allowed orchestrate_user orchestrate resolve policy_window_days reset_window
    evaluate_limit evaluate find_subscriptions is_usable choose refresh resolution_in
    resolve_user_found resolve_user_subscription resolve_tenant_found resolve_for_tenant
    resolve_active_subscription is_subscription_active is_limit_reached cycle_days
    get_usage_window_days is_window_over restart_if_over ensure_window_fresh refresh_windows
    preferred_wallet wallet_by_purpose any_wallet resolve_wallet
part_payment_throws = refl

part_payment_debits :
    map
      (λ c. c.outstanding_balance)
      (verify_payment gateways env part_payment lender_jwt db).1.contracts
    ≡ pos 107000 ∷ []
unfolding verify_payment record_once record_payment decide_payment create_transaction refers_to_rows
    apply_payment apply_to_schedules find_schedules pay_schedules pay_schedule new_status consume
    consume_usage find_by_uuid contract_context submit config_for resolve_user_config
    resolve_tenant_config find_contract require_decision ◌+ℤ◌ ◌-ℤ◌ decide_last decide_gas
    orchestrate_allowed orchestrate_user orchestrate resolve policy_window_days reset_window
    evaluate_limit evaluate find_subscriptions is_usable choose refresh resolution_in
    resolve_user_found resolve_user_subscription resolve_tenant_found resolve_for_tenant
    resolve_active_subscription is_subscription_active is_limit_reached cycle_days
    get_usage_window_days is_window_over restart_if_over ensure_window_fresh refresh_windows
    preferred_wallet wallet_by_purpose any_wallet resolve_wallet
part_payment_debits = refl

abbrev buying : PurchaseDto
buying = record {
  plan_code = 6;
  scope = user_scope;
  tenant_id = none;
  payment_transaction_id = some 51;
}

purchase-outcome_example :
    PurchaseOutcome env buying lender_jwt db (purchase env buying lender_jwt db)
purchase-outcome_example = purchase-outcome env buying lender_jwt db

select_subscription-outcome_example :
    SelectOutcome env 91 lender_jwt db (select_subscription env 91 lender_jwt db)
select_subscription-outcome_example = select_subscription-outcome env 91 lender_jwt db

abbrev linking : CreateWalletDto
linking = record {
  provider = WalletProvider.metamask;
  platform = web;
  purpose = some WalletPurpose.primary;
  address = 83;
  label = none;
}

db-HasDistinctIds : HasDistinctIds db
db-HasDistinctIds id = ground arith

create_wallet-primary_example :
    count (is_primary_of 1) (create_wallet env 1 linking db).1.wallets ≤ 1
create_wallet-primary_example =
    create_wallet-primary env 1 linking db db-HasDistinctIds (omega arith)

abbrev second_wallet : Wallet
second_wallet = wallet_of 81 WalletPurpose.gas false

own_wallet : require_own 1 81 db ≡ (ok second_wallet, db)
unfolding require_own find_own ensure_wallet_management_allowed find_wallet_user
own_wallet = refl

set_primary-unique_violation_example : set_primary env 1 81 db ≡ (err unique_violation, db)
set_primary-unique_violation_example =
    set_primary-unique_violation env 1 81 second_wallet db own_wallet (omega arith)

-- Three wallets, the first of them primary.
abbrev three_wallets : Db
three_wallets = record db {
  wallets =
      wallet_of 80 WalletPurpose.primary true
      ∷ wallet_of 81 WalletPurpose.gas false
      ∷ record (wallet_of 82 WalletPurpose.general false) { created_at = 9 }
      ∷ [];
}

remove_wallet_two_primaries :
    count (is_primary_of 1) (remove_wallet env 1 81 three_wallets).1.wallets ≡ 2
unfolding remove_wallet require_own find_own ensure_wallet_management_allowed find_wallet_user
    delete_wallet promote_next promote next_wallet
remove_wallet_two_primaries = refl

-- The selected subscription has ended and is bought again.
abbrev ended : Db
ended = record db { subscriptions = record (subscription_of 90 5 true) { ends_at = some 20 } ∷ [] }

abbrev renewing : PurchaseDto
renewing = record {
  plan_code = 5;
  scope = tenant_scope;
  tenant_id = none;
  payment_transaction_id = none;
}

purchase_unselects :
    map (λ s. s.selected) (purchase env renewing lender_jwt ended).1.subscriptions ≡ false ∷ []
unfolding purchase purchase_in_scope check_payment check_tenant buy_for find_active_plan
    find_same_plan upsert compute_lifecycle_status
purchase_unselects = refl

-- An address that another wallet of the user has.
abbrev relinking : CreateWalletDto
relinking = record linking { address = 81 }

create_wallet_no_primary :
    ((create_wallet env 1 relinking db).0 ≡ err unique_violation)
    × (count (is_primary_of 1) (create_wallet env 1 relinking db).1.wallets ≡ 0)
unfolding create_wallet check_create check_request ensure_wallet_management_allowed find_wallet_user
    find_address find_purpose clear_primaries write_link store_wallets
create_wallet_no_primary = (refl, refl)
