-- ===== src/Tests/Summaries.antt =====
-- Transactions by hand, the summary of a wallet and the configuration of gateways at small inputs.
use coloanex_prod.Common.{[], arith, false, none, refl, some, true, ◌*◌, ◌+◌, ◌/◌, ◌∷◌, ◌≡◌}
use coloanex_prod.Db.{TransactionType, ok, Transaction, user_scope}
use coloanex_prod.Service.{Env, consume, require_decision, find_transaction, submit}
use coloanex_prod.Tests.Data.{env, lender_jwt, db, plan_with}
use coloanex_prod.Payments.ConfigLaws.{upsert_config-resolve}
use coloanex_prod.Payments.Configuring.{
  store_config, written_config, upsert_for, UpsertPaymentConfigDto, config_owner, upsert_config,
}
use coloanex_prod.Payments.Configs.{PaymentConfig, gateway_khalti, resolve_tenant_config}
use coloanex_prod.Transactions.SummaryLaws.{CountsUp, get_wallet_summary-CountsUp}
use coloanex_prod.Transactions.Record.{
  CreateTransactionDto, record_transaction, store_decided, connects, insert_transaction,
  transaction_input, pending_transaction,
}
use coloanex_prod.Transactions.Summary.{get_wallet_summary}
use coloanex_prod.Transactions.RecordLaws.{
  RecordOutcome, record_transaction-RecordOutcome, record_transaction-check_payment,
}
use coloanex_prod.Transactions.BucketLaws.{
  IsCalendar, CoversRange, build_wallet_buckets-CoversRange,
}
use coloanex_prod.Transactions.Buckets.{DateInput, build_wallet_buckets, Months}
use coloanex_prod.Orchestrator.Usage.{
  get_usage_window_days, restart_if_over, ensure_window_fresh, is_limit_reached, is_window_over,
  refresh_windows, is_subscription_active, cycle_days,
}
use coloanex_prod.Orchestrator.Subscriptions.{
  resolve_active_subscription, is_usable, resolve_user_subscription, resolve_tenant_found,
  resolution_in, choose, resolve_for_tenant, find_subscriptions, resolve_user_found, refresh,
}
use coloanex_prod.Orchestrator.Decide.{
  decide_last, decide_gas, orchestrate, orchestrate_user, orchestrate_allowed, OrchestrationInput,
}
use coloanex_prod.Orchestrator.Policy.{policy_window_days, evaluate_limit, evaluate, reset_window}
use coloanex_prod.Orchestrator.Gas.{resolve}
use coloanex_prod.Orchestrator.Wallets.{
  preferred_wallet, wallet_by_purpose, any_wallet, resolve_wallet,
}
use coloanex_prod.Subscriptions.Purchase.{check_payment}
use coloanex_prod.Payments.Webhook.{WebhookPayload, process_webhook}
use coloanex_prod.Payments.WebhookLaws.{process_webhook-idempotent}

-- Months of ten instants.
abbrev short_months : Months
short_months = record { month_start = λ t. t / 10 * 10; next_month = λ t. t / 10 * 10 + 10 }

short_months-IsCalendar : IsCalendar short_months
short_months-IsCalendar = record {
  starts = λ t. omega arith;
  goes_on = λ t. omega arith;
  lands = λ t. omega arith;
  settles = λ t. omega arith;
  ordered = λ s t h. omega arith;
}

build_wallet_buckets-CoversRange_example :
    CoversRange 20 1000 (build_wallet_buckets short_months 20 1000)
build_wallet_buckets-CoversRange_example =
    build_wallet_buckets-CoversRange short_months 20 1000 short_months-IsCalendar (omega arith)

get_wallet_summary-CountsUp_example :
    CountsUp (get_wallet_summary 1000 short_months lender_jwt (DateInput.at 0) DateInput.absent db)
get_wallet_summary-CountsUp_example =
    get_wallet_summary-CountsUp 1000 short_months lender_jwt (DateInput.at 0) DateInput.absent db
      short_months-IsCalendar

abbrev fee_by_hand : CreateTransactionDto
fee_by_hand = record {
  sent_by = some 1;
  received_by = 0;
  contract_id = none;
  payment_schedule_id = none;
  type = TransactionType.fee;
  amount = 500;
  blockchain_tx_hash = none;
  wallet_id = none;
  gas_payment_mode = none;
}

record_transaction-RecordOutcome_example :
    RecordOutcome env fee_by_hand lender_jwt db (record_transaction env fee_by_hand lender_jwt db)
record_transaction-RecordOutcome_example =
    record_transaction-RecordOutcome env fee_by_hand lender_jwt db

abbrev later : Env
later = record env { now = 2000 }

abbrev config_dto : UpsertPaymentConfigDto
config_dto = record {
  for_user = false;
  user_id = none;
  tenant_id = none;
  gateway = gateway_khalti;
  environment = 1;
  is_active = none;
}

abbrev old_config : PaymentConfig
old_config = record (written_config env config_dto 10 5) { environment = 0 }

upsert_config-resolve_example :
    resolve_tenant_config
      (some 10)
      gateway_khalti
      (old_config ∷ written_config later config_dto 10 900 ∷ [])
    ≡ some (written_config later config_dto 10 900)
unfolding upsert_config upsert_for store_config config_owner
upsert_config-resolve_example =
    upsert_config-resolve later config_dto lender_jwt 10 (written_config later config_dto 10 900)
      (old_config ∷ []) (old_config ∷ written_config later config_dto 10 900 ∷ []) refl refl refl
      (omega arith, tt)

abbrev fee_input : OrchestrationInput
fee_input = transaction_input fee_by_hand lender_jwt

fee-eligible : (orchestrate 1000 fee_input db).0.eligible ≡ true
unfolding decide_last decide_gas orchestrate_allowed orchestrate_user orchestrate resolve
    policy_window_days reset_window evaluate_limit evaluate find_subscriptions is_usable choose
    refresh resolution_in resolve_user_found resolve_user_subscription resolve_tenant_found
    resolve_for_tenant resolve_active_subscription is_subscription_active is_limit_reached
    cycle_days get_usage_window_days is_window_over restart_if_over ensure_window_fresh
    refresh_windows preferred_wallet wallet_by_purpose any_wallet resolve_wallet
fee-eligible = refl

abbrev hand_made : Transaction
hand_made = pending_transaction env fee_by_hand lender_jwt (orchestrate 1000 fee_input db).0

hand_made_returns :
    record_transaction env fee_by_hand lender_jwt db
    ≡ (ok hand_made, (record_transaction env fee_by_hand lender_jwt db).1)
unfolding record_transaction require_decision store_decided insert_transaction connects consume
    submit
hand_made_returns = rw fee-eligible refl

record_transaction-check_payment_example :
    check_payment
      (plan_with 6 user_scope 500)
      1
      (some 900)
      (record_transaction env fee_by_hand lender_jwt db).1
    ≡ (ok tt, (record_transaction env fee_by_hand lender_jwt db).1)
unfolding find_transaction
record_transaction-check_payment_example =
    record_transaction-check_payment env fee_by_hand lender_jwt (plan_with 6 user_scope 500)
      hand_made db (record_transaction env fee_by_hand lender_jwt db).1 hand_made_returns refl refl
      refl (omega arith)

abbrev payload : WebhookPayload
payload = record { transaction_uuid = some 50; purchase_order_id = none; pidx = none }

process_webhook-idempotent_example :
    (process_webhook later payload (process_webhook env payload db).1).1
    ≡ (process_webhook env payload db).1
process_webhook-idempotent_example =
    process_webhook-idempotent env later payload db (((λ e. omega arith), tt), (tt, tt))
