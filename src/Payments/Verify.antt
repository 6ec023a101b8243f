-- ===== src/Payments/Verify.antt =====
-- payments.service.ts: `verifyPayment`. The gateways (eSewa and Khalti, behind the interface
-- IPaymentGateway) are third-party services: their answer is given.
use coloanex_prod.Common.{
  Bool, List, Option, [], any, false, find, get_or, head?, if◌then◌else◌, is_number, is_some, none,
  not, or_else, some, true, ℕ, ◌&&◌, ◌++◌, ◌==◌, ◌||◌, ◌∷◌,
}
use coloanex_prod.Db.{
  TransactionType, TransactionStatus, platform_wallet, pays_platform, GasPaymentMode, ok, err,
  throw_if, Action, bad_request, pure, gets, foreign_key_violation, Contract, Db, Transaction,
  some_or_throw, ◌>>◌, ◌>>=◌,
}
use coloanex_prod.Service.{
  submit, require_decision, resolve_platform, consume, find_contract, Env, JwtPayload,
}
use coloanex_prod.Contracts.Disbursing.{is_disbursement}
use coloanex_prod.Orchestrator.Decide.{OrchestrationDecision, OrchestrationInput}
use coloanex_prod.Payments.Apply.{apply_payment}
use coloanex_prod.Payments.Configs.{
  PaymentConfig, config_for, PaymentGateway, tenant_of_contract, contract_context,
}
use coloanex_prod.Subscriptions.Purchase.{is_fee}

-- The gateway's answer to `verifyPayment`.
pub record VerifyResult : Type 0 where
  pub success : Bool
  pub gateway_transaction_id : Option ℕ

-- `payment_schedule_ids` are the parts of `paymentScheduleId` between commas, none where it is
-- absent.
pub record VerifyDto : Type 0 where
  pub transaction_uuid : ℕ
  pub total_amount : ℕ
  pub gateway : PaymentGateway
  pub type : TransactionType
  pub contract_id : Option ℕ
  pub payment_schedule_ids : List ℕ
  pub wallet_id : Option ℕ
  pub gas_payment_mode : Option GasPaymentMode

-- What the service has beside the database: the configurations, whether the environment has one for
-- a gateway, and the registered gateways with their answers, none where a gateway throws.
pub record Gateways : Type 0 where
  pub configs : List PaymentConfig
  pub owner_user : ℕ → Option ℕ
  pub env_config : PaymentGateway → Bool
  pub registered : PaymentGateway → Bool
  pub verify : ℕ → ℕ → Option VerifyResult

pub record PaymentResult : Type 0 where
  pub success : Bool
  pub transaction_id : Option ℕ

abbrev pub is_configured : Gateways → VerifyDto → JwtPayload → Db → Bool
is_configured g dto user d =
    is_some (
      config_for dto.type (contract_context dto.contract_id d) g.owner_user user dto.gateway
        g.configs d)
    || g.env_config dto.gateway

-- `findFirst({ where: { gatewayDetails: { path: ['transactionUuid'], equals } } })`
unfoldable pub find_by_uuid : ℕ → Db → Option Transaction
find_by_uuid uuid d = find (λ t. is_number t.transaction_uuid uuid) d.transactions

abbrev pub is_empty : {A : Type 0} → List A → Bool
is_empty [] = true
is_empty (x ∷ xs) = false

-- `type === 'FEE' && !contractId && !paymentScheduleId`
abbrev pub is_subscription_fee_payment : VerifyDto → Bool
is_subscription_fee_payment dto =
    is_fee dto.type && (not (is_some dto.contract_id) && is_empty dto.payment_schedule_ids)

-- The decision for the fee of a subscription, without a call of the orchestrator.
abbrev pub bypass : JwtPayload → OrchestrationDecision
bypass user = record {
  eligible = true;
  denial_reason = none;
  scope = none;
  plan = none;
  gas_payment_mode = platform_wallet;
  gas_payer = pays_platform;
  wallet_id = none;
  wallet_provider = none;
  subscription_id = none;
  feature_flags = none;
  platform = some (resolve_platform user);
}

abbrev pub payment_input : VerifyDto → JwtPayload → Option Contract → OrchestrationInput
payment_input dto user context = record {
  user_id = user.sub;
  tenant_id = or_else (tenant_of_contract context) user.tenant_id;
  platform = some (resolve_platform user);
  user_roles = user.roles;
  preferred_wallet_id = dto.wallet_id;
  requested_gas_payment_mode = dto.gas_payment_mode;
}

unfoldable pub decide_payment :
    Env → VerifyDto → JwtPayload → Option Contract → Action OrchestrationDecision
decide_payment env dto user context =
    if is_subscription_fee_payment dto
    then pure (bypass user)
    else require_decision env (payment_input dto user context)

-- The text 'system' as a recipient.
abbrev pub system : ℕ
system = 0

abbrev pub sent_by_of : VerifyDto → JwtPayload → Option Contract → ℕ
sent_by_of dto user none = user.sub
sent_by_of dto user (some c) = if is_disbursement dto.type then c.tenant_id else user.sub

abbrev pub received_by_of : VerifyDto → Option Contract → ℕ
received_by_of dto none = system
received_by_of dto (some c) = if is_disbursement dto.type then c.borrower_id else c.tenant_id

abbrev pub recorded :
    Env → VerifyDto → JwtPayload → Option Contract → OrchestrationDecision → Transaction
recorded env dto user context decision = record {
  id = env.uuid 0;
  sent_by = sent_by_of dto user context;
  received_by = received_by_of dto context;
  type = dto.type;
  amount = dto.total_amount;
  status = TransactionStatus.completed;
  contract_id = dto.contract_id;
  payment_schedule_id = head? dto.payment_schedule_ids;
  transaction_uuid = some dto.transaction_uuid;
  gas_payment_mode = decision.gas_payment_mode;
  gas_paid_by = decision.gas_payer;
  wallet_id = decision.wallet_id;
  platform = get_or decision.platform (resolve_platform user);
  subscription_id = decision.subscription_id;
  blockchain_tx_hash = submit env.chain;
  completed_at = some env.now;
  created_at = env.now;
}

abbrev pub contract_exists : Option ℕ → Db → Bool
contract_exists none d = true
contract_exists (some id) d = is_some (find_contract id d)

abbrev pub schedule_exists : List ℕ → Db → Bool
schedule_exists [] d = true
schedule_exists (id ∷ []) d = any (λ s. s.id == id) d.schedules
schedule_exists (id ∷ id' ∷ ids) d = false

-- The foreign keys of the new row: the text of several identifiers is no schedule's identifier.
unfoldable pub refers_to_rows : VerifyDto → Db → Bool
refers_to_rows dto d =
    contract_exists dto.contract_id d && schedule_exists dto.payment_schedule_ids d

unfoldable pub create_transaction : Transaction → VerifyDto → Action (Unit {0})
create_transaction t dto d =
    if refers_to_rows dto d
    then (ok tt, record d { transactions = d.transactions ++ t ∷ [] })
    else (err foreign_key_violation, d)

-- A payment that the gateway confirms and that was not recorded before.
unfoldable pub record_payment :
    Env → VerifyDto → JwtPayload → Option Contract → Action PaymentResult
record_payment env dto user context = do
  decision ← decide_payment env dto user context
  create_transaction (recorded env dto user context decision) dto
  apply_payment env.now dto.type dto.contract_id dto.payment_schedule_ids dto.total_amount
  consume env decision.subscription_id
  pure (record { success = true; transaction_id = some (env.uuid 0) })

-- What follows a confirmation, where `existing` is the transaction with the payment's uuid.
unfoldable pub record_once :
    Env → VerifyDto → JwtPayload → Option Contract → Option Transaction → Action PaymentResult
record_once env dto user context (some t) =
    pure (record { success = true; transaction_id = some t.id })
record_once env dto user context none = record_payment env dto user context

unfoldable pub verify_payment : Gateways → Env → VerifyDto → JwtPayload → Action PaymentResult
verify_payment g env dto user = do
  context ← gets (contract_context dto.contract_id)
  configured ← gets (is_configured g dto user)
  throw_if (not configured) (bad_request "Missing gateway configuration")
  throw_if (not (g.registered dto.gateway)) (bad_request "Payment gateway is not supported")
  existing ← gets (find_by_uuid dto.transaction_uuid)
  answer ←
      some_or_throw (g.verify dto.transaction_uuid dto.total_amount)
        (bad_request "Payment gateway failed")
  if answer.success
      then record_once env dto user context existing
      else pure (record { success = false; transaction_id = none })
