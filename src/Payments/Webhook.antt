-- ===== src/Payments/Webhook.antt =====
-- payments.service.ts: `initiatePayment`, `lookupPayment` and `processWebhook` with the two webhooks
-- in front of it. What the gateways answer is given.
use coloanex_prod.Common.{
  Bool, Option, if◌then◌else◌, is_some, none, not, or_else, some, ℕ, ◌==◌, ◌||◌,
}
use coloanex_prod.Db.{
  Transaction, TransactionStatus, TransactionType, Action, Db, bad_request, pure, throw_if, gets,
  update_where, modify, ◌>>◌, ◌>>=◌,
}
use coloanex_prod.Service.{JwtPayload, Env}
use coloanex_prod.Contracts.Disbursing.{is_completed}
use coloanex_prod.Payments.Configs.{PaymentGateway, contract_context, config_for}
use coloanex_prod.Payments.Verify.{Gateways, find_by_uuid}

pub record InitiatePaymentDto : Type 0 where
  pub gateway : PaymentGateway
  pub type : TransactionType
  pub contract_id : Option ℕ

-- The configuration of the table or of the environment for a payment.
abbrev pub has_config : Gateways → InitiatePaymentDto → JwtPayload → Db → Bool
has_config g dto user d =
    is_some (
      config_for dto.type (contract_context dto.contract_id d) g.owner_user user dto.gateway
        g.configs d)
    || g.env_config dto.gateway

-- The answer is the identifier of the payment; `answers` is that the gateway does not fail.
unfoldable pub initiate_payment : Gateways → Bool → Env → InitiatePaymentDto → JwtPayload → Action ℕ
initiate_payment g answers env dto user = do
  configured ← gets (has_config g dto user)
  throw_if (not configured) (bad_request "Payment gateway is not configured")
  throw_if (not (g.registered dto.gateway)) (bad_request "Payment gateway is not supported")
  throw_if (not answers) (bad_request "Payment gateway failed")
  pure (env.uuid 0)

pub record LookupAnswer : Type 0 where
  pub status : ℕ
  pub already_processed : Bool
  pub transaction_id : Option ℕ

abbrev pub id_of_transaction : Option Transaction → Option ℕ
id_of_transaction none = none
id_of_transaction (some t) = some t.id

-- `status` is the gateway's answer, and `answers` that it does not fail.
unfoldable pub lookup_payment : Gateways → Bool → ℕ → ℕ → PaymentGateway → Action LookupAnswer
lookup_payment g answers status uuid gateway = do
  throw_if (not (g.registered gateway)) (bad_request "Payment gateway is not supported")
  throw_if (not answers) (bad_request "Payment gateway failed")
  existing ← gets (find_by_uuid uuid)
  pure (record {
    status = status;
    already_processed = is_some existing;
    transaction_id = id_of_transaction existing;
  })

pub record WebhookPayload : Type 0 where
  pub transaction_uuid : Option ℕ
  pub purchase_order_id : Option ℕ
  pub pidx : Option ℕ

abbrev pub payload_uuid : WebhookPayload → Option ℕ
payload_uuid p = or_else p.transaction_uuid (or_else p.purchase_order_id p.pidx)

-- `transactionUuid ? await findFirst(…) : null`
unfoldable pub find_paid : Option ℕ → Db → Option Transaction
find_paid none d = none
find_paid (some uuid) d = find_by_uuid uuid d

-- The row after a webhook; `t` is the row as it was found.
abbrev pub confirmed : Env → Option ℕ → Transaction → Transaction → Transaction
confirmed env uuid t x = record x {
  status = TransactionStatus.completed;
  completed_at = if is_completed t.status then x.completed_at else some env.now;
  transaction_uuid = uuid;
}

unfoldable pub confirm : Env → Option ℕ → Option Transaction → Db → Db
confirm env uuid none d = d
confirm env uuid (some t) d = record d {
  transactions = update_where (λ x. x.id == t.id) (confirmed env uuid t) d.transactions;
}

-- The answer is the transaction's identifier.
unfoldable pub process_webhook : Env → WebhookPayload → Action (Option ℕ)
unfolding confirm find_paid
process_webhook env payload = do
  t ← gets (find_paid (payload_uuid payload))
  modify (confirm env (payload_uuid payload) t)
  pure (id_of_transaction t)
