-- ===== src/Transactions/Record.antt =====
-- transactions.service.ts: `create`, `findByContract`, `findByEntity` and `updateStatus`. The chain's
-- data beside its hash and the names of senders and recipients are left out.
use coloanex_prod.Common.{
  Bool, List, Option, [], find, get_or, if◌then◌else◌, is_number, is_some, none, not, or_else, some,
  true, ℕ, ◌&&◌, ◌++◌, ◌==◌, ◌||◌, ◌∷◌,
}
use coloanex_prod.Db.{
  Transaction, TransactionStatus, TransactionType, Action, pure, bad_request, update_where,
  find_many_desc, ◌>>=◌, err, ok, some_or_throw, find_or_throw, internal, not_found, throw_if,
  record_not_found, modify, Db, GasPaymentMode, ◌>>◌,
}
use coloanex_prod.Service.{
  resolve_platform, Env, find_transaction, require_decision, find_contract, submit, JwtPayload,
  input_of, consume,
}
use coloanex_prod.Contracts.Disbursing.{is_completed}
use coloanex_prod.Orchestrator.Decide.{pays_gas_user, OrchestrationDecision, OrchestrationInput}

-- `sentBy` is a text that the request must have: `sent_by` is none for the empty one, for which
-- `sentBy || currentUser.sub` is the caller.
pub record CreateTransactionDto : Type 0 where
  pub sent_by : Option ℕ
  pub received_by : ℕ
  pub contract_id : Option ℕ
  pub payment_schedule_id : Option ℕ
  pub type : TransactionType
  pub amount : ℕ
  pub blockchain_tx_hash : Option ℕ
  pub wallet_id : Option ℕ
  pub gas_payment_mode : Option GasPaymentMode

abbrev pub transaction_input : CreateTransactionDto → JwtPayload → OrchestrationInput
transaction_input dto user = record {
  user_id = user.sub;
  tenant_id = user.tenant_id;
  platform = some (resolve_platform user);
  user_roles = user.roles;
  preferred_wallet_id = dto.wallet_id;
  requested_gas_payment_mode = dto.gas_payment_mode;
}

-- The row as it is first stored. `paymentDetails` has no key `transactionUuid`.
abbrev pub pending_transaction :
    Env → CreateTransactionDto → JwtPayload → OrchestrationDecision → Transaction
pending_transaction env dto user dec = record {
  id = env.uuid 0;
  sent_by = get_or dto.sent_by user.sub;
  received_by = dto.received_by;
  type = dto.type;
  amount = dto.amount;
  status = TransactionStatus.pending;
  contract_id = dto.contract_id;
  payment_schedule_id = dto.payment_schedule_id;
  transaction_uuid = none;
  gas_payment_mode = dec.gas_payment_mode;
  gas_paid_by = dec.gas_payer;
  wallet_id = dec.wallet_id;
  platform = get_or dec.platform (resolve_platform user);
  subscription_id = dec.subscription_id;
  blockchain_tx_hash = dto.blockchain_tx_hash;
  completed_at = none;
  created_at = env.now;
}

abbrev pub row_exists : {A : Type 0} → Option ℕ → (ℕ → Option A) → Bool
row_exists none f = true
row_exists (some id) f = is_some (f id)

-- `connect`, which Prisma refuses where there is no such row.
unfoldable pub connects : CreateTransactionDto → Db → Bool
connects dto d =
    row_exists dto.contract_id (λ id. find_contract id d)
    && row_exists dto.payment_schedule_id (λ id. find (λ s. s.id == id) d.schedules)

unfoldable pub insert_transaction : CreateTransactionDto → Transaction → Action (Unit {0})
insert_transaction dto t d =
    if connects dto d
    then (ok tt, record d { transactions = d.transactions ++ t ∷ [] })
    else (err record_not_found, d)

abbrev pub write_transaction : ℕ → (Transaction → Transaction) → Db → Db
write_transaction id f d = record d {
  transactions = update_where (λ t. t.id == id) f d.transactions;
}

-- A client's hash, and otherwise the chain's.
abbrev pub transaction_hash : Env → CreateTransactionDto → Option ℕ
transaction_hash env dto = or_else dto.blockchain_tx_hash (submit env.chain)

abbrev pub completed_transaction : Env → Option ℕ → Transaction → Transaction
completed_transaction env hash t = record t {
  status = TransactionStatus.completed;
  blockchain_tx_hash = or_else hash t.blockchain_tx_hash;
  completed_at = some env.now;
}

-- What `create` does once it is decided.
unfoldable pub store_decided :
    Env → CreateTransactionDto → JwtPayload → OrchestrationDecision → Action Transaction
unfolding insert_transaction
store_decided env dto user dec = do
  let t = pending_transaction env dto user dec
  insert_transaction dto t
  throw_if (not (is_some (transaction_hash env dto)) && env.chain.enabled)
      (internal "Blockchain transaction failed. Cannot complete transaction.")
  modify (write_transaction t.id (completed_transaction env (transaction_hash env dto)))
  consume env dec.subscription_id
  pure t

-- The answer is the row as it was first stored.
unfoldable pub record_transaction : Env → CreateTransactionDto → JwtPayload → Action Transaction
unfolding store_decided
record_transaction env dto user =
    require_decision env (transaction_input dto user) >>= store_decided env dto user

unfoldable pub find_by_contract : ℕ → Db → List Transaction
find_by_contract contract_id d =
    find_many_desc (λ t. t.created_at) (λ t. is_number t.contract_id contract_id) d.transactions

unfoldable pub find_by_entity : ℕ → Db → List Transaction
find_by_entity id d =
    find_many_desc (λ t. t.created_at) (λ t. t.sent_by == id || t.received_by == id) d.transactions

-- `status === COMPLETED ? { completedAt: new Date() } : {}`
abbrev pub with_status : Env → TransactionStatus → Option ℕ → Transaction → Transaction
with_status env status hash t = record t {
  status = status;
  blockchain_tx_hash = or_else hash t.blockchain_tx_hash;
  completed_at = if is_completed status then some env.now else t.completed_at;
}

-- The part under `if (this.blockchainService.isEnabled())`.
unfoldable pub update_status_on_chain :
    Env → Transaction → TransactionStatus → JwtPayload → Action Transaction
update_status_on_chain env t status user = do
  dec ← require_decision env (input_of user user.tenant_id)
  throw_if (pays_gas_user dec.gas_payer)
      (bad_request "Status update in USER_WALLET mode must be signed from web wallet flow.")
  hash ← some_or_throw (submit env.chain) (internal "Blockchain transaction update failed.")
  modify (write_transaction t.id (with_status env status (some hash)))
  consume env dec.subscription_id
  pure (with_status env status (some hash) t)

unfoldable pub update_status : Env → ℕ → TransactionStatus → JwtPayload → Action Transaction
unfolding update_status_on_chain
update_status env id status user = do
  t ← find_or_throw (find_transaction id) (not_found "Transaction not found")
  if env.chain.enabled then update_status_on_chain env t status user else (do
    modify (write_transaction id (with_status env status none))
    pure (with_status env status none t))
