-- ===== src/Contracts/Editing.antt =====
-- contracts.service.ts: `update`, `generateContractPdf`, `reportContract` and `remove`.
use coloanex_prod.Common.{
  Bool, List, Option, String, [], any, false, get_or, if◌then◌else◌, is_number, is_some, map, none,
  not, or_else, some, true, ℕ, ◌&&◌, ◌++◌, ◌==◌, ◌∷◌,
}
use coloanex_prod.Db.{
  Contract, ContractStatus, LoanStatus, Borrower, Action, delete_where, pure, modify, some_or_throw,
  when, bad_request, gets, find_or_throw, forbidden, or_throw, internal, throw_if, not_found, Db,
  Transaction, PaymentSchedule, ActivityLog, contract_entity, contract_sign, ◌>>◌, ◌>>=◌,
}
use coloanex_prod.Service.{
  find_borrower, require_decision, write_loan, input_of, write_contract, consume, submit,
  find_contract, Env, JwtPayload, find_borrower_by_id,
}
use coloanex_prod.Contracts.Disbursing.{of_contract, is_outsider}
use coloanex_prod.Contracts.Drafting.{consume_if_platform}
use coloanex_prod.Orchestrator.Decide.{OrchestrationDecision, pays_gas_user}

-- The caller is the contract's borrower.
abbrev pub is_own_borrower : Option Borrower → Contract → Bool
is_own_borrower none c = false
is_own_borrower (some b) c = b.id == c.borrower_id

pub record UpdateContractDto : Type 0 where
  pub status : Option ContractStatus
  pub blockchain_tx_hash : Option ℕ

abbrev pub edited_contract : UpdateContractDto → Contract → Contract
edited_contract dto c = record c {
  status = get_or dto.status c.status;
  blockchain_tx_hash = or_else dto.blockchain_tx_hash c.blockchain_tx_hash;
}

-- The hash that an update on the chain leaves.
unfoldable pub chain_update :
    Env → Contract → UpdateContractDto → OrchestrationDecision → Action (Option ℕ)
chain_update env c dto dec =
    let known = or_else dto.blockchain_tx_hash c.blockchain_tx_hash in
    if not (pays_gas_user dec.gas_payer) && not (is_some dto.blockchain_tx_hash)
    then or_throw (or_else (submit env.chain) known)
        (internal "Blockchain update failed. Cannot update contract status.")
    else pure known

-- `if (resolvedBlockchainTxHash) await contract.update(…)`
unfoldable pub store_hash : ℕ → Option ℕ → Db → Db
store_hash id none d = d
store_hash id (some hash) d = write_contract id (λ x. record x { blockchain_tx_hash = some hash }) d

-- The part under `if (updateContractDto.status && isEnabled())`.
unfoldable pub update_on_chain : Env → Contract → UpdateContractDto → JwtPayload → Action (Unit {0})
update_on_chain env c dto user = do
  dec ← require_decision env (input_of user (some c.tenant_id))
  hash ← chain_update env c dto dec
  modify (store_hash c.id hash)
  consume_if_platform env dec

-- A contract that the caller may manage.
unfoldable pub find_managed : ℕ → String → JwtPayload → Action Contract
find_managed id message user = do
  c ← find_or_throw (find_contract id) (not_found "Contract not found")
  throw_if (is_outsider user c) (forbidden message)
  pure c

unfoldable pub update_contract : Env → ℕ → UpdateContractDto → JwtPayload → Action Contract
unfolding find_managed
update_contract env id dto user = do
  c ← find_managed id "You can only update your own contracts" user
  modify (write_contract id (edited_contract dto))
  when (is_some dto.status && env.chain.enabled) (update_on_chain env c dto user)
  pure (edited_contract dto c)

abbrev pub may_generate_pdf : ContractStatus → Bool
may_generate_pdf ContractStatus.draft = true
may_generate_pdf ContractStatus.generated = true
may_generate_pdf _ = false

-- `user.tenantId && contract.tenantId !== user.tenantId && !isSuperAdmin`
abbrev pub is_other_tenant : JwtPayload → Contract → Bool
is_other_tenant user c = is_some user.tenant_id && is_outsider user c

-- The orchestration of the PDF, and the hash that it leaves.
unfoldable pub pdf_on_chain : Env → Contract → JwtPayload → Action (Option ℕ)
pdf_on_chain env c user =
    if env.chain.enabled
    then (do
      dec ← require_decision env (input_of user (some c.tenant_id))
      consume env dec.subscription_id
      pure (submit env.chain))
    else pure none

abbrev pub generated_contract : ℕ → Option ℕ → Contract → Contract
generated_contract url hash c = record c {
  status = ContractStatus.generated;
  contract_pdf_url = some url;
  blockchain_tx_hash = hash;
}

unfoldable pub check_pdf : Option ℕ → ℕ → JwtPayload → Action (Contract × ℕ)
check_pdf upload id user = do
  c ← find_or_throw (find_contract id) (not_found "Contract not found")
  throw_if (is_other_tenant user c) (forbidden "You can only generate PDFs for your own contracts")
  throw_if (not (may_generate_pdf c.status))
      (bad_request "Contract PDF can only be generated for DRAFT or GENERATED contracts")
  url ← some_or_throw upload (internal "Upload failed")
  pure (c, url)

-- The notice to the borrower, in the activity log.
abbrev pub notice : Contract → Option Borrower → List ActivityLog
notice c none = []
notice c (some b) =
    record {
      actor_user_id = b.user_id;
      entity_type = contract_entity;
      entity_id = c.id;
      action = contract_sign;
    }
    ∷ []

abbrev pub notify_borrower : Contract → Db → Db
notify_borrower c d = record d { logs = d.logs ++ notice c (find_borrower_by_id c.borrower_id d) }

-- The PDF is made and uploaded by third-party services: `upload` is the address that they answer
-- with, or that they fail.
unfoldable pub generate_contract_pdf : Env → Option ℕ → ℕ → JwtPayload → Action Contract
unfolding check_pdf
generate_contract_pdf env upload id user = do
  (c, url) ← check_pdf upload id user
  hash ← pdf_on_chain env c user
  modify (write_contract id (generated_contract url hash))
  modify (write_loan c.loan_id (λ l. record l { status = LoanStatus.contract_generated }))
  modify (notify_borrower c)
  pure (generated_contract url hash c)

abbrev pub reported_contract : ℕ → Contract → Contract
reported_contract reason c = record c {
  status = ContractStatus.reported;
  report_reason = some reason;
}

unfoldable pub check_report : ℕ → JwtPayload → Action Contract
check_report id user = do
  c ← find_or_throw (find_contract id) (not_found "Contract not found")
  own ← gets (find_borrower c.tenant_id user.sub)
  throw_if (not (is_own_borrower own c)) (forbidden "Only the borrower can report a contract")
  pure c

unfoldable pub report_contract : ℕ → ℕ → JwtPayload → Action Contract
unfolding check_report
report_contract id reason user = do
  c ← check_report id user
  modify (write_contract id (reported_contract reason))
  pure (reported_contract reason c)

abbrev pub is_draft : ContractStatus → Bool
is_draft ContractStatus.draft = true
is_draft _ = false

-- The orchestration of a deletion; without the chain's answer the contract stays.
unfoldable pub delete_on_chain : Env → Contract → JwtPayload → Action (Unit {0})
delete_on_chain env c user = do
  dec ← require_decision env (input_of user (some c.tenant_id))
  throw_if (not (pays_gas_user dec.gas_payer) && not (is_some (submit env.chain)))
      (internal "Failed to record contract deletion on blockchain")
  consume_if_platform env dec

-- The optional relation of a transaction to a deleted schedule becomes null.
abbrev pub forget_schedules :
    (PaymentSchedule → Bool) → List PaymentSchedule → Transaction → Transaction
forget_schedules p schedules t = record t {
  payment_schedule_id =
      if any (λ s. p s && is_number t.payment_schedule_id s.id) schedules
      then none
      else t.payment_schedule_id;
}

-- `paymentSchedule.deleteMany({ where: p })`
unfoldable pub delete_schedules : (PaymentSchedule → Bool) → Db → Db
delete_schedules p d = record d {
  schedules = delete_where p d.schedules;
  transactions = map (forget_schedules p d.schedules) d.transactions;
}

abbrev pub forget_contract : ℕ → Transaction → Transaction
forget_contract id t = record t {
  contract_id = if is_number t.contract_id id then none else t.contract_id;
}

-- A deleted contract takes its schedules with it (`onDelete: Cascade`), and its transactions forget
-- it (an optional relation).
unfoldable pub delete_contract : ℕ → Db → Db
unfolding delete_schedules
delete_contract id d =
    let d' = delete_schedules (of_contract id) d in
    record d' {
      contracts = delete_where (λ c. c.id == id) d'.contracts;
      transactions = map (forget_contract id) d'.transactions;
    }

unfoldable pub check_remove : ℕ → JwtPayload → Action Contract
unfolding find_managed
check_remove id user = do
  c ← find_managed id "You can only delete your own contracts" user
  throw_if (not (is_draft c.status)) (bad_request "Only draft contracts can be deleted")
  pure c

unfoldable pub remove_contract : Env → ℕ → JwtPayload → Action (Unit {0})
unfolding check_remove
remove_contract env id user = do
  c ← check_remove id user
  when env.chain.enabled (delete_on_chain env c user)
  modify (delete_contract id)
