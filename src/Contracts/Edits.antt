-- ===== src/Contracts/Edits.antt =====
-- `update`, `generateContractPdf`, `reportContract` and `remove` (contracts.service.ts), seen in the
-- ledger of contracts.
use coloanex_prod.Common.{
  Option, String, arith, is_some, none, not, refl, some, subst, sym, ℕ, ◌&&◌, ◌==◌, ◌∙◌, ◌≡◌,
}
use coloanex_prod.Db.{Contract, Db, ◌>>◌, when, ◌>>=◌, throw_if, modify, pure, internal}
use coloanex_prod.Service.{
  JwtPayload, write_contract, submit, consume, require_decision, input_of, Env,
}
use coloanex_prod.Contracts.Drafts.{require_decision-KeepsLedger, consume_if_platform-KeepsLedger}
use coloanex_prod.Contracts.Ledger.{Change, ledger, LedgerStep}
use coloanex_prod.Contracts.Drafting.{consume_if_platform}
use coloanex_prod.Contracts.Editing.{
  report_contract, generate_contract_pdf, delete_contract, delete_on_chain, reported_contract,
  store_hash, update_on_chain, check_remove, check_pdf, chain_update, UpdateContractDto,
  pdf_on_chain, check_report, generated_contract, update_contract, edited_contract,
  delete_schedules, remove_contract, find_managed,
}
use coloanex_prod.Contracts.Posting.{
  when-KeepsLedger, write_contract-ledger, delete_where-ledger, quiet-KeepsLedger, KeepsLedger,
  Posts, then-Posts, bind-KeepsLedger, reading-KeepsLedger,
}
use coloanex_prod.Orchestrator.Decide.{OrchestrationDecision, pays_gas_user}
use coloanex_prod.Service.Quiet.{
  bind-IsQuiet, require_decision-IsQuiet, consume-IsQuiet, IsQuiet, when-IsQuiet, if-IsQuiet,
}

find_managed-same :
    (id : ℕ) (message : String) (user : JwtPayload) (d : Db)
    → (find_managed id message user d).1 ≡ d
unfolding find_managed
find_managed-same id message user d = ground arith

check_pdf-same :
    (upload : Option ℕ) (id : ℕ) (user : JwtPayload) (d : Db) → (check_pdf upload id user d).1 ≡ d
unfolding check_pdf
check_pdf-same upload id user d = ground arith

check_report-same : (id : ℕ) (user : JwtPayload) (d : Db) → (check_report id user d).1 ≡ d
unfolding check_report
check_report-same id user d = ground arith

pub check_remove-same : (id : ℕ) (user : JwtPayload) (d : Db) → (check_remove id user d).1 ≡ d
unfolding check_remove find_managed
check_remove-same id user d = ground arith

chain_update-IsQuiet :
    (env : Env) (c : Contract) (dto : UpdateContractDto) (dec : OrchestrationDecision)
    → IsQuiet (chain_update env c dto dec)
unfolding chain_update
chain_update-IsQuiet env c dto dec d = ground arith

store_hash-KeepsLedger : (id : ℕ) (hash : Option ℕ) → KeepsLedger (modify (store_hash id hash))
unfolding store_hash
store_hash-KeepsLedger id none d = refl
store_hash-KeepsLedger id (some hash) d = write_contract-ledger id _ d (λ c. refl)

update_on_chain-KeepsLedger :
    (env : Env) (c : Contract) (dto : UpdateContractDto) (user : JwtPayload)
    → KeepsLedger (update_on_chain env c dto user)
unfolding update_on_chain
update_on_chain-KeepsLedger env c dto user =
    bind-KeepsLedger (require_decision env (input_of user (some c.tenant_id))) _
      (require_decision-KeepsLedger env (input_of user (some c.tenant_id)))
      λ dec.
        bind-KeepsLedger (chain_update env c dto dec) _
          (quiet-KeepsLedger (chain_update env c dto dec) (chain_update-IsQuiet env c dto dec))
          λ hash d.
            consume_if_platform-KeepsLedger env dec (store_hash c.id hash d)
            ∙ store_hash-KeepsLedger c.id hash d

pub update_contract-KeepsLedger :
    (env : Env) (id : ℕ) (dto : UpdateContractDto) (user : JwtPayload)
    → KeepsLedger (update_contract env id dto user)
unfolding update_contract
update_contract-KeepsLedger env id dto user =
    bind-KeepsLedger (find_managed id "You can only update your own contracts" user) _
      (reading-KeepsLedger (find_managed id "You can only update your own contracts" user)
        (find_managed-same id "You can only update your own contracts" user))
      λ c d.
        bind-KeepsLedger
          (when (is_some dto.status && env.chain.enabled) (update_on_chain env c dto user))
          (λ v. pure (edited_contract dto c))
          (when-KeepsLedger (is_some dto.status && env.chain.enabled)
            (update_on_chain env c dto user) (update_on_chain-KeepsLedger env c dto user))
          (λ v x. refl) (write_contract id (edited_contract dto) d)
        ∙ write_contract-ledger id (edited_contract dto) d (λ x. refl)

pdf_on_chain-IsQuiet :
    (env : Env) (c : Contract) (user : JwtPayload) → IsQuiet (pdf_on_chain env c user)
unfolding pdf_on_chain
pdf_on_chain-IsQuiet env c user =
    if-IsQuiet env.chain.enabled
      (require_decision env (input_of user (some c.tenant_id)) >>= λ dec.
        consume env dec.subscription_id >> pure (submit env.chain))
      (pure none)
      (bind-IsQuiet (require_decision env (input_of user (some c.tenant_id))) _
        (require_decision-IsQuiet env (input_of user (some c.tenant_id)))
        λ dec.
          bind-IsQuiet (consume env dec.subscription_id) _ (consume-IsQuiet env dec.subscription_id)
            (λ u d. refl))
      (λ d. refl)

pub generate_contract_pdf-KeepsLedger :
    (env : Env) (upload : Option ℕ) (id : ℕ) (user : JwtPayload)
    → KeepsLedger (generate_contract_pdf env upload id user)
unfolding generate_contract_pdf
generate_contract_pdf-KeepsLedger env upload id user =
    bind-KeepsLedger (check_pdf upload id user) _
      (reading-KeepsLedger (check_pdf upload id user) (check_pdf-same upload id user))
      λ (c, url).
        bind-KeepsLedger (pdf_on_chain env c user) _
          (quiet-KeepsLedger (pdf_on_chain env c user) (pdf_on_chain-IsQuiet env c user))
          λ hash d. write_contract-ledger id (generated_contract url hash) d (λ x. refl)

pub report_contract-KeepsLedger :
    (id reason : ℕ) (user : JwtPayload) → KeepsLedger (report_contract id reason user)
unfolding report_contract
report_contract-KeepsLedger id reason user =
    bind-KeepsLedger (check_report id user) _
      (reading-KeepsLedger (check_report id user) (check_report-same id user))
      λ c d. write_contract-ledger id (reported_contract reason) d (λ x. refl)

pub delete_on_chain-IsQuiet :
    (env : Env) (c : Contract) (user : JwtPayload) → IsQuiet (delete_on_chain env c user)
unfolding delete_on_chain consume_if_platform
delete_on_chain-IsQuiet env c user =
    bind-IsQuiet (require_decision env (input_of user (some c.tenant_id))) _
      (require_decision-IsQuiet env (input_of user (some c.tenant_id)))
      λ dec.
        bind-IsQuiet
          (throw_if (not (pays_gas_user dec.gas_payer) && not (is_some (submit env.chain)))
            (internal "Failed to record contract deletion on blockchain"))
          _ (λ d. refl)
          λ u.
            when-IsQuiet (not (pays_gas_user dec.gas_payer)) (consume env dec.subscription_id)
              (consume-IsQuiet env dec.subscription_id)

delete_contract-Posts :
    (may : Change → Type 0) (id : ℕ)
    → may (Change.closing id)
    → Posts may (modify (delete_contract id))
unfolding delete_contract delete_schedules
delete_contract-Posts may id a d h =
    subst (λ l. LedgerStep may (ledger d) l)
      (sym (delete_where-ledger (λ c. c.id == id) (λ e. e.id == id) d.contracts (λ c. refl)))
      (LedgerStep.closed id a)

pub remove_contract-Posts :
    (may : Change → Type 0) (env : Env) (id : ℕ) (user : JwtPayload)
    → may (Change.closing id)
    → Posts may (remove_contract env id user)
unfolding remove_contract
remove_contract-Posts may env id user a =
    then-Posts may (check_remove id user) _
      (reading-KeepsLedger (check_remove id user) (check_remove-same id user))
      λ c.
        then-Posts may (when env.chain.enabled (delete_on_chain env c user)) _
          (when-KeepsLedger env.chain.enabled (delete_on_chain env c user)
            (quiet-KeepsLedger (delete_on_chain env c user) (delete_on_chain-IsQuiet env c user)))
          λ u. delete_contract-Posts may id a
