-- ===== src/Loans/Posting.antt =====
-- The handlers of loans.service.ts, seen in the ledger of contracts.
use coloanex_prod.Common.{
  Bool, Bool-cases, Option, ap, arith, get_or, inl, inr, none, or_else, refl, some, subst, sym,
  true, ℕ, ◌==◌, ◌∙◌, ◌≡◌,
}
use coloanex_prod.Db.{
  Db, kyc_entity, ActivityAction, Loan, ActivityEntityType, find_or_throw, when, ◌>>◌, modify,
  not_found, Action, pure, loan_entity, Contract, Rule,
}
use coloanex_prod.Service.{
  input_of, Env, JwtPayload, require_decision, submit, write_loan, find_loan, consume,
}
use coloanex_prod.Contracts.Drafts.{
  consume-KeepsLedger, require_decision-KeepsLedger, generate_from_loan_approval-Posts,
}
use coloanex_prod.Contracts.Ledger.{Change, entry_of, ledger, LedgerStep}
use coloanex_prod.Contracts.Posting.{
  bind-KeepsLedger, reading-KeepsLedger, KeepsLedger, then-Posts, bind-Posts, quiet-KeepsLedger,
  find_or_throw-KeepsLedger, Posts, delete_where-ledger, when-KeepsLedger,
}
use coloanex_prod.Loans.Apply.{
  log_activity, new_loan, check_create_loan, create_loan, CreateLoanDto, insert_loan,
}
use coloanex_prod.Loans.Change.{
  update_loan_on_chain, UpdateLoanDto, store_loan_hash, edited_loan, chain_loan_update,
  delete_loan_on_chain, delete_loan, update_loan, check_update_loan, remove_loan,
}
use coloanex_prod.Loans.Guards.{check_create_loan-same, find_reviewed-same, check_update_loan-same}
use coloanex_prod.Contracts.Drafting.{generate_from_loan_approval, same_loan}
use coloanex_prod.Contracts.Editing.{delete_schedules}
use coloanex_prod.Orchestrator.Decide.{pays_gas_user}
use coloanex_prod.Service.Quiet.{require_decision-IsQuiet, bind-IsQuiet, IsQuiet, consume-IsQuiet}
use coloanex_prod.Loans.Review.{
  review, make_payment, find_reviewed, action_of_review, is_approved, reviewed_loan,
  generate_if_approved, ReviewLoanDto,
}
use coloanex_prod.Loans.PaymentLaws.{make_payment-OnlyBookkeeping}
use coloanex_prod.Loans.ReviewOutcome.{contract_of_review}

insert_loan-KeepsLedger : (l : Loan) → KeepsLedger (insert_loan l)
unfolding insert_loan
insert_loan-KeepsLedger l d = ground arith

log_activity-ledger :
    (user : JwtPayload) (action : ActivityAction) (entity : ActivityEntityType) (id : ℕ) (d : Db)
    → ledger (log_activity user action entity id d) ≡ ledger d
unfolding log_activity
log_activity-ledger user action entity id d = refl

pub create_loan-KeepsLedger :
    (env : Env) (dto : CreateLoanDto) (user : JwtPayload) → KeepsLedger (create_loan env dto user)
unfolding create_loan log_activity
create_loan-KeepsLedger env dto user =
    bind-KeepsLedger (check_create_loan dto user) _
      (reading-KeepsLedger (check_create_loan dto user) (check_create_loan-same dto user))
      λ (target, b).
        bind-KeepsLedger (require_decision env (input_of user (some target.tenant_id))) _
          (require_decision-KeepsLedger env (input_of user (some target.tenant_id)))
          λ dec.
            let l : Loan =
              new_loan env dto target b (or_else dto.blockchain_tx_hash (submit env.chain)) in
            bind-KeepsLedger (insert_loan l) _ (insert_loan-KeepsLedger l) λ u d.
              bind-KeepsLedger (consume env dec.subscription_id) (λ v. pure l)
                (consume-KeepsLedger env dec.subscription_id) (λ v x. refl)
                (log_activity user ActivityAction.create kyc_entity l.id d)

chain_loan_update-KeepsLedger :
    (env : Env) (l : Loan) (dto : UpdateLoanDto) (user_pays : Bool)
    → KeepsLedger (chain_loan_update env l dto user_pays)
unfolding chain_loan_update
chain_loan_update-KeepsLedger env l dto user_pays d = ground arith

store_loan_hash-ledger :
    (id : ℕ) (hash : Option ℕ) (d : Db) → ledger (store_loan_hash id hash d) ≡ ledger d
unfolding store_loan_hash
store_loan_hash-ledger id none d = refl
store_loan_hash-ledger id (some hash) d = refl

update_loan_on_chain-KeepsLedger :
    (env : Env) (l : Loan) (dto : UpdateLoanDto) (tenant_id : ℕ) (user : JwtPayload)
    → KeepsLedger (update_loan_on_chain env l dto tenant_id user)
unfolding update_loan_on_chain
update_loan_on_chain-KeepsLedger env l dto tenant_id user =
    bind-KeepsLedger (require_decision env (input_of user (some tenant_id))) _
      (require_decision-KeepsLedger env (input_of user (some tenant_id)))
      λ dec.
        bind-KeepsLedger (chain_loan_update env l dto (pays_gas_user dec.gas_payer)) _
          (chain_loan_update-KeepsLedger env l dto (pays_gas_user dec.gas_payer))
          λ hash d.
            consume-KeepsLedger env dec.subscription_id (store_loan_hash l.id hash d)
            ∙ store_loan_hash-ledger l.id hash d

pub update_loan-KeepsLedger :
    (env : Env) (id : ℕ) (dto : UpdateLoanDto) (user : JwtPayload)
    → KeepsLedger (update_loan env id dto user)
unfolding update_loan log_activity
update_loan-KeepsLedger env id dto user =
    bind-KeepsLedger (check_update_loan id dto user) _
      (reading-KeepsLedger (check_update_loan id dto user) (check_update_loan-same id dto user))
      λ p d.
        bind-KeepsLedger
          (when env.chain.enabled (update_loan_on_chain env p.of_loan dto p.target.tenant_id user))
          _
          (when-KeepsLedger env.chain.enabled
            (update_loan_on_chain env p.of_loan dto p.target.tenant_id user)
            (update_loan_on_chain-KeepsLedger env p.of_loan dto p.target.tenant_id user))
          (λ v x. refl) (write_loan id (edited_loan dto p.target p.new_borrower) d)

generate_if_approved-Posts :
    (may : Change → Type 0) (env : Env) (id : ℕ) (dto : ReviewLoanDto) (user : JwtPayload)
    → (is_approved dto.status ≡ true
        → (l : Loan) (r : Rule) → l.id ≡ id
        → may (Change.opening (entry_of (contract_of_review env dto l r))))
    → Posts may (generate_if_approved env id dto user)
unfolding generate_if_approved
generate_if_approved-Posts may env id dto user allowed d h =
    let m : Action Contract =
      generate_from_loan_approval env id (get_or dto.rule_id 0) (get_or dto.approved_amount 0)
        (get_or dto.approved_term_months 0) user in
    elim (Bool-cases (is_approved dto.status)) [
      | inl approves ↦ rw approves (
          bind-Posts may m (λ c. pure tt)
            (generate_from_loan_approval-Posts may env id (get_or dto.rule_id 0)
              (get_or dto.approved_amount 0) (get_or dto.approved_term_months 0) user
              (allowed approves))
            (λ c x. refl) d h)
      | inr other ↦ rw other LedgerStep.unchanged
    ]

pub review-Posts :
    (may : Change → Type 0) (env : Env) (id : ℕ) (dto : ReviewLoanDto) (user : JwtPayload)
    → (is_approved dto.status ≡ true
        → (l : Loan) (r : Rule) → l.id ≡ id
        → may (Change.opening (entry_of (contract_of_review env dto l r))))
    → Posts may (review env id dto user)
unfolding review log_activity
review-Posts may env id dto user allowed =
    then-Posts may (find_reviewed id dto) _
      (reading-KeepsLedger (find_reviewed id dto) (find_reviewed-same id dto))
      λ l d h.
        bind-Posts may (generate_if_approved env id dto user)
          (λ v.
            modify (log_activity user (action_of_review dto.status) loan_entity id)
            >> pure (reviewed_loan dto l))
          (generate_if_approved-Posts may env id dto user allowed) (λ v x. refl)
          (write_loan id (reviewed_loan dto) d) h

delete_loan-Posts :
    (may : Change → Type 0) (id : ℕ)
    → may (Change.closing_of_loan id)
    → Posts may (modify (delete_loan id))
unfolding delete_loan delete_schedules
delete_loan-Posts may id a d h =
    subst (λ l. LedgerStep may (ledger d) l)
      (sym (delete_where-ledger (same_loan id) (λ e. e.loan_id == id) d.contracts (λ c. refl)))
      (LedgerStep.closed_of_loan id a)

pub delete_loan_on_chain-IsQuiet :
    (env : Env) (l : Loan) (user : JwtPayload) → IsQuiet (delete_loan_on_chain env l user)
unfolding delete_loan_on_chain
delete_loan_on_chain-IsQuiet env l user =
    bind-IsQuiet (require_decision env (input_of user (some l.tenant_id))) _
      (require_decision-IsQuiet env (input_of user (some l.tenant_id)))
      λ dec. consume-IsQuiet env dec.subscription_id

pub remove_loan-Posts :
    (may : Change → Type 0) (env : Env) (id : ℕ) (user : JwtPayload)
    → may (Change.closing_of_loan id)
    → Posts may (remove_loan env id user)
unfolding remove_loan log_activity
remove_loan-Posts may env id user a =
    then-Posts may (find_or_throw (find_loan id) (not_found "Loan not found")) _
      (find_or_throw-KeepsLedger (find_loan id) (not_found "Loan not found"))
      λ l.
        then-Posts may (when env.chain.enabled (delete_loan_on_chain env l user)) _
          (when-KeepsLedger env.chain.enabled (delete_loan_on_chain env l user) (
            quiet-KeepsLedger (delete_loan_on_chain env l user)
              (delete_loan_on_chain-IsQuiet env l user)))
          λ u d h. delete_loan-Posts may id a d h

pub make_payment-KeepsLedger :
    (env : Env) (id amount : ℕ) (user : JwtPayload) → KeepsLedger (make_payment env id amount user)
make_payment-KeepsLedger env id amount user d =
    ap (λ (x : Db). ledger x) (make_payment-OnlyBookkeeping env id amount user d)
