-- ===== src/Contracts/Drafts.antt =====
-- The contracts that `create` and `generateFromLoanApproval` (contracts.service.ts) store.
use coloanex_prod.Common.{Option, arith, none, not, or_else, refl, some, ℕ, ◌==◌, ◌≡◌}
use coloanex_prod.Common.Int.{pos, ◌+ℤ◌}
use coloanex_prod.Db.{Loan, pure, ◌>>=◌, Db, ok, Rule}
use coloanex_prod.Service.{require_decision, submit, Env, input_of, JwtPayload, consume, find_loan}
use coloanex_prod.Contracts.Ledger.{entry_of, IsBalanced, Change}
use coloanex_prod.Contracts.Installments.{Terms, calculate_installments}
use coloanex_prod.Contracts.Drafting.{
  check_no_contract, consume_if_platform, create_contract, CreateContractDto, decide_if_enabled,
  consume_if_decided, terms_of_dto, terms_of_rule, generate_from_loan_approval, draft_contract,
  insert_contract, approved_contract, check_create_contract, check_generate, drafted,
  generate_and_store, decide_and_store, DraftParts,
}
use coloanex_prod.Contracts.Posting.{
  KeepsLedger, then-Posts, when-KeepsLedger, quiet-KeepsLedger, insert_contract-Posts, Posts,
  bind-Posts, bind-KeepsLedger, reading-KeepsLedger, then_known-Posts,
}
use coloanex_prod.Orchestrator.Decide.{OrchestrationDecision, pays_gas_user, OrchestrationInput}
use coloanex_prod.Service.Quiet.{
  bind-IsQuiet, consume-IsQuiet, if-IsQuiet, require_decision-IsQuiet, IsQuiet,
}
use coloanex_prod.Db.Membership.{Elem-find}

nothing_paid : (n : ℕ) → pos 0 +ℤ pos n ≡ pos n
unfolding ◌+ℤ◌
nothing_paid n = ground arith

pub draft_contract-IsBalanced :
    (id : ℕ) (l : Loan) (rule_id start_date : ℕ) (t : Terms) (hash : Option ℕ)
    → IsBalanced (entry_of (draft_contract id l rule_id start_date t hash))
unfolding draft_contract
draft_contract-IsBalanced id l rule_id start_date t hash = record {
  amount_fits = refl;
  count_fits = refl;
  due_fits = refl;
  adds_up = nothing_paid (calculate_installments t).total_amount_due;
}

pub require_decision-KeepsLedger :
    (env : Env) (input : OrchestrationInput) → KeepsLedger (require_decision env input)
require_decision-KeepsLedger env input =
    quiet-KeepsLedger (require_decision env input) (require_decision-IsQuiet env input)

pub consume-KeepsLedger : (env : Env) (id : Option ℕ) → KeepsLedger (consume env id)
consume-KeepsLedger env id = quiet-KeepsLedger (consume env id) (consume-IsQuiet env id)

pub consume_if_platform-KeepsLedger :
    (env : Env) (dec : OrchestrationDecision) → KeepsLedger (consume_if_platform env dec)
unfolding consume_if_platform
consume_if_platform-KeepsLedger env dec =
    when-KeepsLedger (not (pays_gas_user dec.gas_payer)) (consume env dec.subscription_id)
      (consume-KeepsLedger env dec.subscription_id)

consume_if_decided-KeepsLedger :
    (env : Env) (dec : Option OrchestrationDecision) → KeepsLedger (consume_if_decided env dec)
unfolding consume_if_decided
consume_if_decided-KeepsLedger env none d = refl
consume_if_decided-KeepsLedger env (some dec) d = consume_if_platform-KeepsLedger env dec d

pub decide_if_enabled-IsQuiet :
    (env : Env) (input : OrchestrationInput) → IsQuiet (decide_if_enabled env input)
unfolding decide_if_enabled
decide_if_enabled-IsQuiet env input =
    if-IsQuiet env.chain.enabled (require_decision env input >>= λ dec. pure (some dec)) (pure none)
      (bind-IsQuiet (require_decision env input) _ (require_decision-IsQuiet env input)
        (λ dec d. refl))
      (λ d. refl)

-- The guards write nothing.
pub check_create_contract-same :
    (dto : CreateContractDto) (user : JwtPayload) (d : Db)
    → (check_create_contract dto user d).1 ≡ d
unfolding check_create_contract check_no_contract
check_create_contract-same dto user d = ground arith

pub check_generate-same : (loan_id rule_id : ℕ) (d : Db) → (check_generate loan_id rule_id d).1 ≡ d
unfolding check_generate check_no_contract
check_generate-same loan_id rule_id d = ground arith

found_loan-id : (id : ℕ) (l : Loan) (d : Db) → find_loan id d ≡ some l → l.id ≡ id
unfolding find_loan
found_loan-id id l d e = let (m, h) = Elem-find (λ x. x.id == id) l d.loans e in ground arith

check_create_contract-loan :
    (dto : CreateContractDto) (user : JwtPayload) (p : DraftParts) (d d' : Db)
    → check_create_contract dto user d ≡ (ok p, d')
    → p.of_loan.id ≡ dto.loan_id
unfolding check_create_contract check_no_contract
check_create_contract-loan dto user p d d' h = found_loan-id dto.loan_id p.of_loan d (ground arith)

check_generate-loan :
    (loan_id rule_id : ℕ) (p : Loan × Rule) (d d' : Db)
    → check_generate loan_id rule_id d ≡ (ok p, d')
    → p.0.id ≡ loan_id
unfolding check_generate check_no_contract
check_generate-loan loan_id rule_id p d d' h = found_loan-id loan_id p.0 d (ground arith)

draft_contract-Posts :
    (may : Change → Type 0) (id : ℕ) (l : Loan) (rule_id start_date : ℕ) (t : Terms)
    (hash : Option ℕ)
    → may (Change.opening (entry_of (draft_contract id l rule_id start_date t hash)))
    → Posts may (insert_contract (draft_contract id l rule_id start_date t hash))
unfolding draft_contract
draft_contract-Posts may id l rule_id start_date t hash a =
    insert_contract-Posts may (draft_contract id l rule_id start_date t hash) a
      (draft_contract-IsBalanced id l rule_id start_date t hash) refl

pub create_contract-Posts :
    (may : Change → Type 0) (env : Env) (dto : CreateContractDto) (user : JwtPayload)
    → ((p : DraftParts)
        → p.of_loan.id ≡ dto.loan_id
        → may (Change.opening (entry_of (drafted env dto p))))
    → Posts may (create_contract env dto user)
unfolding create_contract decide_and_store
create_contract-Posts may env dto user allowed =
    then_known-Posts may (λ p. p.of_loan.id ≡ dto.loan_id) (check_create_contract dto user) _
      (reading-KeepsLedger (check_create_contract dto user) (check_create_contract-same dto user))
      (check_create_contract-loan dto user)
      λ p same.
        then-Posts may (require_decision env (input_of user (some p.tenant_id))) _
          (require_decision-KeepsLedger env (input_of user (some p.tenant_id)))
          λ dec.
            bind-Posts may (insert_contract (drafted env dto p)) _
              (draft_contract-Posts may (env.uuid 0) p.of_loan dto.rule_id dto.start_date
                (terms_of_dto dto p.of_loan p.rule)
                (or_else dto.blockchain_tx_hash (submit env.chain)) (allowed p same))
              λ x.
                bind-KeepsLedger (consume_if_platform env dec) _
                  (consume_if_platform-KeepsLedger env dec) (λ u d. refl)

pub generate_from_loan_approval-Posts :
    (may : Change → Type 0) (env : Env) (loan_id rule_id amount term : ℕ) (actor : JwtPayload)
    → ((l : Loan) (r : Rule)
        → l.id ≡ loan_id
        → may (Change.opening (entry_of (approved_contract env l r rule_id amount term))))
    → Posts may (generate_from_loan_approval env loan_id rule_id amount term actor)
unfolding generate_from_loan_approval generate_and_store
generate_from_loan_approval-Posts may env loan_id rule_id amount term actor allowed =
    then_known-Posts may (λ p. p.0.id ≡ loan_id) (check_generate loan_id rule_id) _
      (reading-KeepsLedger (check_generate loan_id rule_id) (check_generate-same loan_id rule_id))
      (check_generate-loan loan_id rule_id)
      λ (l, r) same.
        then-Posts may (decide_if_enabled env (input_of actor (some l.tenant_id))) _
          (quiet-KeepsLedger (decide_if_enabled env (input_of actor (some l.tenant_id)))
            (decide_if_enabled-IsQuiet env (input_of actor (some l.tenant_id))))
          λ dec.
            bind-Posts may (insert_contract (approved_contract env l r rule_id amount term)) _
              (draft_contract-Posts may (env.uuid 0) l rule_id env.now (terms_of_rule r amount term)
                (submit env.chain) (allowed l r same))
              λ x.
                bind-KeepsLedger (consume_if_decided env dec) _
                  (consume_if_decided-KeepsLedger env dec) (λ u d. refl)
