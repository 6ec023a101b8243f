-- ===== src/Contracts/GenerateLaws.antt =====
-- What `generateFromLoanApproval` (contracts.service.ts) requires and stores.
use coloanex_prod.Common.{Option, ap, arith, none, refl, some, sym, ℕ, ◌∙◌, ◌≡◌}
use coloanex_prod.Db.{Contract, Db, Result, ok, err, ◌>>◌, continue_with, pure, Loan, Rule}
use coloanex_prod.Service.{Env, find_loan, JwtPayload, input_of}
use coloanex_prod.Contracts.Drafts.{check_generate-same, decide_if_enabled-IsQuiet}
use coloanex_prod.Contracts.DraftingLaws.{
  decide_then-Stores, insert_contract-Stores, IsRecording, Stores, consume_if_platform-IsRecording,
}
use coloanex_prod.Contracts.Drafting.{
  approved_contract, check_no_contract, generate_from_loan_approval, find_rule,
  find_contract_of_loan, consume_if_decided, decide_if_enabled, insert_contract, check_generate,
  generate_and_store,
}
use coloanex_prod.Orchestrator.Frame.{OnlySubscriptions}
use coloanex_prod.Orchestrator.Decide.{OrchestrationDecision, OrchestrationInput}

-- What the guards show.
pub record MayGenerate (loan_id rule_id : ℕ) (l : Loan) (r : Rule) (d : Db) : Type 0 where
  pub loan_found : find_loan loan_id d ≡ some l
  pub first_contract : find_contract_of_loan loan_id d ≡ none
  pub rule_found : find_rule rule_id d ≡ some r

check_generate-MayGenerate :
    (loan_id rule_id : ℕ) (p : Loan × Rule) (d d' : Db)
    → check_generate loan_id rule_id d ≡ (ok p, d')
    → MayGenerate loan_id rule_id p.0 p.1 d
unfolding check_generate check_no_contract
check_generate-MayGenerate loan_id rule_id p d d' h = record {
  loan_found = ground arith;
  first_contract = ground arith;
  rule_found = ground arith;
}

consume_if_decided-IsRecording :
    (env : Env) (dec : Option OrchestrationDecision) → IsRecording (consume_if_decided env dec)
unfolding consume_if_decided
consume_if_decided-IsRecording env none = record { quiet = λ d. refl; returns = λ d. refl }
consume_if_decided-IsRecording env (some dec) = record {
  quiet = λ d. (consume_if_platform-IsRecording env dec).quiet d;
  returns = λ d. (consume_if_platform-IsRecording env dec).returns d;
}

-- How `generateFromLoanApproval` ends: an exception has written to subscriptions alone; a return has
-- passed every guard, and has added the contract of the approval.
abbrev pub GenerateOutcome : Env → ℕ → ℕ → ℕ → ℕ → Db → Result Contract × Db → Type 0
GenerateOutcome env loan_id rule_id amount term d (err e, d') = OnlySubscriptions d d'
GenerateOutcome env loan_id rule_id amount term d (ok c, d') =
    (l : Loan) × (r : Rule) × MayGenerate loan_id rule_id l r d
    × Stores (approved_contract env l r rule_id amount term) d (ok c, d')

GenerateOutcome-of_Stores :
    (env : Env) (loan_id rule_id amount term : ℕ) (d : Db) (l : Loan) (r : Rule)
    (res : Result Contract × Db)
    → MayGenerate loan_id rule_id l r d
    → Stores (approved_contract env l r rule_id amount term) d res
    → GenerateOutcome env loan_id rule_id amount term d res
GenerateOutcome-of_Stores env loan_id rule_id amount term d l r (err e, d') m s = s
GenerateOutcome-of_Stores env loan_id rule_id amount term d l r (ok c, d') m s = (l, r, m, s)

generate_and_store-Stores :
    (env : Env) (rule_id amount term : ℕ) (actor : JwtPayload) (l : Loan) (r : Rule) (d : Db)
    → Stores
        (approved_contract env l r rule_id amount term)
        d
        (generate_and_store env rule_id amount term actor (l, r) d)
unfolding generate_and_store
generate_and_store-Stores env rule_id amount term actor l r d =
    let input : OrchestrationInput = input_of actor (some l.tenant_id) in
    let c : Contract = approved_contract env l r rule_id amount term in
    decide_then-Stores c d (decide_if_enabled env input d)
      (λ dec. insert_contract c >> (consume_if_decided env dec >> pure c))
      (decide_if_enabled-IsQuiet env input d)
      (λ dec x.
        insert_contract-Stores c (consume_if_decided env dec)
          (consume_if_decided-IsRecording env dec) x)

generate_end :
    (env : Env) (loan_id rule_id amount term : ℕ) (actor : JwtPayload) (d : Db)
    (res : Result (Loan × Rule) × Db)
    → check_generate loan_id rule_id d ≡ res
    → GenerateOutcome env loan_id rule_id amount term d
        (continue_with res (generate_and_store env rule_id amount term actor))
generate_end env loan_id rule_id amount term actor d (err e, x) h =
    rw (sym (ap (λ z. z.1) h) ∙ check_generate-same loan_id rule_id d) refl
generate_end env loan_id rule_id amount term actor d (ok (l, r), x) h =
    rw (sym (ap (λ z. z.1) h) ∙ check_generate-same loan_id rule_id d) (
      GenerateOutcome-of_Stores env loan_id rule_id amount term d l r
        (generate_and_store env rule_id amount term actor (l, r) d)
        (check_generate-MayGenerate loan_id rule_id (l, r) d x h)
        (generate_and_store-Stores env rule_id amount term actor l r d))

pub generate_from_loan_approval-GenerateOutcome :
    (env : Env) (loan_id rule_id amount term : ℕ) (actor : JwtPayload) (d : Db)
    → GenerateOutcome env loan_id rule_id amount term d
        (generate_from_loan_approval env loan_id rule_id amount term actor d)
unfolding generate_from_loan_approval generate_and_store
generate_from_loan_approval-GenerateOutcome env loan_id rule_id amount term actor d =
    generate_end env loan_id rule_id amount term actor d (check_generate loan_id rule_id d) refl
