-- ===== src/Contracts/DraftingLaws.antt =====
-- What `create` (contracts.service.ts) requires and stores.
use coloanex_prod.Common.{
  Bool-cases, [], any, ap, arith, false, inl, inr, none, not, refl, some, sym, ◌++◌, ◌∙◌, ◌∷◌, ◌≡◌,
}
use coloanex_prod.Db.{Db, ok, ◌>>◌, Action, err, continue_with, pure, Result, Contract}
use coloanex_prod.Service.{JwtPayload, find_loan, require_decision, Env, consume, input_of}
use coloanex_prod.Contracts.Drafting.{
  DraftParts, CreateContractDto, find_rule, find_contract_of_loan, check_create_contract,
  check_no_contract, clashes_with, insert_contract, create_contract, consume_if_platform, drafted,
  decide_and_store,
}
use coloanex_prod.Orchestrator.Frame.{OnlySubscriptions-trans, OnlySubscriptions}
use coloanex_prod.Service.Quiet.{IsQuiet, require_decision-IsQuiet, consume-IsQuiet, when-IsQuiet}
use coloanex_prod.Contracts.Drafts.{check_create_contract-same}
use coloanex_prod.Orchestrator.Decide.{OrchestrationDecision, pays_gas_user, OrchestrationInput}

-- What the guards of `create` show.
pub record MayDraft (dto : CreateContractDto) (user : JwtPayload) (p : DraftParts) (d : Db)
    : Type 0 where
  pub caller_tenant : user.tenant_id ≡ some p.tenant_id
  pub loan_found : find_loan dto.loan_id d ≡ some p.of_loan
  pub own_loan : p.of_loan.tenant_id ≡ p.tenant_id
  pub first_contract : find_contract_of_loan dto.loan_id d ≡ none
  pub rule_found : find_rule dto.rule_id d ≡ some p.rule
  pub own_rule : p.rule.tenant_id ≡ p.tenant_id

check_create_contract-MayDraft :
    (dto : CreateContractDto) (user : JwtPayload) (p : DraftParts) (d d' : Db)
    → check_create_contract dto user d ≡ (ok p, d')
    → MayDraft dto user p d
unfolding check_create_contract check_no_contract
check_create_contract-MayDraft dto user p d d' h = record {
  caller_tenant = ground arith;
  loan_found = ground arith;
  own_loan = ground arith;
  first_contract = ground arith;
  rule_found = ground arith;
  own_rule = ground arith;
}

-- How the storing of a new contract ends: an exception has written to subscriptions alone, and a
-- return has added the contract, which clashed with none.
abbrev pub Stores : Contract → Db → Result Contract × Db → Type 0
Stores c d (err e, d') = OnlySubscriptions d d'
Stores c d (ok c', d') =
    (c' ≡ c)
    × (any (clashes_with c) d.contracts ≡ false)
    × (d' ≡ record d { contracts = d.contracts ++ c ∷ []; subscriptions = d'.subscriptions })

-- A part that writes to subscriptions alone and returns.
pub record IsRecording (m : Action (Unit {0})) : Type 0 where
  pub quiet : IsQuiet m
  pub returns : (d : Db) → (m d).0 ≡ ok tt

store_end :
    (c : Contract) (d : Db) (r : Result (Unit {0}) × Db)
    → any (clashes_with c) d.contracts ≡ false
    → OnlySubscriptions (record d { contracts = d.contracts ++ c ∷ [] }) r.1
    → r.0 ≡ ok tt
    → Stores c d (continue_with r (λ u. pure c))
store_end c d (ok u, d') fresh q e = (refl, fresh, q)
store_end c d (err x, d') fresh q e = cc

pub insert_contract-Stores :
    (c : Contract) (k : Action (Unit {0}))
    → IsRecording k
    → (d : Db) → Stores c d ((insert_contract c >> (k >> pure c)) d)
unfolding insert_contract
insert_contract-Stores c k h d = elim (Bool-cases (any (clashes_with c) d.contracts)) [
  | inl clash ↦ rw clash refl
  | inr fresh ↦
      let d' : Db = record d { contracts = d.contracts ++ c ∷ [] } in
      rw fresh (store_end c d (k d') fresh (h.quiet d') (h.returns d'))
]

Stores-after :
    (c : Contract) (d x : Db) (r : Result Contract × Db)
    → OnlySubscriptions d x
    → Stores c x r
    → Stores c d r
Stores-after c d x (err e, d') q s = OnlySubscriptions-trans d x d' q s
Stores-after c d x (ok c', d') q s = (
  s.0,
  ap (λ (z : Db). any (clashes_with c) z.contracts) (sym q) ∙ s.1,
  s.2
      ∙ ap
          (λ (z : Db). record z {
            contracts = z.contracts ++ c ∷ [];
            subscriptions = d'.subscriptions;
          })
          q,
)

pub decide_then-Stores :
    {B : Type 0} (c : Contract) (d : Db) (r : Result B × Db) (f : B → Action Contract)
    → OnlySubscriptions d r.1
    → ((b : B) (x : Db) → Stores c x (f b x))
    → Stores c d (continue_with r f)
decide_then-Stores c d (ok b, x) f q k = Stores-after c d x (f b x) q (k b x)
decide_then-Stores c d (err e, x) f q k = q

pub consume_if_platform-IsRecording :
    (env : Env) (dec : OrchestrationDecision) → IsRecording (consume_if_platform env dec)
unfolding consume_if_platform consume
consume_if_platform-IsRecording env dec = record {
  quiet =
      when-IsQuiet (not (pays_gas_user dec.gas_payer)) (consume env dec.subscription_id)
        (consume-IsQuiet env dec.subscription_id);
  returns = λ d. ground arith;
}

-- How `create` ends: an exception has written to subscriptions alone; a return has passed every
-- guard, and has added the contract of its parts.
abbrev pub CreateOutcome : Env → CreateContractDto → JwtPayload → Db → Result Contract × Db → Type 0
CreateOutcome env dto user d (err e, d') = OnlySubscriptions d d'
CreateOutcome env dto user d (ok c, d') =
    (p : DraftParts) × MayDraft dto user p d × Stores (drafted env dto p) d (ok c, d')

CreateOutcome-of_Stores :
    (env : Env) (dto : CreateContractDto) (user : JwtPayload) (d : Db) (p : DraftParts)
    (r : Result Contract × Db)
    → MayDraft dto user p d
    → Stores (drafted env dto p) d r
    → CreateOutcome env dto user d r
CreateOutcome-of_Stores env dto user d p (err e, d') m s = s
CreateOutcome-of_Stores env dto user d p (ok c, d') m s = (p, m, s)

decide_and_store-Stores :
    (env : Env) (dto : CreateContractDto) (user : JwtPayload) (p : DraftParts) (d : Db)
    → Stores (drafted env dto p) d (decide_and_store env dto user p d)
unfolding decide_and_store
decide_and_store-Stores env dto user p d =
    let input : OrchestrationInput = input_of user (some p.tenant_id) in
    decide_then-Stores (drafted env dto p) d (require_decision env input d)
      (λ dec.
        insert_contract (drafted env dto p)
        >> (consume_if_platform env dec >> pure (drafted env dto p)))
      (require_decision-IsQuiet env input d)
      (λ dec x.
        insert_contract-Stores (drafted env dto p) (consume_if_platform env dec)
          (consume_if_platform-IsRecording env dec) x)

create_end :
    (env : Env) (dto : CreateContractDto) (user : JwtPayload) (d : Db) (r : Result DraftParts × Db)
    → check_create_contract dto user d ≡ r
    → CreateOutcome env dto user d (continue_with r (decide_and_store env dto user))
create_end env dto user d (err e, x) h =
    rw (sym (ap (λ z. z.1) h) ∙ check_create_contract-same dto user d) refl
create_end env dto user d (ok p, x) h =
    rw (sym (ap (λ z. z.1) h) ∙ check_create_contract-same dto user d) (
      CreateOutcome-of_Stores env dto user d p (decide_and_store env dto user p d)
        (check_create_contract-MayDraft dto user p d x h)
        (decide_and_store-Stores env dto user p d))

-- An exception from `create` leaves everything but usage windows as it was. A return is for a caller
-- with a tenant, for a loan and by a rule of that tenant, where the loan had no contract; then one
-- contract is added to the table, the draft of the loan, the rule and the request, and nothing else
-- but usage windows has changed.
pub create_contract-CreateOutcome :
    (env : Env) (dto : CreateContractDto) (user : JwtPayload) (d : Db)
    → CreateOutcome env dto user d (create_contract env dto user d)
unfolding create_contract decide_and_store
create_contract-CreateOutcome env dto user d =
    create_end env dto user d (check_create_contract dto user d) refl
