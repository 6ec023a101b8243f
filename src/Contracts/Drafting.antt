-- ===== src/Contracts/Drafting.antt =====
-- contracts.service.ts: `create` and `generateFromLoanApproval`. The contract's number, its end and
-- its texts, which no modelled handler reads, are left out; numbers are taken not to clash.
use coloanex_prod.Common.{
  Bool, Option, [], any, find, get_or, head?, if◌then◌else◌, is_some, none, not, or_else, some, ℕ,
  ◌++◌, ◌==◌, ◌||◌, ◌∷◌,
}
use coloanex_prod.Common.Int.{pos}
use coloanex_prod.Db.{
  Contract, ContractStatus, PaymentFrequency, monthly, Loan, Rule, ok, err, Action, pure,
  some_or_throw, when, bad_request, find_or_throw, forbidden, unique_violation, throw_if, not_found,
  Db, ◌>>=◌, ◌>>◌,
}
use coloanex_prod.Service.{require_decision, input_of, consume, submit, Env, find_loan, JwtPayload}
use coloanex_prod.Contracts.Installments.{calculate_installments, Terms}
use coloanex_prod.Orchestrator.Decide.{OrchestrationDecision, pays_gas_user, OrchestrationInput}

abbrev pub same_loan : ℕ → Contract → Bool
same_loan loan_id c = c.loan_id == loan_id

-- `findUnique({ where: { loanId } })`
unfoldable pub find_contract_of_loan : ℕ → Db → Option Contract
find_contract_of_loan loan_id d = find (same_loan loan_id) d.contracts

unfoldable pub find_rule : ℕ → Db → Option Rule
find_rule id d = find (λ r. r.id == id) d.rules

pub record CreateContractDto : Type 0 where
  pub loan_id : ℕ
  pub rule_id : ℕ
  pub start_date : ℕ
  pub term_months : ℕ
  pub payment_frequency : PaymentFrequency
  pub loan_amount : Option ℕ
  pub interest_rate : Option ℕ
  pub blockchain_tx_hash : Option ℕ

-- `x || y` on a number that may be missing: 0 counts as missing.
abbrev pub number_or : Option ℕ → ℕ → ℕ
number_or none y = y
number_or (some x) y = if x == 0 then y else x

abbrev pub amount_of_loan : Loan → ℕ
amount_of_loan l = get_or l.approved_amount l.requested_amount

abbrev pub terms_of_dto : CreateContractDto → Loan → Rule → Terms
terms_of_dto dto l r = record {
  loan_amount = number_or dto.loan_amount (amount_of_loan l);
  interest_rate = number_or dto.interest_rate r.interest_rate;
  term_months = dto.term_months;
  payment_frequency = dto.payment_frequency;
}

-- The row that both handlers create.
unfoldable pub draft_contract : ℕ → Loan → ℕ → ℕ → Terms → Option ℕ → Contract
draft_contract id l rule_id start_date t hash =
    let i = calculate_installments t in
    record {
      id = id;
      tenant_id = l.tenant_id;
      borrower_id = l.borrower_id;
      loan_id = l.id;
      rule_id = rule_id;
      status = ContractStatus.draft;
      start_date = start_date;
      loan_amount = t.loan_amount;
      interest_rate = t.interest_rate;
      term_months = t.term_months;
      payment_frequency = t.payment_frequency;
      installment_amount = i.installment_amount;
      total_installments = i.total_installments;
      total_amount_due = i.total_amount_due;
      total_amount_paid = pos 0;
      outstanding_balance = pos i.total_amount_due;
      signatures = [];
      disbursement_info = none;
      contract_pdf_url = none;
      blockchain_tx_hash = hash;
      sign_tx_hash = none;
      report_reason = none;
      signed_at = none;
    }

abbrev pub clashes_with : Contract → Contract → Bool
clashes_with c x = x.id == c.id || same_loan c.loan_id x

-- `contract.create`, refused on a clash of the identifier or of the unique key on the loan.
unfoldable pub insert_contract : Contract → Action (Unit {0})
insert_contract c d =
    if any (clashes_with c) d.contracts
    then (err unique_violation, d)
    else (ok tt, record d { contracts = d.contracts ++ c ∷ [] })

-- `if (decision.gasPayer === 'PLATFORM') await consumeUsage(…)`
unfoldable pub consume_if_platform : Env → OrchestrationDecision → Action (Unit {0})
consume_if_platform env dec =
    when (not (pays_gas_user dec.gas_payer)) (consume env dec.subscription_id)

-- The guard on an existing contract.
unfoldable pub check_no_contract : ℕ → Action (Unit {0})
check_no_contract loan_id d =
    throw_if (is_some (find_contract_of_loan loan_id d))
      (bad_request "Contract already exists for this loan") d

-- What the guards of `create` find.
pub record DraftParts : Type 0 where
  pub tenant_id : ℕ
  pub of_loan : Loan
  pub rule : Rule

unfoldable pub check_create_contract : CreateContractDto → JwtPayload → Action DraftParts
unfolding check_no_contract
check_create_contract dto user = do
  tenant_id ← some_or_throw user.tenant_id (forbidden "Only tenant users can create contracts")
  l ← find_or_throw (find_loan dto.loan_id) (not_found "Loan not found")
  throw_if (not (l.tenant_id == tenant_id))
      (forbidden "You can only create contracts for your own loans")
  check_no_contract dto.loan_id
  r ← find_or_throw (find_rule dto.rule_id) (not_found "Rule not found")
  throw_if (not (r.tenant_id == tenant_id)) (forbidden "You can only use your own rules")
  pure (record { tenant_id = tenant_id; of_loan = l; rule = r })

abbrev pub drafted : Env → CreateContractDto → DraftParts → Contract
drafted env dto p =
    draft_contract (env.uuid 0) p.of_loan dto.rule_id dto.start_date
      (terms_of_dto dto p.of_loan p.rule) (or_else dto.blockchain_tx_hash (submit env.chain))

-- What `create` does once its guards have passed.
unfoldable pub decide_and_store :
    Env → CreateContractDto → JwtPayload → DraftParts → Action Contract
decide_and_store env dto user p = do
  dec ← require_decision env (input_of user (some p.tenant_id))
  insert_contract (drafted env dto p)
  consume_if_platform env dec
  pure (drafted env dto p)

unfoldable pub create_contract : Env → CreateContractDto → JwtPayload → Action Contract
unfolding check_create_contract decide_and_store
create_contract env dto user = check_create_contract dto user >>= decide_and_store env dto user

-- `allowedFrequencies?.[0] || 'MONTHLY'`
abbrev pub frequency_of_rule : Rule → PaymentFrequency
frequency_of_rule r = get_or (head? r.allowed_frequencies) monthly

abbrev pub terms_of_rule : Rule → ℕ → ℕ → Terms
terms_of_rule r approved_amount approved_term_months = record {
  loan_amount = approved_amount;
  interest_rate = r.interest_rate;
  term_months = approved_term_months;
  payment_frequency = frequency_of_rule r;
}

-- `if (this.blockchainService.isEnabled()) { … orchestrate … }`
unfoldable pub decide_if_enabled : Env → OrchestrationInput → Action (Option OrchestrationDecision)
decide_if_enabled env input =
    if env.chain.enabled then (do dec ← require_decision env input; pure (some dec)) else pure none

unfoldable pub consume_if_decided : Env → Option OrchestrationDecision → Action (Unit {0})
unfolding consume_if_platform
consume_if_decided env none = pure tt
consume_if_decided env (some dec) = consume_if_platform env dec

-- The guards of `generateFromLoanApproval`.
unfoldable pub check_generate : ℕ → ℕ → Action (Loan × Rule)
unfolding check_no_contract
check_generate loan_id rule_id = do
  l ← find_or_throw (find_loan loan_id) (not_found "Loan not found")
  check_no_contract loan_id
  r ← find_or_throw (find_rule rule_id) (not_found "Rule not found")
  pure (l, r)

abbrev pub approved_contract : Env → Loan → Rule → ℕ → ℕ → ℕ → Contract
approved_contract env l r rule_id approved_amount approved_term_months =
    draft_contract (env.uuid 0) l rule_id env.now
      (terms_of_rule r approved_amount approved_term_months) (submit env.chain)

-- What `generateFromLoanApproval` does once its guards have passed.
unfoldable pub generate_and_store : Env → ℕ → ℕ → ℕ → JwtPayload → Loan × Rule → Action Contract
generate_and_store env rule_id amount term actor (l, r) = do
  dec ← decide_if_enabled env (input_of actor (some l.tenant_id))
  let c = approved_contract env l r rule_id amount term
  insert_contract c
  consume_if_decided env dec
  pure c

unfoldable pub generate_from_loan_approval : Env → ℕ → ℕ → ℕ → ℕ → JwtPayload → Action Contract
unfolding check_generate generate_and_store
generate_from_loan_approval env loan_id rule_id approved_amount approved_term_months actor =
    check_generate loan_id rule_id
    >>= generate_and_store env rule_id approved_amount approved_term_months actor
