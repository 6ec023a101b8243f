-- ===== src/Contracts/Disbursing.antt =====
-- contracts.service.ts: `ensureDisbursementPaymentCompleted`, `ensureContractActivatedState`,
-- `signAndDisburse` and `disburse`. The merged JSON of the chain's data is left out.
use coloanex_prod.Common.{
  Bool, Option, [], any, false, find, if◌then◌else◌, is_number, is_some, none, not, or_else, some,
  true, ℕ, ◌&&◌, ◌++◌, ◌==◌, ◌∷◌,
}
use coloanex_prod.Db.{
  Contract, ContractStatus, LoanStatus, Signature, by_borrower, by_tenant, DisbursementMethod,
  DisbursementInfo, Transaction, TransactionType, TransactionStatus, PaymentSchedule, Action, pure,
  bad_request, find_or_throw, forbidden, throw_if, not_found, modify, Db, ◌>>◌, ◌>>=◌,
}
use coloanex_prod.Service.{
  JwtPayload, find_contract, write_loan, is_super_admin, write_contract, Env,
}
use coloanex_prod.Contracts.Signing.{has_signature}
use coloanex_prod.Contracts.Installments.{Terms}
use coloanex_prod.Contracts.Schedule.{create_payment_schedules}

abbrev pub is_disbursement : TransactionType → Bool
is_disbursement TransactionType.disbursement = true
is_disbursement _ = false

abbrev pub is_completed : TransactionStatus → Bool
is_completed TransactionStatus.completed = true
is_completed _ = false

-- `findFirst({ where: { id, contractId, type: 'DISBURSEMENT' } })`
unfoldable pub find_disbursement : ℕ → ℕ → Db → Option Transaction
find_disbursement contract_id transaction_id d =
    find
      (λ t.
        t.id == transaction_id && (is_number t.contract_id contract_id && is_disbursement t.type))
      d.transactions

unfoldable pub ensure_disbursement_payment_completed : ℕ → ℕ → Action ℕ
ensure_disbursement_payment_completed contract_id transaction_id = do
  t ←
      find_or_throw (find_disbursement contract_id transaction_id)
        (bad_request "Invalid disbursement transaction reference for this contract.")
  throw_if (not (is_completed t.status)) (
      bad_request
        "Disbursement payment is not completed yet. Please finish payment verification first.")
  pure t.id

abbrev pub of_contract : ℕ → PaymentSchedule → Bool
of_contract id s = s.contract_id == id

abbrev pub terms_of : Contract → Terms
terms_of c = record {
  loan_amount = c.loan_amount;
  interest_rate = c.interest_rate;
  term_months = c.term_months;
  payment_frequency = c.payment_frequency;
}

-- The schedules of a contract that has none yet.
unfoldable pub ensure_schedules : Env → Contract → Db → Db
ensure_schedules env c d = if any (of_contract c.id) d.schedules then d else record d {
  schedules =
      d.schedules ++ create_payment_schedules env.calendar env.uuid c.id c.start_date (terms_of c);
}

unfoldable pub ensure_contract_activated_state : Env → Contract → Db → Db
ensure_contract_activated_state env c d =
    write_loan c.loan_id (λ l. record l { status = LoanStatus.loan_provided })
      (ensure_schedules env c d)

-- The fields that the two transfer objects share.
pub record DisburseDto : Type 0 where
  pub method : DisbursementMethod
  pub account_number : Option ℕ
  pub account_name : Option ℕ
  pub transaction_id : Option ℕ

-- `paymentRequiredMethods.includes(method)`
abbrev pub requires_payment : DisbursementMethod → Bool
requires_payment DisbursementMethod.esewa = true
requires_payment DisbursementMethod.khalti = true
requires_payment DisbursementMethod.fonepay = true
requires_payment DisbursementMethod.wallet = false
requires_payment DisbursementMethod.bank_transfer = false

abbrev pub disbursement_tx : Option DisbursementInfo → Option ℕ
disbursement_tx none = none
disbursement_tx (some info) = info.transaction_id

abbrev pub resolved_tx : DisburseDto → Contract → Option ℕ
resolved_tx dto c = or_else dto.transaction_id (disbursement_tx c.disbursement_info)

-- `if (resolvedDisbursementTxId) await this.ensureDisbursementPaymentCompleted(…)`
unfoldable pub ensure_payment : ℕ → Option ℕ → Action (Unit {0})
unfolding ensure_disbursement_payment_completed
ensure_payment contract_id none = pure tt
ensure_payment contract_id (some transaction_id) = do
  ensure_disbursement_payment_completed contract_id transaction_id
  pure tt

abbrev pub info_of : Env → DisburseDto → Option ℕ → DisbursementInfo
info_of env dto tx = record {
  method = dto.method;
  account_number = dto.account_number;
  account_name = dto.account_name;
  disbursed_at = env.now;
  transaction_id = tx;
}

abbrev pub may_sign_and_disburse : ContractStatus → Bool
may_sign_and_disburse ContractStatus.generated = true
may_sign_and_disburse ContractStatus.signed = true
may_sign_and_disburse ContractStatus.active = true
may_sign_and_disburse _ = false

abbrev pub may_disburse : ContractStatus → Bool
may_disburse ContractStatus.signed = true
may_disburse ContractStatus.active = true
may_disburse _ = false

abbrev pub is_outsider : JwtPayload → Contract → Bool
is_outsider user c = not (is_number user.tenant_id c.tenant_id) && not (is_super_admin user)

abbrev pub tenant_signature : Env → ℕ → Signature
tenant_signature env signature = record {
  signed_by = by_tenant;
  signature = signature;
  signed_at = env.now;
  ip_address = none;
}

-- The contract that `signAndDisburse` stores.
unfoldable pub activated : Env → DisburseDto → ℕ → Option ℕ → Contract → Contract
activated env dto signature tx_hash c = record c {
  signatures =
      if has_signature by_tenant c.signatures
      then c.signatures
      else c.signatures ++ tenant_signature env signature ∷ [];
  status = ContractStatus.active;
  signed_at = some env.now;
  disbursement_info = some (info_of env dto (resolved_tx dto c));
  blockchain_tx_hash = or_else tx_hash c.blockchain_tx_hash;
}

-- The guards of `signAndDisburse` after the contract has been found.
unfoldable pub check_sign_and_disburse : Contract → DisburseDto → JwtPayload → Action (Unit {0})
unfolding ensure_payment
check_sign_and_disburse c dto user = do
  throw_if (is_outsider user c)
      (forbidden "Only tenant members can sign and disburse this contract")
  throw_if (not (may_sign_and_disburse c.status))
      (bad_request "Contract must be GENERATED, SIGNED, or ACTIVE to complete sign and disburse")
  throw_if (requires_payment dto.method && not (is_some (resolved_tx dto c)))
      (bad_request "Disbursement payment must be completed before sign and disburse.")
  ensure_payment c.id (resolved_tx dto c)
  throw_if (not (has_signature by_borrower c.signatures))
      (bad_request "Borrower must sign the contract before the lender can sign")

unfoldable pub sign_and_disburse :
    Env → ℕ → DisburseDto → ℕ → Option ℕ → JwtPayload → Action Contract
unfolding check_sign_and_disburse
sign_and_disburse env id dto signature tx_hash user = do
  c ← find_or_throw (find_contract id) (not_found "Contract not found")
  check_sign_and_disburse c dto user
  modify (write_contract c.id (λ x. activated env dto signature tx_hash c))
  modify (ensure_contract_activated_state env c)
  pure (activated env dto signature tx_hash c)

-- The contract that `disburse` stores.
unfoldable pub disbursed : Env → DisburseDto → Contract → Contract
disbursed env dto c = record c {
  status = ContractStatus.active;
  disbursement_info = some (info_of env dto (resolved_tx dto c));
}

unfoldable pub check_disburse : Contract → DisburseDto → JwtPayload → Action (Unit {0})
unfolding ensure_payment
check_disburse c dto user = do
  throw_if (is_outsider user c) (forbidden "Only tenant can disburse the loan")
  throw_if (not (may_disburse c.status)) (bad_request "Contract must be SIGNED to disburse")
  throw_if (requires_payment dto.method && not (is_some (resolved_tx dto c)))
      (bad_request "Disbursement payment must be completed before disbursement.")
  ensure_payment c.id (resolved_tx dto c)

unfoldable pub disburse : Env → ℕ → DisburseDto → JwtPayload → Action Contract
unfolding check_disburse
disburse env id dto user = do
  c ← find_or_throw (find_contract id) (not_found "Contract not found")
  check_disburse c dto user
  modify (write_contract c.id (λ x. disbursed env dto c))
  modify (ensure_contract_activated_state env c)
  pure (disbursed env dto c)
