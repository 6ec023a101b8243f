-- ===== src/Loans/Review.antt =====
-- loans.service.ts: `review` and `makePayment`. The mail that follows a review is I/O, whose failure
-- is caught.
use coloanex_prod.Common.{
  Bool, Option, false, get_or, if◌then◌else◌, is_some, none, not, or_else, some, true, ℕ, ◌&&◌,
  ◌==◌, ◌||◌,
}
use coloanex_prod.Db.{
  Loan, LoanStatus, ActivityAction, Action, pure, bad_request, find_or_throw, modify, ◌>>◌,
  record_not_found, gets, throw_if, when, not_found, loan_approve, loan_reject, loan_entity,
  kyc_entity, Db, Contract, ◌>>=◌,
}
use coloanex_prod.Service.{
  is_borrower, find_loan, consume, write_loan, require_decision, JwtPayload, input_of, Env,
}
use coloanex_prod.Contracts.Drafting.{find_rule, generate_from_loan_approval, find_contract_of_loan}
use coloanex_prod.Loans.Apply.{find_one_loan, log_activity, is_loan_of_user}

-- Requests whose amount and term, where given, are natural numbers: `@IsNumber()` and the tests for
-- truth below let negative ones through, which are not modelled.
pub record ReviewLoanDto : Type 0 where
  pub status : LoanStatus
  pub rejection_reason : Option ℕ
  pub rule_id : Option ℕ
  pub approved_amount : Option ℕ
  pub approved_term_months : Option ℕ
  pub blockchain_tx_hash : Option ℕ

abbrev pub is_approved : LoanStatus → Bool
is_approved LoanStatus.approved = true
is_approved _ = false

abbrev pub is_rejected : LoanStatus → Bool
is_rejected LoanStatus.rejected = true
is_rejected _ = false

-- The truth of a number that may be missing: 0 counts as missing.
abbrev pub is_given : Option ℕ → Bool
is_given none = false
is_given (some n) = not (n == 0)

unfoldable pub check_review : ReviewLoanDto → Action (Unit {0})
check_review dto = do
  throw_if (is_rejected dto.status && not (is_some dto.rejection_reason))
      (bad_request "Rejection reason is required when rejecting loan")
  throw_if (is_approved dto.status && not (is_some dto.rule_id))
      (bad_request "Rule is required when approving loan")
  throw_if (is_approved dto.status && not (is_given dto.approved_amount))
      (bad_request "Approved amount is required when approving loan")
  throw_if (is_approved dto.status && not (is_given dto.approved_term_months))
      (bad_request "Approved term is required when approving loan")

-- `updateData`.
abbrev pub reviewed_loan : ReviewLoanDto → Loan → Loan
reviewed_loan dto l = record l {
  status = dto.status;
  rejection_reason = or_else dto.rejection_reason l.rejection_reason;
  approved_amount = if is_approved dto.status then dto.approved_amount else l.approved_amount;
  approved_term_months =
      if is_approved dto.status then dto.approved_term_months else l.approved_term_months;
  rule_id = if is_approved dto.status then dto.rule_id else l.rule_id;
  blockchain_tx_hash = or_else dto.blockchain_tx_hash l.blockchain_tx_hash;
}

abbrev pub rule_exists : Option ℕ → Db → Bool
rule_exists none d = true
rule_exists (some id) d = is_some (find_rule id d)

-- `rule: { connect: { id } }`, which Prisma refuses where there is no such rule.
unfoldable pub connect_rule : ReviewLoanDto → Action (Unit {0})
connect_rule dto d =
    throw_if (is_approved dto.status && not (rule_exists dto.rule_id d)) record_not_found d

unfoldable pub find_reviewed : ℕ → ReviewLoanDto → Action Loan
unfolding check_review connect_rule
find_reviewed id dto = do
  l ← find_or_throw (find_loan id) (not_found "Loan not found")
  check_review dto
  connect_rule dto
  pure l

-- The contract of an approval; the numbers are there, as the guards have shown.
unfoldable pub generate_if_approved : Env → ℕ → ReviewLoanDto → JwtPayload → Action (Unit {0})
generate_if_approved env id dto user = when (is_approved dto.status) (
    generate_from_loan_approval env id (get_or dto.rule_id 0) (get_or dto.approved_amount 0)
      (get_or dto.approved_term_months 0) user
    >> pure tt)

abbrev pub action_of_review : LoanStatus → ActivityAction
action_of_review LoanStatus.approved = loan_approve
action_of_review LoanStatus.rejected = loan_reject
action_of_review _ = ActivityAction.update

unfoldable pub review : Env → ℕ → ReviewLoanDto → JwtPayload → Action Loan
unfolding find_reviewed generate_if_approved
review env id dto user = do
  l ← find_reviewed id dto
  modify (write_loan id (reviewed_loan dto))
  generate_if_approved env id dto user
  modify (log_activity user (action_of_review dto.status) loan_entity id)
  pure (reviewed_loan dto l)

-- The decision on a repayment of a loan with a contract. The chain's answer is only logged.
unfoldable pub decide_repayment : Env → Loan → JwtPayload → Option Contract → Action (Unit {0})
decide_repayment env l user none = pure tt
decide_repayment env l user (some c) = do
  dec ← require_decision env (input_of user (some l.tenant_id))
  consume env dec.subscription_id

-- The answer is the amount.
unfoldable pub check_payer : ℕ → JwtPayload → Action Loan
check_payer id user = do
  l ← find_one_loan id user
  own ← gets (is_loan_of_user user.sub l)
  throw_if (not (is_borrower user) || not own)
      (bad_request "You can only make payments on your own loans")
  pure l

unfoldable pub make_payment : Env → ℕ → ℕ → JwtPayload → Action ℕ
unfolding check_payer decide_repayment
make_payment env id amount user = do
  l ← check_payer id user
  modify (log_activity user ActivityAction.create kyc_entity id)
  c ← gets (find_contract_of_loan id)
  decide_repayment env l user c
  pure amount
