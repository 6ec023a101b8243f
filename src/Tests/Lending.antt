-- ===== src/Tests/Lending.antt =====
-- Contracts at small inputs: signatures, activation and schedules.
use coloanex_prod.Common.{
  All, List, [], arith, false, inl, none, refl, some, ◌*◌, ◌+◌, ◌<◌, ◌∷◌, ◌≡◌, ◌≤◌,
}
use coloanex_prod.Contracts.Rounding.{round_div}
use coloanex_prod.Db.{
  Signature, by_borrower, ContractStatus, DisbursementMethod, PaymentFrequency, Db, PaymentSchedule,
}
use coloanex_prod.Contracts.SigningOrder.{sign_contract-IsInOrder, IsInOrder}
use coloanex_prod.Contracts.SigningOutcome.{sign_contract-SignOutcome, SignOutcome}
use coloanex_prod.Contracts.Signing.{SignContractDto, sign_contract}
use coloanex_prod.Contracts.Disbursing.{
  disbursed, disburse, sign_and_disburse, DisburseDto, activated, ensure_contract_activated_state,
}
use coloanex_prod.Contracts.Exactness.{
  installment_parts, schedule_parts_due, schedule_total_due, schedule_total_exact,
}
use coloanex_prod.Contracts.Installments.{
  due_num, interest_num, total_installments_of, installment_count, Terms, principal_per_installment,
  interest_per_installment, calculate_installments,
}
use coloanex_prod.Contracts.DisbursingLaws.{
  MaySignAndDisburse, ActivateOutcome, MayDisburse, sign_and_disburse-outcome, disburse-outcome,
}
use coloanex_prod.Contracts.Totals.{sum_by}
use coloanex_prod.Contracts.Schedule.{create_payment_schedules}
use coloanex_prod.Tests.Data.{borrower_jwt, db, lender_jwt, calendar, env, contract}
use coloanex_prod.Contracts.ScheduleOnce.{ensure_contract_activated_state-idempotent}
use coloanex_prod.Contracts.DisbursingOrder.{sign_and_disburse-IsInOrder}

abbrev signing : SignContractDto
signing = record {
  signature = 7;
  ip_address = none;
  blockchain_tx_hash = none;
  has_blockchain_data = false;
  data_sign_tx_hash = none;
}

sign_contract-SignOutcome_example :
    SignOutcome env 40 signing borrower_jwt db (sign_contract env 40 signing borrower_jwt db)
sign_contract-SignOutcome_example = sign_contract-SignOutcome env 40 signing borrower_jwt db

db-IsInOrder : All IsInOrder db.contracts
db-IsInOrder = (
  record {
    borrower_once = omega arith;
    tenant_once = omega arith;
    borrower_first = λ h. h;
    signed_by_both = λ h. ground arith;
  },
  tt,
)

sign_contract-IsInOrder_example :
    All IsInOrder (sign_contract env 40 signing borrower_jwt db).1.contracts
sign_contract-IsInOrder_example =
    sign_contract-IsInOrder env 40 signing borrower_jwt db db-IsInOrder

abbrev disbursing : DisburseDto
disbursing = record {
  method = DisbursementMethod.esewa;
  account_number = none;
  account_name = none;
  transaction_id = some 50;
}

abbrev borrower_signature : Signature
borrower_signature = record {
  signed_by = by_borrower;
  signature = 7;
  signed_at = 500;
  ip_address = none;
}

-- The small database with a contract of this status, signed by the borrower.
abbrev db_with : ContractStatus → Db
db_with status = record db {
  contracts = record contract { status = status; signatures = borrower_signature ∷ [] } ∷ [];
  schedules = [];
}

sign_and_disburse-outcome_example :
    ActivateOutcome
      (λ c. MaySignAndDisburse c disbursing lender_jwt (db_with ContractStatus.generated))
      (activated env disbursing 8 none)
      env
      40
      (db_with ContractStatus.generated)
      (sign_and_disburse env 40 disbursing 8 none lender_jwt (db_with ContractStatus.generated))
sign_and_disburse-outcome_example =
    sign_and_disburse-outcome env 40 disbursing 8 none lender_jwt (db_with ContractStatus.generated)

disburse-outcome_example :
    ActivateOutcome
      (λ c. MayDisburse c disbursing lender_jwt (db_with ContractStatus.signed))
      (disbursed env disbursing)
      env
      40
      (db_with ContractStatus.signed)
      (disburse env 40 disbursing lender_jwt (db_with ContractStatus.signed))
disburse-outcome_example =
    disburse-outcome env 40 disbursing lender_jwt (db_with ContractStatus.signed)

-- A thousand units over a year at twelve percent, paid back monthly.
abbrev terms : Terms
terms = record {
  loan_amount = 100000;
  interest_rate = 1200;
  term_months = 12;
  payment_frequency = PaymentFrequency.monthly;
}

abbrev terms_schedule : List PaymentSchedule
terms_schedule = create_payment_schedules calendar (λ i. 900 + i) 40 2000 terms

twelve : total_installments_of terms ≡ 12
unfolding total_installments_of installment_count
twelve = refl

even_amount : (calculate_installments terms).installment_amount ≡ 9333
unfolding calculate_installments due_num interest_num total_installments_of installment_count
    round_div
even_amount = refl

even_principal : principal_per_installment terms ≡ 8333
unfolding principal_per_installment total_installments_of installment_count round_div
even_principal = refl

even_interest : interest_per_installment terms ≡ 1000
unfolding interest_per_installment interest_num total_installments_of installment_count round_div
even_interest = refl

some_installments : 0 < total_installments_of terms
some_installments = rw twelve (omega arith)

installment_parts_example :
    ((calculate_installments terms).installment_amount
      ≤ principal_per_installment terms + interest_per_installment terms + 1)
    × (principal_per_installment terms + interest_per_installment terms
        ≤ (calculate_installments terms).installment_amount + 1)
installment_parts_example = installment_parts terms some_installments

schedule_total_due_example :
    ((calculate_installments terms).total_amount_due ≤ sum_by (λ s. s.total_amount) terms_schedule)
    × (2 * sum_by (λ s. s.total_amount) terms_schedule
        ≤ 2 * (calculate_installments terms).total_amount_due + total_installments_of terms)
schedule_total_due_example =
    schedule_total_due calendar (λ i. 900 + i) 40 2000 terms some_installments

schedule_total_exact_example :
    sum_by (λ s. s.total_amount) terms_schedule ≡ (calculate_installments terms).total_amount_due
schedule_total_exact_example =
    schedule_total_exact calendar (λ i. 900 + i) 40 2000 terms some_installments
      (rw (twelve, even_amount) (omega arith))

schedule_parts_due_example :
    (sum_by (λ s. s.principal_amount) terms_schedule ≡ terms.loan_amount)
    × (sum_by (λ s. s.principal_amount) terms_schedule
          + sum_by (λ s. s.interest_amount) terms_schedule
        ≤ (calculate_installments terms).total_amount_due + 1)
    × ((calculate_installments terms).total_amount_due
        ≤ sum_by (λ s. s.principal_amount) terms_schedule
          + sum_by (λ s. s.interest_amount) terms_schedule
          + 1)
schedule_parts_due_example =
    schedule_parts_due calendar (λ i. 900 + i) 40 2000 terms some_installments
      (rw (twelve, even_principal) (omega arith)) (inl (rw (twelve, even_interest) (omega arith)))

ensure_contract_activated_state-idempotent_example :
    ensure_contract_activated_state env contract
      (ensure_contract_activated_state env contract (db_with ContractStatus.signed))
    ≡ ensure_contract_activated_state env contract (db_with ContractStatus.signed)
ensure_contract_activated_state-idempotent_example =
    ensure_contract_activated_state-idempotent env env contract (db_with ContractStatus.signed)
      some_installments

sign_and_disburse-IsInOrder_example :
    All IsInOrder (sign_and_disburse env 40 disbursing 8 none lender_jwt db).1.contracts
sign_and_disburse-IsInOrder_example =
    sign_and_disburse-IsInOrder env 40 disbursing 8 none lender_jwt db db-IsInOrder
