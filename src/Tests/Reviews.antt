-- ===== src/Tests/Reviews.antt =====
-- Loans and their contracts at small inputs.
use coloanex_prod.Common.{All, List, [], arith, false, map, none, refl, some, ◌∷◌, ◌≡◌}
use coloanex_prod.Db.{LoanStatus, DisbursementMethod, PaymentFrequency, Db, err, bad_request}
use coloanex_prod.Service.{write_loan, find_contract, find_loan, find_borrower, submit}
use coloanex_prod.Contracts.DraftingLaws.{CreateOutcome, create_contract-CreateOutcome}
use coloanex_prod.Contracts.Rounding.{round_div}
use coloanex_prod.Contracts.Signing.{signer_of, sign_contract, SignContractDto}
use coloanex_prod.Contracts.Ledger.{IsSound, ledger}
use coloanex_prod.Contracts.Disbursing.{sign_and_disburse, DisburseDto}
use coloanex_prod.Contracts.Installments.{
  total_installments_of, due_num, calculate_installments, installment_count, interest_num,
}
use coloanex_prod.Contracts.Drafting.{
  generate_and_store, generate_from_loan_approval, insert_contract, draft_contract,
  check_no_contract, find_rule, find_contract_of_loan, check_generate, decide_if_enabled,
  consume_if_decided, create_contract, CreateContractDto,
}
use coloanex_prod.Contracts.Activation.{IsReady, sign-sign_and_disburse, IsActivated}
use coloanex_prod.Tests.Data.{env, lender_jwt, loan, db, borrower_jwt, contract}
use coloanex_prod.System.Requests.{Request, Call, serve_all}
use coloanex_prod.System.Reachable.{serve_all-LedgerSteps, serve_all-IsSound}
use coloanex_prod.Common.Int.{◌+ℤ◌}
use coloanex_prod.Loans.Removal.{LoanRemoveOutcome, remove_loan-LoanRemoveOutcome}
use coloanex_prod.Loans.Apply.{is_hidden_loan, find_one_loan, log_activity}
use coloanex_prod.Loans.Change.{remove_loan}
use coloanex_prod.Loans.ReviewOutcome.{ReviewOutcome, review-contracted, review-ReviewOutcome}
use coloanex_prod.Loans.ReviewLaws.{find_one_loan-MaySee, MaySee}
use coloanex_prod.Loans.PaymentLaws.{OnlyBookkeeping, make_payment-OnlyBookkeeping}
use coloanex_prod.Loans.Review.{
  check_review, find_reviewed, review, connect_rule, generate_if_approved, reviewed_loan,
  make_payment, ReviewLoanDto,
}
use coloanex_prod.Contracts.Listing.{is_listed, find_all_contracts}
use coloanex_prod.Contracts.ListingLaws.{
  RemoveOutcome, remove_contract-RemoveOutcome, find_all_contracts-MayList, MayList,
}
use coloanex_prod.Contracts.Editing.{remove_contract}
use coloanex_prod.System.Permits.{LedgerSteps}

-- A second loan, without a contract.
abbrev pub new_db : Db
new_db = record db { loans = loan ∷ record loan { id = 31; status = LoanStatus.under_review } ∷ [] }

abbrev pub approval : ReviewLoanDto
approval = record {
  status = LoanStatus.approved;
  rejection_reason = none;
  rule_id = some 60;
  approved_amount = some 50000;
  approved_term_months = some 6;
  blockchain_tx_hash = none;
}

review-ReviewOutcome_example :
    ReviewOutcome env 31 approval lender_jwt new_db (review env 31 approval lender_jwt new_db)
review-ReviewOutcome_example = review-ReviewOutcome env 31 approval lender_jwt new_db

approved_contract_due :
    map (λ c. c.total_amount_due) (review env 31 approval lender_jwt new_db).1.contracts
    ≡ 112000 ∷ 53000 ∷ []
unfolding review find_reviewed check_review connect_rule generate_if_approved
    generate_from_loan_approval check_generate check_no_contract generate_and_store
    decide_if_enabled insert_contract consume_if_decided find_loan find_rule find_contract_of_loan
    log_activity draft_contract calculate_installments due_num interest_num total_installments_of
    installment_count round_div submit
approved_contract_due = refl

review-contracted_example : review env 30 approval lender_jwt db ≡ (
  err (bad_request "Contract already exists for this loan"),
  write_loan 30 (reviewed_loan approval) db,
)
unfolding find_reviewed check_review connect_rule find_loan find_rule find_contract_of_loan
review-contracted_example =
    review-contracted env 30 approval lender_jwt loan contract db refl refl refl

find_one_loan-MaySee_example :
    (find_loan 30 db ≡ some loan) × MaySee borrower_jwt loan db × (db ≡ db)
unfolding find_one_loan find_loan is_hidden_loan
find_one_loan-MaySee_example = find_one_loan-MaySee 30 borrower_jwt loan db db refl

remove_loan-LoanRemoveOutcome_example : LoanRemoveOutcome 30 db (remove_loan env 30 lender_jwt db)
remove_loan-LoanRemoveOutcome_example = remove_loan-LoanRemoveOutcome env 30 lender_jwt db

make_payment-OnlyBookkeeping_example :
    OnlyBookkeeping db (make_payment env 30 9333 borrower_jwt db).1
make_payment-OnlyBookkeeping_example = make_payment-OnlyBookkeeping env 30 9333 borrower_jwt db

abbrev drafting : CreateContractDto
drafting = record {
  loan_id = 31;
  rule_id = 60;
  start_date = 2000;
  term_months = 6;
  payment_frequency = PaymentFrequency.monthly;
  loan_amount = none;
  interest_rate = none;
  blockchain_tx_hash = none;
}

create_contract-CreateOutcome_example :
    CreateOutcome env drafting lender_jwt new_db (create_contract env drafting lender_jwt new_db)
create_contract-CreateOutcome_example = create_contract-CreateOutcome env drafting lender_jwt new_db

abbrev pub signing : SignContractDto
signing = record {
  signature = 7;
  ip_address = none;
  blockchain_tx_hash = none;
  has_blockchain_data = false;
  data_sign_tx_hash = none;
}

abbrev pub by_bank : DisburseDto
by_bank = record {
  method = DisbursementMethod.bank_transfer;
  account_number = none;
  account_name = none;
  transaction_id = none;
}

contract-IsReady : IsReady env 40 contract borrower_jwt lender_jwt by_bank db
unfolding find_contract signer_of find_borrower total_installments_of installment_count
contract-IsReady = record {
  chain_off = refl;
  found = refl;
  unsigned = refl;
  is_generated = refl;
  may_sign = refl;
  insider = refl;
  no_gateway = refl;
  has_installment = omega arith;
  no_reference = refl;
}

sign-sign_and_disburse_example : IsActivated 40 contract (
    sign_and_disburse env 40 by_bank 8 none lender_jwt
      (sign_contract env 40 signing borrower_jwt db).1)
sign-sign_and_disburse_example =
    sign-sign_and_disburse env 40 contract signing by_bank 8 none borrower_jwt lender_jwt db
      contract-IsReady

db-IsSound : IsSound (ledger db)
unfolding calculate_installments due_num interest_num total_installments_of installment_count
    round_div ◌+ℤ◌
db-IsSound = record {
  balanced =
      (record { amount_fits = refl; count_fits = refl; due_fits = refl; adds_up = refl }, tt);
  ids = (tt, tt);
  loans = (tt, tt);
}

-- The borrower signs, the lender removes that loan with its contract, and approves the second loan.
abbrev calls : List Call
calls =
    record { env = env; user = borrower_jwt; request = Request.sign_request 40 signing }
    ∷ record { env = env; user = lender_jwt; request = Request.remove_loan_request 30 }
    ∷ record { env = env; user = lender_jwt; request = Request.review_request 31 approval }
    ∷ []

serve_all-LedgerSteps_example : LedgerSteps calls (ledger new_db) (ledger (serve_all calls new_db))
serve_all-LedgerSteps_example = serve_all-LedgerSteps calls new_db db-IsSound

serve_all-IsSound_example : IsSound (ledger (serve_all calls new_db))
serve_all-IsSound_example = serve_all-IsSound calls new_db db-IsSound

find_all_contracts-MayList_example :
    All (MayList borrower_jwt db) (find_all_contracts borrower_jwt db)
find_all_contracts-MayList_example = find_all_contracts-MayList borrower_jwt db

-- A caller with no tenant and no borrower record is shown the contracts of every tenant.
stranger_list :
    find_all_contracts (record { sub = 77; tenant_id = none; roles = [] }) db ≡ contract ∷ []
unfolding find_all_contracts is_listed
stranger_list = refl

remove_contract-RemoveOutcome_example :
    RemoveOutcome 40 lender_jwt db (remove_contract env 40 lender_jwt db)
remove_contract-RemoveOutcome_example = remove_contract-RemoveOutcome env 40 lender_jwt db
