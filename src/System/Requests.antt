-- ===== src/System/Requests.antt =====
-- The requests that loans.service.ts, contracts.service.ts, payments.service.ts and
-- transactions.service.ts serve, and what a
-- sequence of them does to the database, exceptions included.
use coloanex_prod.Common.{List, Option, [], ℕ, ◌∷◌}
use coloanex_prod.Db.{Db, TransactionStatus}
use coloanex_prod.Service.{JwtPayload, Env}
use coloanex_prod.Contracts.Signing.{sign_contract, SignContractDto}
use coloanex_prod.Contracts.Disbursing.{DisburseDto, disburse, sign_and_disburse}
use coloanex_prod.Contracts.Drafting.{CreateContractDto, create_contract}
use coloanex_prod.Contracts.Editing.{
  report_contract, UpdateContractDto, generate_contract_pdf, update_contract, remove_contract,
}
use coloanex_prod.Payments.Verify.{Gateways, VerifyDto, verify_payment}
use coloanex_prod.Loans.Apply.{CreateLoanDto, create_loan}
use coloanex_prod.Loans.Change.{update_loan, UpdateLoanDto, remove_loan}
use coloanex_prod.Loans.Review.{ReviewLoanDto, make_payment, review}
use coloanex_prod.Payments.Webhook.{WebhookPayload, process_webhook}
use coloanex_prod.Transactions.Record.{CreateTransactionDto, update_status, record_transaction}

pub data Request : Type 0 where
  create_loan_request : CreateLoanDto → Request
  update_loan_request : ℕ → UpdateLoanDto → Request
  review_request : ℕ → ReviewLoanDto → Request
  remove_loan_request : ℕ → Request
  make_payment_request : ℕ → ℕ → Request
  create_contract_request : CreateContractDto → Request
  update_contract_request : ℕ → UpdateContractDto → Request
  pdf_request : Option ℕ → ℕ → Request
  sign_request : ℕ → SignContractDto → Request
  sign_and_disburse_request : ℕ → DisburseDto → ℕ → Option ℕ → Request
  disburse_request : ℕ → DisburseDto → Request
  report_request : ℕ → ℕ → Request
  remove_contract_request : ℕ → Request
  verify_payment_request : Gateways → VerifyDto → Request
  webhook_request : WebhookPayload → Request
  record_transaction_request : CreateTransactionDto → Request
  update_status_request : ℕ → TransactionStatus → Request

-- A request with its caller and its instant.
pub record Call : Type 0 where
  pub env : Env
  pub user : JwtPayload
  pub request : Request

-- The database after a request.
unfoldable pub serve : Env → JwtPayload → Request → Db → Db
serve env user (Request.create_loan_request dto) d = (create_loan env dto user d).1
serve env user (Request.update_loan_request id dto) d = (update_loan env id dto user d).1
serve env user (Request.review_request id dto) d = (review env id dto user d).1
serve env user (Request.remove_loan_request id) d = (remove_loan env id user d).1
serve env user (Request.make_payment_request id amount) d = (make_payment env id amount user d).1
serve env user (Request.create_contract_request dto) d = (create_contract env dto user d).1
serve env user (Request.update_contract_request id dto) d = (update_contract env id dto user d).1
serve env user (Request.pdf_request upload id) d = (generate_contract_pdf env upload id user d).1
serve env user (Request.sign_request id dto) d = (sign_contract env id dto user d).1
serve env user (Request.sign_and_disburse_request id dto signature hash) d =
    (sign_and_disburse env id dto signature hash user d).1
serve env user (Request.disburse_request id dto) d = (disburse env id dto user d).1
serve env user (Request.report_request id reason) d = (report_contract id reason user d).1
serve env user (Request.remove_contract_request id) d = (remove_contract env id user d).1
serve env user (Request.verify_payment_request g dto) d = (verify_payment g env dto user d).1
serve env user (Request.webhook_request payload) d = (process_webhook env payload d).1
serve env user (Request.record_transaction_request dto) d = (record_transaction env dto user d).1
serve env user (Request.update_status_request id status) d = (update_status env id status user d).1

unfoldable pub serve_all : List Call → Db → Db
serve_all [] d = d
serve_all (c ∷ calls) d = serve_all calls (serve c.env c.user c.request d)
