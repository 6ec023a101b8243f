-- ===== src/System/Reachable.antt =====
-- What holds of the ledger of contracts after any requests.
use coloanex_prod.Common.{List, [], refl, ◌∷◌}
use coloanex_prod.Db.{Db}
use coloanex_prod.Service.{JwtPayload, Env}
use coloanex_prod.Contracts.Drafts.{create_contract-Posts}
use coloanex_prod.Contracts.Signatures.{
  disburse-Posts, sign_and_disburse-Posts, sign_contract-Posts,
}
use coloanex_prod.Contracts.Edits.{
  update_contract-KeepsLedger, report_contract-KeepsLedger, generate_contract_pdf-KeepsLedger,
  remove_contract-Posts,
}
use coloanex_prod.Contracts.Editing.{report_contract, generate_contract_pdf, update_contract}
use coloanex_prod.Contracts.Posting.{KeepsLedger-Posts}
use coloanex_prod.Payments.Posting.{verify_payment-Posts}
use coloanex_prod.System.Requests.{Request, serve_all, Call, serve}
use coloanex_prod.Loans.Apply.{create_loan}
use coloanex_prod.Loans.Change.{update_loan}
use coloanex_prod.Loans.Review.{make_payment}
use coloanex_prod.Loans.Posting.{
  review-Posts, remove_loan-Posts, update_loan-KeepsLedger, make_payment-KeepsLedger,
  create_loan-KeepsLedger,
}
use coloanex_prod.Payments.Webhook.{process_webhook}
use coloanex_prod.Transactions.Record.{update_status, record_transaction}
use coloanex_prod.Transactions.Posting.{
  process_webhook-KeepsLedger, update_status-KeepsLedger, record_transaction-KeepsLedger,
}
use coloanex_prod.Contracts.Ledger.{LedgerStep, IsSound, ledger}
use coloanex_prod.Contracts.LedgerLaws.{LedgerStep-IsSound}
use coloanex_prod.Contracts.Drafting.{draft_contract}
use coloanex_prod.System.Permits.{LedgerSteps-IsSound, LedgerSteps, Permits}

serve-LedgerStep :
    (env : Env) (user : JwtPayload) (r : Request) (d : Db)
    → IsSound (ledger d)
    → LedgerStep (Permits r) (ledger d) (ledger (serve env user r d))
unfolding serve draft_contract
serve-LedgerStep env user (Request.create_loan_request dto) d h =
    KeepsLedger-Posts (Permits (Request.create_loan_request dto)) (create_loan env dto user)
      (create_loan-KeepsLedger env dto user) d h
serve-LedgerStep env user (Request.update_loan_request id dto) d h =
    KeepsLedger-Posts (Permits (Request.update_loan_request id dto)) (update_loan env id dto user)
      (update_loan-KeepsLedger env id dto user) d h
serve-LedgerStep env user (Request.review_request id dto) d h =
    review-Posts (Permits (Request.review_request id dto)) env id dto user
      (λ e l r same. (e, same, refl, refl)) d h
serve-LedgerStep env user (Request.remove_loan_request id) d h =
    remove_loan-Posts (Permits (Request.remove_loan_request id)) env id user refl d h
serve-LedgerStep env user (Request.make_payment_request id amount) d h =
    KeepsLedger-Posts (Permits (Request.make_payment_request id amount))
      (make_payment env id amount user) (make_payment-KeepsLedger env id amount user) d h
serve-LedgerStep env user (Request.create_contract_request dto) d h =
    create_contract-Posts (Permits (Request.create_contract_request dto)) env dto user
      (λ x same. (same, refl, refl)) d h
serve-LedgerStep env user (Request.update_contract_request id dto) d h =
    KeepsLedger-Posts (Permits (Request.update_contract_request id dto))
      (update_contract env id dto user) (update_contract-KeepsLedger env id dto user) d h
serve-LedgerStep env user (Request.pdf_request upload id) d h =
    KeepsLedger-Posts (Permits (Request.pdf_request upload id))
      (generate_contract_pdf env upload id user)
      (generate_contract_pdf-KeepsLedger env upload id user) d h
serve-LedgerStep env user (Request.sign_request id dto) d h =
    sign_contract-Posts (Permits (Request.sign_request id dto)) env id dto user d h
serve-LedgerStep env user (Request.sign_and_disburse_request id dto signature hash) d h =
    sign_and_disburse-Posts (Permits (Request.sign_and_disburse_request id dto signature hash)) env
      id dto signature hash user d h
serve-LedgerStep env user (Request.disburse_request id dto) d h =
    disburse-Posts (Permits (Request.disburse_request id dto)) env id dto user d h
serve-LedgerStep env user (Request.report_request id reason) d h =
    KeepsLedger-Posts (Permits (Request.report_request id reason)) (report_contract id reason user)
      (report_contract-KeepsLedger id reason user) d h
serve-LedgerStep env user (Request.remove_contract_request id) d h =
    remove_contract-Posts (Permits (Request.remove_contract_request id)) env id user refl d h
serve-LedgerStep env user (Request.verify_payment_request g dto) d h =
    verify_payment-Posts (Permits (Request.verify_payment_request g dto)) g env dto user d
      (λ sure id e repays. (e, refl, repays, sure)) h
serve-LedgerStep env user (Request.webhook_request payload) d h =
    KeepsLedger-Posts (Permits (Request.webhook_request payload)) (process_webhook env payload)
      (process_webhook-KeepsLedger env payload) d h
serve-LedgerStep env user (Request.record_transaction_request dto) d h =
    KeepsLedger-Posts (Permits (Request.record_transaction_request dto))
      (record_transaction env dto user) (record_transaction-KeepsLedger env dto user) d h
serve-LedgerStep env user (Request.update_status_request id status) d h =
    KeepsLedger-Posts (Permits (Request.update_status_request id status))
      (update_status env id status user) (update_status-KeepsLedger env id status user) d h

-- Where the ledger of contracts is sound, every sequence of requests on loans, contracts, payments
-- and transactions, exceptions included, changes it at most once for each request, and only as the
-- request permits. An approval opens one entry, for its loan and with the approved amount and term;
-- `create` of a contract opens one, for the loan and with the term and the frequency of the request;
-- an entry that is opened has the installments of its terms and nothing paid, and its loan had none.
-- `remove` closes the entry of its contract or its loan alone. A repayment that the gateway has
-- confirmed moves its amount, in the entry of its contract alone, from what is outstanding to what is
-- paid. Every other request leaves the ledger as it was.
pub serve_all-LedgerSteps :
    (calls : List Call) (d : Db)
    → IsSound (ledger d)
    → LedgerSteps calls (ledger d) (ledger (serve_all calls d))
unfolding serve_all
serve_all-LedgerSteps [] d h = LedgerSteps.no_calls
serve_all-LedgerSteps (c ∷ calls) d h =
    let s : LedgerStep (Permits c.request) (ledger d) (ledger (serve c.env c.user c.request d)) =
      serve-LedgerStep c.env c.user c.request d h in
    LedgerSteps.next_call s
      (serve_all-LedgerSteps calls (serve c.env c.user c.request d) (LedgerStep-IsSound s h))

-- After every sequence of requests on loans, contracts, payments and transactions from a database
-- with a sound ledger (one with no contract, for one), no two contracts share an identifier or a
-- loan, every contract has the installments and the total that its terms give, and what is paid of it
-- and what is outstanding add up to what is due.
pub serve_all-IsSound :
    (calls : List Call) (d : Db) → IsSound (ledger d) → IsSound (ledger (serve_all calls d))
serve_all-IsSound calls d h = LedgerSteps-IsSound (serve_all-LedgerSteps calls d h) h
