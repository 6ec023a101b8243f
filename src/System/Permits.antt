-- ===== src/System/Permits.antt =====
-- What the requests on loans, contracts, payments and transactions may do to the ledger of contracts:
-- a specification in terms of the requests alone.
use coloanex_prod.Common.{List, [], get_or, some, true, ◌∷◌, ◌≡◌}
use coloanex_prod.Contracts.LedgerLaws.{LedgerStep-IsSound}
use coloanex_prod.Contracts.Ledger.{Change, Entry, LedgerStep, IsSound}
use coloanex_prod.Payments.Apply.{is_repayment}
use coloanex_prod.Payments.Posting.{is_confirmed}
use coloanex_prod.System.Requests.{Call, Request}
use coloanex_prod.Loans.Review.{is_approved}

-- The one change that a request may make, and with which amounts: an approval opens an entry for its
-- loan with the approved amount and term, `create` of a contract one with the term and the frequency
-- of the request; `remove` closes the entry of its contract or its loan; a repayment that the gateway
-- confirms repays its contract by its amount. No other request changes the ledger.
abbrev pub Permits : Request → Change → Type 0
Permits (Request.review_request id dto) (Change.opening e) =
    (is_approved dto.status ≡ true)
    × (e.loan_id ≡ id)
    × (e.terms.loan_amount ≡ get_or dto.approved_amount 0)
    × (e.terms.term_months ≡ get_or dto.approved_term_months 0)
Permits (Request.create_contract_request dto) (Change.opening e) =
    (e.loan_id ≡ dto.loan_id)
    × (e.terms.term_months ≡ dto.term_months)
    × (e.terms.payment_frequency ≡ dto.payment_frequency)
Permits (Request.remove_loan_request id) (Change.closing_of_loan loan_id) = loan_id ≡ id
Permits (Request.remove_contract_request id) (Change.closing closed_id) = closed_id ≡ id
Permits (Request.verify_payment_request g dto) (Change.repayment id amount) =
    (dto.contract_id ≡ some id)
    × (amount ≡ dto.total_amount)
    × (is_repayment dto.type ≡ true)
    × (is_confirmed (g.verify dto.transaction_uuid dto.total_amount) ≡ true)
Permits r c = ⊥

-- The changes of a sequence of requests: at most one for each, in their order.
pub data LedgerSteps : List Call → List Entry → List Entry → Type 0 where
  no_calls : {l : List Entry} → LedgerSteps [] l l
  next_call :
      {l m n : List Entry} {c : Call} {calls : List Call}
      → LedgerStep (Permits c.request) l m
      → LedgerSteps calls m n
      → LedgerSteps (c ∷ calls) l n

-- Whatever the requests do to a sound ledger leaves it sound.
pub LedgerSteps-IsSound :
    {calls : List Call} {l m : List Entry} → LedgerSteps calls l m → IsSound l → IsSound m
LedgerSteps-IsSound LedgerSteps.no_calls h = h
LedgerSteps-IsSound (LedgerSteps.next_call s k) h = LedgerSteps-IsSound k (LedgerStep-IsSound s h)
