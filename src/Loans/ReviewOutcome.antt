-- ===== src/Loans/ReviewOutcome.antt =====
-- How `review` (loans.service.ts) ends.
use coloanex_prod.Common.{
  Bool-cases, List, [], ap, arith, false, get_or, inl, inr, refl, some, sym, true, ℕ, ◌++◌, ◌==◌,
  ◌∙◌, ◌∷◌, ◌≡◌, ◌⊎◌,
}
use coloanex_prod.Db.{
  Contract, Db, Result, ok, err, modify, continue_with, pure, bad_request, ◌>>◌, Subscription,
  loan_entity, Rule, Loan,
}
use coloanex_prod.Service.{write_loan, JwtPayload, Env, find_loan}
use coloanex_prod.Contracts.GenerateLaws.{
  GenerateOutcome, MayGenerate, generate_from_loan_approval-GenerateOutcome,
}
use coloanex_prod.Contracts.Drafting.{
  generate_from_loan_approval, check_generate, check_no_contract, approved_contract,
  find_contract_of_loan,
}
use coloanex_prod.Orchestrator.Frame.{OnlySubscriptions}
use coloanex_prod.Loans.Apply.{log_activity}
use coloanex_prod.Loans.Guards.{find_reviewed-same}
use coloanex_prod.Loans.ReviewLaws.{find_reviewed-MayReview, MayReview}
use coloanex_prod.Loans.Review.{
  is_approved, reviewed_loan, ReviewLoanDto, generate_if_approved, action_of_review, find_reviewed,
  review,
}
use coloanex_prod.Db.Membership.{find-update_where}

-- The contract that an approval of a loan makes.
abbrev pub contract_of_review : Env → ReviewLoanDto → Loan → Rule → Contract
contract_of_review env dto l r =
    approved_contract env l r (get_or dto.rule_id 0) (get_or dto.approved_amount 0)
      (get_or dto.approved_term_months 0)

-- What a review leaves in the tables of loans, contracts, subscriptions and logs.
abbrev pub reviewed_db :
    ReviewLoanDto → ℕ → JwtPayload → List Contract → List Subscription → Db → Db
reviewed_db dto id user contracts subscriptions d =
    log_activity user (action_of_review dto.status) loan_entity id
      (record (write_loan id (reviewed_loan dto) d) {
        contracts = contracts;
        subscriptions = subscriptions;
      })

-- The rows of contracts after a review.
abbrev pub ContractsReviewed : Env → ReviewLoanDto → ℕ → Db → List Contract → Type 0
ContractsReviewed env dto id d contracts =
    ((is_approved dto.status ≡ false) × (contracts ≡ d.contracts))
    ⊎ ((l : Loan) × (r : Rule) × (is_approved dto.status ≡ true)
        × MayGenerate id (get_or dto.rule_id 0) l r (write_loan id (reviewed_loan dto) d)
        × (contracts ≡ d.contracts ++ contract_of_review env dto l r ∷ []))

-- How the contract of a review ends: an exception has written to subscriptions alone.
abbrev Generated : Env → ReviewLoanDto → ℕ → Db → Result (Unit {0}) × Db → Type 0
Generated env dto id d (err e, x) = OnlySubscriptions (write_loan id (reviewed_loan dto) d) x
Generated env dto id d (ok u, x) =
    ContractsReviewed env dto id d x.contracts
    × (x ≡ record (write_loan id (reviewed_loan dto) d) {
      contracts = x.contracts;
      subscriptions = x.subscriptions;
    })

Generated-of_outcome :
    (env : Env) (dto : ReviewLoanDto) (id : ℕ) (d : Db) (r : Result Contract × Db)
    → is_approved dto.status ≡ true
    → GenerateOutcome env id
        (get_or dto.rule_id 0)
        (get_or dto.approved_amount 0)
        (get_or dto.approved_term_months 0)
        (write_loan id (reviewed_loan dto) d)
        r
    → Generated env dto id d (continue_with r (λ c. pure tt))
Generated-of_outcome env dto id d (err e, x) approves s = s
Generated-of_outcome env dto id d (ok c, x) approves (l, r, m, s) =
    let w : Db = write_loan id (reviewed_loan dto) d in
    let added : x.contracts ≡ d.contracts ++ contract_of_review env dto l r ∷ [] =
      ap (λ (z : Db). z.contracts) s.2 in
    (
      inr (l, r, approves, m, added),
      s.2 ∙ ap (λ cs. record w { contracts = cs; subscriptions = x.subscriptions }) (sym added),
    )

generate_if_approved-Generated :
    (env : Env) (id : ℕ) (dto : ReviewLoanDto) (user : JwtPayload) (d : Db)
    → Generated env dto id d
        (generate_if_approved env id dto user (write_loan id (reviewed_loan dto) d))
unfolding generate_if_approved
generate_if_approved-Generated env id dto user d = elim (Bool-cases (is_approved dto.status)) [
  | inr other ↦ rw other (inl (other, refl), refl)
  | inl approves ↦ rw approves (
      Generated-of_outcome env dto id d _ approves (
        generate_from_loan_approval-GenerateOutcome env id (get_or dto.rule_id 0)
          (get_or dto.approved_amount 0) (get_or dto.approved_term_months 0) user
          (write_loan id (reviewed_loan dto) d)))
]

-- How `review` ends: an exception has written nothing, or, past the guards, the loan and usage
-- windows; a return has passed every guard and has written the loan, its contract and the log.
abbrev pub ReviewOutcome : Env → ℕ → ReviewLoanDto → JwtPayload → Db → Result Loan × Db → Type 0
ReviewOutcome env id dto user d (err e, d') =
    (d' ≡ d) ⊎ OnlySubscriptions (write_loan id (reviewed_loan dto) d) d'
ReviewOutcome env id dto user d (ok l', d') =
    (l : Loan) × MayReview id dto l d
    × (l' ≡ reviewed_loan dto l)
    × ContractsReviewed env dto id d d'.contracts
    × (d' ≡ reviewed_db dto id user d'.contracts d'.subscriptions d)

review_end :
    (env : Env) (id : ℕ) (dto : ReviewLoanDto) (user : JwtPayload) (d : Db) (l : Loan)
    (r : Result (Unit {0}) × Db)
    → MayReview id dto l d
    → Generated env dto id d r
    → ReviewOutcome env id dto user d (
        continue_with r (λ u.
          modify (log_activity user (action_of_review dto.status) loan_entity id)
          >> pure (reviewed_loan dto l)))
unfolding log_activity
review_end env id dto user d l (err e, x) m g = inr g
review_end env id dto user d l (ok u, x) m (contracts, frame) = (
  l,
  m,
  refl,
  contracts,
  ap (log_activity user (action_of_review dto.status) loan_entity id) frame,
)

review_from :
    (env : Env) (id : ℕ) (dto : ReviewLoanDto) (user : JwtPayload) (d : Db) (r : Result Loan × Db)
    → find_reviewed id dto d ≡ r
    → ReviewOutcome env id dto user d (
        continue_with r (λ l.
          modify (write_loan id (reviewed_loan dto))
          >> (generate_if_approved env id dto user
              >> (modify (log_activity user (action_of_review dto.status) loan_entity id)
                  >> pure (reviewed_loan dto l)))))
review_from env id dto user d (err e, x) h =
    inl (sym (ap (λ z. z.1) h) ∙ find_reviewed-same id dto d)
review_from env id dto user d (ok l, x) h =
    rw (sym (ap (λ z. z.1) h) ∙ find_reviewed-same id dto d) (
      review_end env id dto user d l
        (generate_if_approved env id dto user (write_loan id (reviewed_loan dto) d))
        (find_reviewed-MayReview id dto l d x h) (generate_if_approved-Generated env id dto user d))

-- For requests whose amount and term, where given, are natural numbers (the request's type also lets
-- negative ones through): a return from `review` has found the loan; a rejection has a reason, and an
-- approval has an amount and a term that are not 0 and a rule that exists. Then the loan has the
-- decision. An approval has added exactly one contract, the draft of the approved amount and term by
-- the rule, to a loan that had none, and any other decision has added no contract; besides them only
-- the log and usage windows have changed. An exception has written nothing, or, past the guards, the
-- loan's decision and usage windows.
pub review-ReviewOutcome :
    (env : Env) (id : ℕ) (dto : ReviewLoanDto) (user : JwtPayload) (d : Db)
    → ReviewOutcome env id dto user d (review env id dto user d)
unfolding review
review-ReviewOutcome env id dto user d = review_from env id dto user d (find_reviewed id dto d) refl

-- An approval of a loan that already has a contract, given that the review passes its guards, throws
-- and leaves the loan with the new decision all the same.
pub review-contracted :
    (env : Env) (id : ℕ) (dto : ReviewLoanDto) (user : JwtPayload) (l : Loan) (c : Contract)
    (d : Db)
    → find_reviewed id dto d ≡ (ok l, d)
    → is_approved dto.status ≡ true
    → find_contract_of_loan id d ≡ some c
    → review env id dto user d ≡ (
      err (bad_request "Contract already exists for this loan"),
      write_loan id (reviewed_loan dto) d,
    )
unfolding review generate_if_approved generate_from_loan_approval check_generate check_no_contract
    find_loan find_contract_of_loan
review-contracted env id dto user l c d passes approves contracted =
    let found : find_loan id d ≡ some l =
      (find_reviewed-MayReview id dto l d d passes).loan_found in
    let still : _ ≡ _ =
      find-update_where (λ x. x.id == id) (λ x. x.id == id) (reviewed_loan dto) d.loans l
        (λ x. ground arith) (unfold find_loan in found) in
    rw (passes, approves, still, contracted) refl
