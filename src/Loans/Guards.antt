-- ===== src/Loans/Guards.antt =====
-- The guards of loans.service.ts write nothing.
use coloanex_prod.Common.{arith, refl, ℕ, ◌≡◌}
use coloanex_prod.Db.{Db, not_found, find_or_throw, Loan, Borrower}
use coloanex_prod.Service.{JwtPayload, find_borrower_by_id}
use coloanex_prod.Loans.Apply.{
  target_from, loan_target, CreateLoanDto, check_create_loan, find_one_loan,
}
use coloanex_prod.Loans.Change.{
  target_borrower, UpdateLoanDto, UpdateTarget, check_update_loan, update_target,
}
use coloanex_prod.Loans.Review.{
  check_review, ReviewLoanDto, check_payer, connect_rule, find_reviewed,
}
use coloanex_prod.Service.Reading.{IsReading, bind-IsReading, find_or_throw-IsReading}

pub check_create_loan-same :
    (dto : CreateLoanDto) (user : JwtPayload) (d : Db) → (check_create_loan dto user d).1 ≡ d
unfolding check_create_loan loan_target target_from
check_create_loan-same dto user d = ground arith

pub find_one_loan-same : (id : ℕ) (user : JwtPayload) (d : Db) → (find_one_loan id user d).1 ≡ d
unfolding find_one_loan
find_one_loan-same id user d = ground arith

pub update_target-same :
    (dto : UpdateLoanDto) (user : JwtPayload) (l : Loan) (own : Borrower) (d : Db)
    → (update_target dto user l own d).1 ≡ d
unfolding update_target
update_target-same dto user l own d = ground arith

pub target_borrower-same :
    (target : UpdateTarget) (own : Borrower) (d : Db) → (target_borrower target own d).1 ≡ d
unfolding target_borrower
target_borrower-same target own d = ground arith

pub check_update_loan-same :
    (id : ℕ) (dto : UpdateLoanDto) (user : JwtPayload) → IsReading (check_update_loan id dto user)
unfolding check_update_loan
check_update_loan-same id dto user =
    bind-IsReading (find_one_loan id user) _ (find_one_loan-same id user) λ l.
      bind-IsReading
        (find_or_throw (find_borrower_by_id l.borrower_id)
          (not_found "Borrower not found for this loan"))
        _ (find_or_throw-IsReading (find_borrower_by_id l.borrower_id) _)
        λ own.
          bind-IsReading (update_target dto user l own) _ (update_target-same dto user l own)
            λ target.
              bind-IsReading (target_borrower target own) _ (target_borrower-same target own)
                λ b d. refl

pub find_reviewed-same : (id : ℕ) (dto : ReviewLoanDto) (d : Db) → (find_reviewed id dto d).1 ≡ d
unfolding find_reviewed check_review connect_rule
find_reviewed-same id dto d = ground arith

pub check_payer-same : (id : ℕ) (user : JwtPayload) (d : Db) → (check_payer id user d).1 ≡ d
unfolding check_payer find_one_loan
check_payer-same id user d = ground arith
