-- ===== src/Loans/ReviewLaws.antt =====
-- What `findOne` and the guards of `review` (loans.service.ts) require.
use coloanex_prod.Common.{arith, false, is_some, some, true, ℕ, ◌≡◌, ◌⊎◌}
use coloanex_prod.Db.{Db, ok, Loan}
use coloanex_prod.Service.{JwtPayload, is_borrower, find_loan, is_super_admin}
use coloanex_prod.Loans.Apply.{find_one_loan, is_loan_of_user, is_hidden_loan}
use coloanex_prod.Loans.Review.{
  check_review, is_rejected, is_given, ReviewLoanDto, connect_rule, rule_exists, is_approved,
  find_reviewed,
}

-- A loan that the caller may see: a borrower's own, any for the Super Admin, or one of the caller's
-- tenant.
abbrev pub MaySee : JwtPayload → Loan → Db → Type 0
MaySee user l d =
    ((is_borrower user ≡ true) × (is_loan_of_user user.sub l d ≡ true))
    ⊎ ((is_borrower user ≡ false)
        × ((is_super_admin user ≡ true) ⊎ (user.tenant_id ≡ some l.tenant_id)))

-- `findOne` returns a loan of the given identifier, and only one that the caller may see: a
-- borrower's own loan, any loan for the Super Admin, and for anyone else a loan of their tenant. It
-- writes nothing.
pub find_one_loan-MaySee :
    (id : ℕ) (user : JwtPayload) (l : Loan) (d d' : Db)
    → find_one_loan id user d ≡ (ok l, d')
    → (find_loan id d ≡ some l) × MaySee user l d × (d' ≡ d)
unfolding find_one_loan is_hidden_loan
find_one_loan-MaySee id user l d d' h = (ground arith, ground arith, ground arith)

-- What the guards of `review` show.
pub record MayReview (id : ℕ) (dto : ReviewLoanDto) (l : Loan) (d : Db) : Type 0 where
  pub loan_found : find_loan id d ≡ some l
  pub reason_given : (is_rejected dto.status ≡ false) ⊎ (is_some dto.rejection_reason ≡ true)
  pub amount_given : (is_approved dto.status ≡ false) ⊎ (is_given dto.approved_amount ≡ true)
  pub term_given : (is_approved dto.status ≡ false) ⊎ (is_given dto.approved_term_months ≡ true)
  pub rule_given : (is_approved dto.status ≡ false) ⊎ (is_some dto.rule_id ≡ true)
  pub rule_found : (is_approved dto.status ≡ false) ⊎ (rule_exists dto.rule_id d ≡ true)

pub find_reviewed-MayReview :
    (id : ℕ) (dto : ReviewLoanDto) (l : Loan) (d d' : Db)
    → find_reviewed id dto d ≡ (ok l, d')
    → MayReview id dto l d
unfolding find_reviewed check_review connect_rule
find_reviewed-MayReview id dto l d d' h = record {
  loan_found = ground arith;
  reason_given = ground arith;
  amount_given = ground arith;
  term_given = ground arith;
  rule_given = ground arith;
  rule_found = ground arith;
}
