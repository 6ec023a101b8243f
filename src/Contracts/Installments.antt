-- ===== src/Contracts/Installments.antt =====
-- contracts.service.ts, `calculateInstallments` and the amounts of `createPaymentSchedules`.
-- Amounts are whole hundredths, the rate is in hundredths of a percent (the columns' precision), and
-- the program's floating-point fractions are taken exactly; a term is at least a month. At a tie, a
-- fraction of exactly half a hundredth, the program may round down where this rounds up: 2.405 gives
-- 2.40 in floating point.
use coloanex_prod.Common.{ℕ, ◌*◌, ◌+◌}
use coloanex_prod.Db.{PaymentFrequency, weekly, monthly, quarterly}
use coloanex_prod.Contracts.Rounding.{round_div, ceil_div}

-- What a loan is paid back by.
pub record Terms : Type 0 where
  pub loan_amount : ℕ
  pub interest_rate : ℕ
  pub term_months : ℕ
  pub payment_frequency : PaymentFrequency

-- The interest is a fraction of hundredths: (loanAmount * interestRate * termMonths) / (12 * 100),
-- and another factor of 100 as the rate is in hundredths of a percent.
abbrev pub interest_den : ℕ
interest_den = 12 * 100 * 100

unfoldable pub interest_num : Terms → ℕ
interest_num t = t.loan_amount * t.interest_rate * t.term_months

unfoldable pub installment_count : PaymentFrequency → ℕ → ℕ
installment_count weekly term = ceil_div (term * 30) 7
installment_count monthly term = term
installment_count quarterly term = ceil_div term 3

unfoldable pub total_installments_of : Terms → ℕ
total_installments_of t = installment_count t.payment_frequency t.term_months

-- `loanAmount + totalInterest`, over `interest_den`.
unfoldable pub due_num : Terms → ℕ
due_num t = interest_den * t.loan_amount + interest_num t

pub record Installments : Type 0 where
  pub installment_amount : ℕ
  pub total_installments : ℕ
  pub total_amount_due : ℕ

unfoldable pub calculate_installments : Terms → Installments
calculate_installments t = record {
  installment_amount = round_div (due_num t) (interest_den * total_installments_of t);
  total_installments = total_installments_of t;
  total_amount_due = round_div (due_num t) interest_den;
}

-- `principalPerInstallment` and `interestPerInstallment`.
unfoldable pub principal_per_installment : Terms → ℕ
principal_per_installment t = round_div t.loan_amount (total_installments_of t)

unfoldable pub interest_per_installment : Terms → ℕ
interest_per_installment t = round_div (interest_num t) (interest_den * total_installments_of t)
