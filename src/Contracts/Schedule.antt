-- ===== src/Contracts/Schedule.antt =====
-- contracts.service.ts, the loop of `createPaymentSchedules`.
use coloanex_prod.Common.{
  Bool, List, [], false, if◌then◌else◌, none, suc, true, zero, ℕ, ◌*◌, ◌+◌, ◌-◌, ◌∷◌,
}
use coloanex_prod.Db.{
  PaymentFrequency, weekly, monthly, quarterly, PaymentSchedule, InstallmentStatus,
}
use coloanex_prod.Contracts.Rounding.{round_div}
use coloanex_prod.Contracts.Installments.{
  Terms, interest_per_installment, interest_den, calculate_installments, interest_num,
  principal_per_installment,
}
use coloanex_prod.Service.{Calendar}

unfoldable pub due_date_of : Calendar → PaymentFrequency → ℕ → ℕ → ℕ
due_date_of c weekly start i = c.add_days start (7 * i)
due_date_of c quarterly start i = c.add_months start (3 * i)
due_date_of c monthly start i = c.add_months start i

-- The three `…Allocated` sums.
pub record Allocated : Type 0 where
  pub principal : ℕ
  pub interest : ℕ
  pub total : ℕ

-- The amounts of one installment. `Math.max(0, …)` is subtraction that stops at 0; the last
-- interest is still a fraction, which is rounded.
unfoldable pub amounts : Terms → Bool → Allocated → Allocated
amounts t is_last a =
    if is_last
    then record {
      principal = t.loan_amount - a.principal;
      interest = round_div (interest_num t - interest_den * a.interest) interest_den;
      total = (calculate_installments t).total_amount_due - a.total;
    }
    else record {
      principal = principal_per_installment t;
      interest = interest_per_installment t;
      total = (calculate_installments t).installment_amount;
    }

unfoldable pub allocate : Allocated → Allocated → Allocated
allocate a m = record {
  principal = a.principal + m.principal;
  interest = a.interest + m.interest;
  total = a.total + m.total;
}

abbrev pub is_zero : ℕ → Bool
is_zero zero = true
is_zero (suc n) = false

module _ (calendar : Calendar) (uuid : ℕ → ℕ) (contract_id start : ℕ) (t : Terms) where
  unfoldable pub schedule_row : ℕ → Allocated → PaymentSchedule
  schedule_row i m = record {
    id = uuid i;
    contract_id = contract_id;
    installment_number = i;
    due_date = due_date_of calendar t.payment_frequency start i;
    principal_amount = m.principal;
    interest_amount = m.interest;
    total_amount = m.total;
    amount_paid = 0;
    status = InstallmentStatus.pending;
    paid_at = none;
  }

  -- The rounds that are left (`isLast` is that none follows), the first of them number `i`.
  unfoldable pub schedule_loop : ℕ → ℕ → Allocated → List PaymentSchedule
  schedule_loop zero i a = []
  schedule_loop (suc left) i a =
      let m = amounts t (is_zero left) a in
      schedule_row i m ∷ schedule_loop left (i + 1) (allocate a m)

  unfoldable pub create_payment_schedules : List PaymentSchedule
  unfolding schedule_loop
  create_payment_schedules =
      schedule_loop (calculate_installments t).total_installments 1
        (record { principal = 0; interest = 0; total = 0 })
