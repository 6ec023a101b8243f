-- ===== src/Contracts/Totals.antt =====
-- The sums over a contract's payment schedule against the amounts of the contract.
use coloanex_prod.Common.{List, [], arith, false, suc, zero, ℕ, ◌*◌, ◌+◌, ◌-◌, ◌∙◌, ◌∷◌, ◌≡◌}
use coloanex_prod.Db.{PaymentSchedule}
use native.Mathlib.Nat.{zero-add}
use coloanex_prod.Contracts.Schedule.{
  amounts, allocate, schedule_row, schedule_loop, Allocated, create_payment_schedules,
}
use coloanex_prod.Contracts.Rounding.{round_div}
use coloanex_prod.Contracts.Installments.{
  interest_den, interest_num, interest_per_installment, Terms, calculate_installments,
  principal_per_installment, total_installments_of,
}
use coloanex_prod.Service.{Calendar}

abbrev pub sum_by : (PaymentSchedule → ℕ) → List PaymentSchedule → ℕ
sum_by f [] = 0
sum_by f (x ∷ xs) = f x + sum_by f xs

module _ (calendar : Calendar) (uuid : ℕ → ℕ) (contract_id start : ℕ) (t : Terms) where
  -- What `k` even installments and a last one add up to.
  loop_total :
      (k i : ℕ) (a : Allocated)
      → let m = (calculate_installments t).installment_amount in
        sum_by (λ s. s.total_amount) (schedule_loop calendar uuid contract_id start t (suc k) i a)
        ≡ k * m + ((calculate_installments t).total_amount_due - (a.total + k * m))
  unfolding schedule_loop schedule_row amounts allocate
  loop_total zero i a = ground arith
  loop_total (suc k) i a = omega (arith, loop_total k (i + 1) (allocate a (amounts t false a)))

  loop_principal :
      (k i : ℕ) (a : Allocated)
      → let m = principal_per_installment t in
        sum_by
          (λ s. s.principal_amount)
          (schedule_loop calendar uuid contract_id start t (suc k) i a)
        ≡ k * m + (t.loan_amount - (a.principal + k * m))
  unfolding schedule_loop schedule_row amounts allocate
  loop_principal zero i a = ground arith
  loop_principal (suc k) i a =
      omega (arith, loop_principal k (i + 1) (allocate a (amounts t false a)))

  loop_interest :
      (k i : ℕ) (a : Allocated)
      → let m = interest_per_installment t in
        sum_by
          (λ s. s.interest_amount)
          (schedule_loop calendar uuid contract_id start t (suc k) i a)
        ≡ k * m + round_div (interest_num t - interest_den * (a.interest + k * m)) interest_den
  unfolding schedule_loop schedule_row amounts allocate interest_per_installment round_div
  loop_interest zero i a = ground arith
  loop_interest (suc k) i a =
      omega (arith, loop_interest k (i + 1) (allocate a (amounts t false a)))

  abbrev nothing : Allocated
  nothing = record { principal = 0; interest = 0; total = 0 }

  schedule-loop :
      (k : ℕ)
      → total_installments_of t ≡ suc k
      → create_payment_schedules calendar uuid contract_id start t
        ≡ schedule_loop calendar uuid contract_id start t (suc k) 1 nothing
  unfolding create_payment_schedules calculate_installments
  schedule-loop k e = rw e

  -- The sums over the whole schedule, when there is an installment.
  pub schedule_total :
      (k : ℕ)
      → total_installments_of t ≡ suc k
      → let m = (calculate_installments t).installment_amount in
        sum_by (λ s. s.total_amount) (create_payment_schedules calendar uuid contract_id start t)
        ≡ k * m + ((calculate_installments t).total_amount_due - k * m)
  schedule_total k e = rw (schedule-loop k e) (loop_total k 1 nothing ∙ omega arith)

  pub schedule_principal :
      (k : ℕ)
      → total_installments_of t ≡ suc k
      → let m = principal_per_installment t in
        sum_by
          (λ s. s.principal_amount)
          (create_payment_schedules calendar uuid contract_id start t)
        ≡ k * m + (t.loan_amount - k * m)
  schedule_principal k e = rw (schedule-loop k e) (loop_principal k 1 nothing ∙ omega arith)

  pub schedule_interest :
      (k : ℕ)
      → total_installments_of t ≡ suc k
      → let m = interest_per_installment t in
        sum_by (λ s. s.interest_amount) (create_payment_schedules calendar uuid contract_id start t)
        ≡ k * m + round_div (interest_num t - interest_den * (k * m)) interest_den
  schedule_interest k e = rw (schedule-loop k e) (loop_interest k 1 nothing ∙ rw zero-add)
