-- ===== src/Contracts/Exactness.antt =====
-- How far the installments of a contract add up to what is owed, cent for cent.
use coloanex_prod.Common.{arith, inl, inr, refl, suc, zero, ℕ, ◌*◌, ◌+◌, ◌-◌, ◌<◌, ◌≡◌, ◌≤◌, ◌⊎◌}
use coloanex_prod.Contracts.Rounding.{
  round_div_bounds, round_div, round_div-add, round_div-scale, round_div_parts, round_div-sub,
}
use coloanex_prod.Contracts.Installments.{
  interest_den, Terms, total_installments_of, calculate_installments, interest_per_installment,
  due_num, principal_per_installment, interest_num,
}
use coloanex_prod.Contracts.Totals.{schedule_interest, schedule_total, schedule_principal, sum_by}
use coloanex_prod.Contracts.Schedule.{create_payment_schedules}
use coloanex_prod.Service.{Calendar}

-- What is due is the loan and the interest, rounded once.
total_amount_due_lem :
    (t : Terms)
    → (calculate_installments t).total_amount_due
      ≡ t.loan_amount + round_div (interest_num t) interest_den
unfolding calculate_installments due_num
total_amount_due_lem t = round_div-add (interest_num t) interest_den t.loan_amount (omega arith)

installment_bound :
    (t : Terms) (k : ℕ)
    → total_installments_of t ≡ suc k
    → let m = (calculate_installments t).installment_amount in
      2 * (suc k * m) ≤ 2 * (calculate_installments t).total_amount_due + suc k
unfolding calculate_installments
installment_bound t k e =
    let (due_below, due_above) = round_div_bounds (due_num t) interest_den (omega arith) in
    let (below, above) = round_div_bounds (due_num t) (interest_den * suc k) (omega arith) in
    rw e (omega arith)

principal_bound :
    (t : Terms) (k : ℕ)
    → total_installments_of t ≡ suc k
    → 2 * (suc k * principal_per_installment t) ≤ 2 * t.loan_amount + suc k
unfolding principal_per_installment
principal_bound t k e =
    let (below, above) = round_div_bounds t.loan_amount (suc k) (omega arith) in rw e (omega arith)

interest_bound :
    (t : Terms) (k : ℕ)
    → total_installments_of t ≡ suc k
    → 2 * (interest_den * (suc k * interest_per_installment t))
      ≤ 2 * interest_num t + interest_den * suc k
unfolding interest_per_installment
interest_bound t k e =
    let (below, above) = round_div_bounds (interest_num t) (interest_den * suc k) (omega arith) in
    rw e (omega arith)

-- With at least one installment, an even installment is its principal and its interest, up to one
-- hundredth.
pub installment_parts :
    (t : Terms)
    → 0 < total_installments_of t
    → ((calculate_installments t).installment_amount
        ≤ principal_per_installment t + interest_per_installment t + 1)
      × (principal_per_installment t + interest_per_installment t
          ≤ (calculate_installments t).installment_amount + 1)
unfolding calculate_installments due_num principal_per_installment interest_per_installment
installment_parts t h =
    let n = total_installments_of t in
    let scaled = round_div-scale interest_den t.loan_amount n (omega arith) h in
    let (upper, lower) =
      round_div_parts (interest_den * t.loan_amount) (interest_num t) (interest_den * n)
        (omega arith) in
    rw (← scaled) (upper, lower)

half_hundredth :
    (k m due : ℕ)
    → 2 * (suc k * m) ≤ 2 * due + suc k
    → 2 * (k * m + (due - k * m)) ≤ 2 * due + suc k
half_hundredth k zero due h = omega arith
half_hundredth k (suc m) due h = omega arith

-- The even interest shares do not pass the interest.
shares_fit :
    (k m num : ℕ)
    → 2 * (interest_den * (suc k * m)) ≤ 2 * num + interest_den * suc k
    → (suc k ≤ 2 * m) ⊎ (m ≡ 0)
    → interest_den * (k * m) ≤ num
shares_fit k m num h (inl wide) = omega arith
shares_fit k m num h (inr none_left) = rw none_left (omega arith)

interest_sum :
    (t : Terms) (k : ℕ)
    → total_installments_of t ≡ suc k
    → (suc k ≤ 2 * interest_per_installment t) ⊎ (interest_per_installment t ≡ 0)
    → let m = interest_per_installment t in
      k * m + round_div (interest_num t - interest_den * (k * m)) interest_den
      ≡ round_div (interest_num t) interest_den
interest_sum t k e wide = omega (
  arith,
  round_div-sub (interest_num t) interest_den (k * interest_per_installment t) (omega arith)
      (shares_fit k (interest_per_installment t) (interest_num t) (interest_bound t k e) wide),
)

module _ (calendar : Calendar) (uuid : ℕ → ℕ) (contract_id start : ℕ) (t : Terms) where
  -- The number of installments, less one.
  predecessor : (n : ℕ) → 0 < n → (k : ℕ) × (n ≡ suc k)
  predecessor zero h = elim h [ ]
  predecessor (suc k) h = (k, refl)

  -- With at least one installment, the installments of a schedule never add up to less than is
  -- due, and to at most half a hundredth more for each installment.
  pub schedule_total_due :
      0 < total_installments_of t
      → let due = (calculate_installments t).total_amount_due in
        let sum =
          sum_by
            (λ s. s.total_amount)
            (create_payment_schedules calendar uuid contract_id start t) in
        (due ≤ sum) × (2 * sum ≤ 2 * due + total_installments_of t)
  schedule_total_due h =
      let (k, e) = predecessor (total_installments_of t) h in
      rw (schedule_total calendar uuid contract_id start t k e) (
        let bound = installment_bound t k e in
        (
          omega arith,
          rw e (half_hundredth k (calculate_installments t).installment_amount _ bound),
        ))

  -- With at least one installment, and an even installment of at least half as many hundredths as
  -- there are installments and one more, the installments of a schedule add up to exactly what is
  -- due.
  pub schedule_total_exact :
      0 < total_installments_of t
      → total_installments_of t + 1 ≤ 2 * (calculate_installments t).installment_amount
      → sum_by (λ s. s.total_amount) (create_payment_schedules calendar uuid contract_id start t)
        ≡ (calculate_installments t).total_amount_due
  schedule_total_exact h wide =
      let (k, e) = predecessor (total_installments_of t) h in
      rw (schedule_total calendar uuid contract_id start t k e)
        (let bound = installment_bound t k e in omega arith)

  -- With at least one installment, and principal and interest shares that are no less than half as
  -- many hundredths as there are installments (or with no interest share), the principal of a
  -- schedule adds up to the loan, and principal and interest together to what is due up to one
  -- hundredth, which is the room for a tie that floating point rounds down in one of the two.
  pub schedule_parts_due :
      0 < total_installments_of t
      → total_installments_of t ≤ 2 * principal_per_installment t
      → (total_installments_of t ≤ 2 * interest_per_installment t)
        ⊎ (interest_per_installment t ≡ 0)
      → let rows = create_payment_schedules calendar uuid contract_id start t in
        (sum_by (λ s. s.principal_amount) rows ≡ t.loan_amount)
        × (sum_by (λ s. s.principal_amount) rows + sum_by (λ s. s.interest_amount) rows
            ≤ (calculate_installments t).total_amount_due + 1)
        × ((calculate_installments t).total_amount_due
            ≤ sum_by (λ s. s.principal_amount) rows + sum_by (λ s. s.interest_amount) rows + 1)
  schedule_parts_due h principal interest =
      let (k, e) = predecessor (total_installments_of t) h in
      rw
        (
          schedule_principal calendar uuid contract_id start t k e,
          schedule_interest calendar uuid contract_id start t k e,
          total_amount_due_lem t,
        )
        (let bound = principal_bound t k e in
          let sum = interest_sum t k e (rw e at interest) in
          (omega arith, omega arith, omega arith))
