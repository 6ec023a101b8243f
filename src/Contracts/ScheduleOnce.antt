-- ===== src/Contracts/ScheduleOnce.antt =====
-- contracts.service.ts, `ensureContractActivatedState`: a contract gets its schedule once.
use coloanex_prod.Common.{
  Bool, Bool-cases, List, [], any, ap, arith, inl, inr, refl, suc, true, zero, ℕ, ◌++◌, ◌<◌, ◌==◌,
  ◌∙◌, ◌∷◌, ◌≡◌,
}
use coloanex_prod.Db.{LoanStatus, Loan, Contract, PaymentSchedule, Db, update_where}
use coloanex_prod.Service.{Calendar, Env, write_loan}
use coloanex_prod.Contracts.Disbursing.{
  ensure_contract_activated_state, terms_of, of_contract, ensure_schedules,
}
use coloanex_prod.Contracts.Installments.{Terms, total_installments_of, calculate_installments}
use coloanex_prod.Contracts.Schedule.{
  Allocated, schedule_loop, schedule_row, create_payment_schedules,
}

any-append :
    (p : PaymentSchedule → Bool) (xs ys : List PaymentSchedule)
    → any p ys ≡ true
    → any p (xs ++ ys) ≡ true
any-append p [] ys h = h
any-append p (x ∷ xs) ys h = let ih : _ ≡ _ = any-append p xs ys h in ground arith

same_contract : (id : ℕ) → (id == id) ≡ true
same_contract id = ground arith

-- The first row of a schedule with an installment belongs to the contract.
any-schedule_loop :
    (calendar : Calendar) (uuid : ℕ → ℕ) (contract_id start : ℕ) (t : Terms) (n i : ℕ)
    (a : Allocated)
    → 0 < n
    → any (of_contract contract_id) (schedule_loop calendar uuid contract_id start t n i a) ≡ true
unfolding schedule_loop schedule_row
any-schedule_loop calendar uuid contract_id start t zero i a h = elim h [ ]
any-schedule_loop calendar uuid contract_id start t (suc left) i a h =
    rw (same_contract contract_id) refl

-- A contract has a schedule after `ensure_schedules`.
pub ensure_schedules-of_contract :
    (env : Env) (c : Contract) (d : Db)
    → 0 < total_installments_of (terms_of c)
    → any (of_contract c.id) (ensure_schedules env c d).schedules ≡ true
unfolding ensure_schedules create_payment_schedules calculate_installments
ensure_schedules-of_contract env c d h = elim (Bool-cases (any (of_contract c.id) d.schedules)) [
  | inl there ↦ rw there there
  | inr missing ↦ rw missing (
      any-append (of_contract c.id) d.schedules _ (
        any-schedule_loop env.calendar env.uuid c.id c.start_date (terms_of c)
          (total_installments_of (terms_of c)) 1 _ h))
]

ensure_schedules_again :
    (env : Env) (c : Contract) (d : Db)
    → any (of_contract c.id) d.schedules ≡ true
    → ensure_schedules env c d ≡ d
unfolding ensure_schedules
ensure_schedules_again env c d there = rw there refl

provided : Loan → Loan
provided l = record l { status = LoanStatus.loan_provided }

write_status_again :
    (id : ℕ) (ls : List Loan)
    → update_where (λ l. l.id == id) provided (update_where (λ l. l.id == id) provided ls)
      ≡ update_where (λ l. l.id == id) provided ls
unfolding provided
write_status_again id [] = refl
write_status_again id (l ∷ ls) = elim (Bool-cases (l.id == id)) [
  | inl hit ↦ rw (hit, hit, write_status_again id ls) refl
  | inr miss ↦ rw (miss, miss, write_status_again id ls) refl
]

-- For a contract with at least one installment, activating it a second time adds no schedule and
-- changes nothing else: the second call finds the schedule of the first, whatever its clock.
pub ensure_contract_activated_state-idempotent :
    (env env' : Env) (c : Contract) (d : Db)
    → 0 < total_installments_of (terms_of c)
    → ensure_contract_activated_state env' c (ensure_contract_activated_state env c d)
      ≡ ensure_contract_activated_state env c d
unfolding ensure_contract_activated_state provided
ensure_contract_activated_state-idempotent env env' c d h =
    let m : Db = ensure_schedules env c d in
    let once : Db = ensure_contract_activated_state env c d in
    let there : any (of_contract c.id) m.schedules ≡ true =
      ensure_schedules-of_contract env c d h in
    ap (λ x. write_loan c.loan_id provided x) (ensure_schedules_again env' c once there)
    ∙ ap (λ ls. record m { loans = ls }) (write_status_again c.loan_id m.loans)
