-- ===== src/Payments/Apply.antt =====
-- payments.service.ts, `verifyPayment`: what a recorded payment does to the contract and to the
-- payment schedules.
use coloanex_prod.Common.{
  Bool, List, Option, [], any, false, filter, if◌then◌else◌, leb, length, ltb, none, some, true, ℕ,
  ◌+◌, ◌/◌, ◌==◌, ◌∷◌,
}
use coloanex_prod.Common.Int.{◌+ℤ◌, ◌-ℤ◌, pos}
use coloanex_prod.Db.{
  InstallmentStatus, paid, partially_paid, TransactionType, installment_payment, penalty_payment,
  ok, err, update_where, ◌>>◌, Action, modify, when, invalid_enum_value, pure, Contract, Db,
  PaymentSchedule,
}
use coloanex_prod.Service.{write_contract}

-- `type === 'INSTALLMENT_PAYMENT' || type === 'PENALTY_PAYMENT'`
abbrev pub is_repayment : TransactionType → Bool
is_repayment installment_payment = true
is_repayment penalty_payment = true
is_repayment _ = false

-- `totalAmountPaid: { increment }, outstandingBalance: { decrement }`
abbrev pub credited : ℕ → Contract → Contract
credited amount c = record c {
  total_amount_paid = c.total_amount_paid +ℤ pos amount;
  outstanding_balance = c.outstanding_balance -ℤ pos amount;
}

-- Prisma's validation of a value for the column's enum, PENDING, PAID, OVERDUE or PARTIAL.
abbrev pub is_stored : InstallmentStatus → Bool
is_stored partially_paid = false
is_stored _ = true

unfoldable pub new_status : PaymentSchedule → ℕ → InstallmentStatus
new_status s new_amount_paid =
    if leb s.total_amount new_amount_paid
    then paid
    else if ltb 0 new_amount_paid
    then partially_paid
    else s.status

abbrev pub settled : ℕ → PaymentSchedule → ℕ → PaymentSchedule → PaymentSchedule
settled now s new_amount_paid x = record x {
  amount_paid = new_amount_paid;
  status = new_status s new_amount_paid;
  paid_at = if leb s.total_amount new_amount_paid then some now else x.paid_at;
}

-- One turn of the loop over the schedules.
unfoldable pub pay_schedule : ℕ → ℕ → PaymentSchedule → Action (Unit {0})
unfolding new_status
pay_schedule now amount s d =
    if is_stored (new_status s (s.amount_paid + amount))
    then (
      ok tt,
      record d {
        schedules =
            update_where (λ x. x.id == s.id) (settled now s (s.amount_paid + amount)) d.schedules;
      },
    )
    else (err invalid_enum_value, d)

unfoldable pub pay_schedules : ℕ → ℕ → List PaymentSchedule → Action (Unit {0})
pay_schedules now amount [] = pure tt
pay_schedules now amount (s ∷ rest) = pay_schedule now amount s >> pay_schedules now amount rest

unfoldable pub find_schedules : List ℕ → Db → List PaymentSchedule
find_schedules ids d = filter (λ s. any (λ id. id == s.id) ids) d.schedules

-- `amount / schedules.length` is exact: a payment has been recorded with at most one schedule.
unfoldable pub apply_to_schedules : ℕ → ℕ → List ℕ → Action (Unit {0})
apply_to_schedules now amount ids d =
    let found = find_schedules ids d in pay_schedules now (amount / length found) found d

-- The part under `if (isDebit)`: a repayment that names a contract.
unfoldable pub apply_payment : ℕ → TransactionType → Option ℕ → List ℕ → ℕ → Action (Unit {0})
apply_payment now type none ids amount = pure tt
apply_payment now type (some contract_id) ids amount =
    when (is_repayment type)
      (modify (write_contract contract_id (credited amount)) >> apply_to_schedules now amount ids)
