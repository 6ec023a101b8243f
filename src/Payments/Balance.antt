-- ===== src/Payments/Balance.antt =====
-- payments.service.ts: `verifyPayment` and the balances of the contracts.
use coloanex_prod.Common.{
  Bool-cases, List, Option, Option-cases, [], ap, arith, inl, inr, length, map, none, refl, some, ℕ,
  ◌/◌, ◌==◌, ◌∙◌, ◌∷◌, ◌≡◌,
}
use coloanex_prod.Common.Int.{ℤ, ◌+ℤ◌}
use coloanex_prod.Db.{
  Contract, ok, err, TransactionType, pure, continue_with, Result, ◌>>=◌, Action, Transaction, Db,
  PaymentSchedule,
}
use coloanex_prod.Service.{write_contract, consume, Env, require_decision, JwtPayload}
use coloanex_prod.Db.Membership.{map-update_where}
use coloanex_prod.Service.Quiet.{consume-IsQuiet, require_decision-IsQuiet, IsQuiet, if-IsQuiet}
use coloanex_prod.Payments.Apply.{
  credited, apply_to_schedules, pay_schedule, apply_payment, pay_schedules, find_schedules,
  is_repayment,
}
use coloanex_prod.Payments.Verify.{
  create_transaction, decide_payment, payment_input, recorded, is_subscription_fee_payment,
  VerifyDto, bypass, record_payment, Gateways, find_by_uuid, record_once, verify_payment,
  is_configured,
}
use coloanex_prod.Payments.Configs.{contract_context}
use coloanex_prod.Contracts.LedgerLaws.{moved}

-- What is paid and what is outstanding, together.
abbrev pub balance_total : Contract → ℤ
balance_total c = c.total_amount_paid +ℤ c.outstanding_balance

abbrev pub balance_totals : Db → List ℤ
balance_totals d = map balance_total d.contracts

-- A part of a handler that keeps every contract's total, whether it returns or throws.
abbrev KeepsTotals : {A : Type 0} → Action A → Type 0
KeepsTotals m = (d : Db) → balance_totals (m d).1 ≡ balance_totals d

continue_with-KeepsTotals :
    {A B : Type 0} (d : Db) (r : Result A × Db) (f : A → Action B)
    → balance_totals r.1 ≡ balance_totals d
    → ((a : A) → KeepsTotals (f a))
    → balance_totals (continue_with r f).1 ≡ balance_totals d
continue_with-KeepsTotals d (ok a, d') f h k = k a d' ∙ h
continue_with-KeepsTotals d (err e, d') f h k = h

bind-KeepsTotals :
    {A B : Type 0} (m : Action A) (f : A → Action B)
    → KeepsTotals m
    → ((a : A) → KeepsTotals (f a))
    → KeepsTotals (m >>= f)
bind-KeepsTotals m f h k d = continue_with-KeepsTotals d (m d) f (h d) k

quiet-KeepsTotals : {A : Type 0} (m : Action A) → IsQuiet m → KeepsTotals m
quiet-KeepsTotals m q d = ap (λ (x : Db). balance_totals x) (q d)

write_contract-totals :
    (id amount : ℕ) (d : Db)
    → balance_totals (write_contract id (credited amount) d) ≡ balance_totals d
write_contract-totals id amount d =
    map-update_where balance_total (λ c. c.id == id) (credited amount) d.contracts
      (λ c. moved c.total_amount_paid c.outstanding_balance amount)

pay_schedule-KeepsTotals :
    (now amount : ℕ) (s : PaymentSchedule) → KeepsTotals (pay_schedule now amount s)
unfolding pay_schedule
pay_schedule-KeepsTotals now amount s d = ground arith

pay_schedules-KeepsTotals :
    (now amount : ℕ) (found : List PaymentSchedule) → KeepsTotals (pay_schedules now amount found)
unfolding pay_schedules
pay_schedules-KeepsTotals now amount [] d = refl
pay_schedules-KeepsTotals now amount (s ∷ found) d =
    bind-KeepsTotals (pay_schedule now amount s) (λ u. pay_schedules now amount found)
      (pay_schedule-KeepsTotals now amount s) (λ u. pay_schedules-KeepsTotals now amount found) d

apply_payment-KeepsTotals :
    (now : ℕ) (type : TransactionType) (contract_id : Option ℕ) (ids : List ℕ) (amount : ℕ)
    → KeepsTotals (apply_payment now type contract_id ids amount)
unfolding apply_payment apply_to_schedules
apply_payment-KeepsTotals now type none ids amount d = refl
apply_payment-KeepsTotals now type (some id) ids amount d = elim (Bool-cases (is_repayment type)) [
  | inr other ↦ rw other refl
  | inl repays ↦
      let d' : Db = write_contract id (credited amount) d in
      rw repays (
        pay_schedules-KeepsTotals now (amount / length (find_schedules ids d'))
          (find_schedules ids d') d'
        ∙ write_contract-totals id amount d)
]

create_transaction-KeepsTotals :
    (t : Transaction) (dto : VerifyDto) → KeepsTotals (create_transaction t dto)
unfolding create_transaction
create_transaction-KeepsTotals t dto d = ground arith

pub decide_payment-IsQuiet :
    (env : Env) (dto : VerifyDto) (user : JwtPayload) (context : Option Contract)
    → IsQuiet (decide_payment env dto user context)
unfolding decide_payment
decide_payment-IsQuiet env dto user context =
    if-IsQuiet (is_subscription_fee_payment dto) (pure (bypass user))
      (require_decision env (payment_input dto user context)) (λ d. refl)
      (require_decision-IsQuiet env (payment_input dto user context))

record_payment-KeepsTotals :
    (env : Env) (dto : VerifyDto) (user : JwtPayload) (context : Option Contract)
    → KeepsTotals (record_payment env dto user context)
unfolding record_payment
record_payment-KeepsTotals env dto user context =
    bind-KeepsTotals (decide_payment env dto user context) _
      (quiet-KeepsTotals (decide_payment env dto user context)
        (decide_payment-IsQuiet env dto user context))
      λ dec.
        bind-KeepsTotals (create_transaction (recorded env dto user context dec) dto) _
          (create_transaction-KeepsTotals (recorded env dto user context dec) dto)
          λ u.
            bind-KeepsTotals
              (apply_payment env.now dto.type dto.contract_id dto.payment_schedule_ids
                dto.total_amount)
              _
              (apply_payment-KeepsTotals env.now dto.type dto.contract_id dto.payment_schedule_ids
                dto.total_amount)
              λ v.
                bind-KeepsTotals (consume env dec.subscription_id) _
                  (quiet-KeepsTotals (consume env dec.subscription_id)
                    (consume-IsQuiet env dec.subscription_id))
                  λ w d. refl

record_once-KeepsTotals :
    (env : Env) (dto : VerifyDto) (user : JwtPayload) (context : Option Contract)
    (existing : Option Transaction)
    → KeepsTotals (record_once env dto user context existing)
unfolding record_once
record_once-KeepsTotals env dto user context none d =
    record_payment-KeepsTotals env dto user context d
record_once-KeepsTotals env dto user context (some t) d = refl

-- Through `verifyPayment`, whether it returns or throws, every contract keeps the sum of what is
-- paid and what is outstanding.
pub verify_payment-totals :
    (g : Gateways) (env : Env) (dto : VerifyDto) (user : JwtPayload) (d : Db)
    → balance_totals (verify_payment g env dto user d).1 ≡ balance_totals d
unfolding verify_payment
verify_payment-totals g env dto user d =
    let context : Option Contract = contract_context dto.contract_id d in
    let keeps : _ ≡ _ =
      record_once-KeepsTotals env dto user context (find_by_uuid dto.transaction_uuid d) d in
    elim (Bool-cases (is_configured g dto user d)) [
      | inr missing ↦ rw missing refl
      | inl configured ↦ elim (Bool-cases (g.registered dto.gateway)) [
        | inr unknown ↦ rw (configured, unknown) refl
        | inl known ↦ elim (Option-cases (g.verify dto.transaction_uuid dto.total_amount)) [
          | inl threw ↦ rw (configured, known, threw) refl
          | inr (answer, answered) ↦ elim (Bool-cases answer.success) [
            | inr refused ↦ rw (configured, known, answered, refused) refl
            | inl agrees ↦ rw (configured, known, answered, agrees) keeps
          ]
        ]
      ]
    ]
