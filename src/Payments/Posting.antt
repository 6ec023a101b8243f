-- ===== src/Payments/Posting.antt =====
-- payments.service.ts, `verifyPayment`, seen in the ledger of contracts: at most one repayment.
use coloanex_prod.Common.{
  Bool, Bool-cases, List, Option, Option-cases, [], arith, false, inl, inr, length, map, none, refl,
  some, true, ℕ, ◌/◌, ◌==◌, ◌∷◌, ◌≡◌,
}
use coloanex_prod.Db.{Contract, Db, update_where, PaymentSchedule, TransactionType, Transaction}
use coloanex_prod.Service.{JwtPayload, Env, consume, write_contract}
use coloanex_prod.Contracts.Drafts.{consume-KeepsLedger}
use coloanex_prod.Contracts.Ledger.{Change, IsSound, ledger, repaid_by, entry_of, LedgerStep}
use coloanex_prod.Contracts.Posting.{
  bind-Posts, then-Posts, bind-KeepsLedger, quiet-KeepsLedger, Posts, KeepsLedger,
}
use coloanex_prod.Payments.Apply.{
  is_repayment, apply_payment, find_schedules, pay_schedules, pay_schedule, apply_to_schedules,
  credited,
}
use coloanex_prod.Payments.Balance.{decide_payment-IsQuiet}
use coloanex_prod.Payments.Configs.{contract_context}
use coloanex_prod.Payments.Verify.{
  create_transaction, record_once, find_by_uuid, Gateways, recorded, VerifyDto, decide_payment,
  verify_payment, record_payment, is_configured, VerifyResult,
}

credited_rows :
    (id amount : ℕ) (xs : List Contract)
    → map entry_of (update_where (λ c. c.id == id) (credited amount) xs)
      ≡ update_where (λ e. e.id == id) (repaid_by amount) (map entry_of xs)
credited_rows id amount [] = refl
credited_rows id amount (x ∷ xs) = elim (Bool-cases (x.id == id)) [
  | inl e ↦ rw (e, credited_rows id amount xs) refl
  | inr e ↦ rw (e, credited_rows id amount xs) refl
]

pay_schedule-KeepsLedger :
    (now amount : ℕ) (s : PaymentSchedule) → KeepsLedger (pay_schedule now amount s)
unfolding pay_schedule
pay_schedule-KeepsLedger now amount s d = ground arith

pay_schedules-KeepsLedger :
    (now amount : ℕ) (found : List PaymentSchedule) → KeepsLedger (pay_schedules now amount found)
unfolding pay_schedules
pay_schedules-KeepsLedger now amount [] d = refl
pay_schedules-KeepsLedger now amount (s ∷ found) d =
    bind-KeepsLedger (pay_schedule now amount s) (λ u. pay_schedules now amount found)
      (pay_schedule-KeepsLedger now amount s) (λ u. pay_schedules-KeepsLedger now amount found) d

apply_payment-Posts :
    (may : Change → Type 0) (now : ℕ) (type : TransactionType) (contract_id : Option ℕ)
    (ids : List ℕ) (amount : ℕ)
    → ((id : ℕ)
        → contract_id ≡ some id
        → is_repayment type ≡ true
        → may (Change.repayment id amount))
    → Posts may (apply_payment now type contract_id ids amount)
unfolding apply_payment apply_to_schedules
apply_payment-Posts may now type none ids amount allowed d h = LedgerStep.unchanged
apply_payment-Posts may now type (some id) ids amount allowed d h =
    elim (Bool-cases (is_repayment type)) [
      | inr other ↦ rw other LedgerStep.unchanged
      | inl repays ↦
          let d' : Db = write_contract id (credited amount) d in
          rw
            (
              repays,
              pay_schedules-KeepsLedger now (amount / length (find_schedules ids d'))
                  (find_schedules ids d') d',
              credited_rows id amount d.contracts,
            )
            (LedgerStep.repaid id amount (allowed id refl repays))
    ]

create_transaction-KeepsLedger :
    (t : Transaction) (dto : VerifyDto) → KeepsLedger (create_transaction t dto)
unfolding create_transaction
create_transaction-KeepsLedger t dto d = ground arith

-- What `verifyPayment` may repay.
abbrev pub MayRepay : (Change → Type 0) → VerifyDto → Type 0
MayRepay may dto =
    (id : ℕ)
    → dto.contract_id ≡ some id
    → is_repayment dto.type ≡ true
    → may (Change.repayment id dto.total_amount)

record_payment-Posts :
    (may : Change → Type 0) (env : Env) (dto : VerifyDto) (user : JwtPayload)
    (context : Option Contract)
    → MayRepay may dto
    → Posts may (record_payment env dto user context)
unfolding record_payment
record_payment-Posts may env dto user context allowed =
    then-Posts may (decide_payment env dto user context) _
      (quiet-KeepsLedger (decide_payment env dto user context)
        (decide_payment-IsQuiet env dto user context))
      λ dec.
        then-Posts may (create_transaction (recorded env dto user context dec) dto) _
          (create_transaction-KeepsLedger (recorded env dto user context dec) dto)
          λ u.
            bind-Posts may
              (apply_payment env.now dto.type dto.contract_id dto.payment_schedule_ids
                dto.total_amount)
              _
              (apply_payment-Posts may env.now dto.type dto.contract_id dto.payment_schedule_ids
                dto.total_amount allowed)
              λ v.
                bind-KeepsLedger (consume env dec.subscription_id) _
                  (consume-KeepsLedger env dec.subscription_id) λ w d. refl

record_once-Posts :
    (may : Change → Type 0) (env : Env) (dto : VerifyDto) (user : JwtPayload)
    (context : Option Contract) (existing : Option Transaction)
    → MayRepay may dto
    → Posts may (record_once env dto user context existing)
unfolding record_once
record_once-Posts may env dto user context none allowed d h =
    record_payment-Posts may env dto user context allowed d h
record_once-Posts may env dto user context (some t) allowed d h = LedgerStep.unchanged

-- The gateway has answered that the payment was made.
abbrev pub is_confirmed : Option VerifyResult → Bool
is_confirmed none = false
is_confirmed (some answer) = answer.success

pub verify_payment-Posts :
    (may : Change → Type 0) (g : Gateways) (env : Env) (dto : VerifyDto) (user : JwtPayload)
    (d : Db)
    → (is_confirmed (g.verify dto.transaction_uuid dto.total_amount) ≡ true → MayRepay may dto)
    → IsSound (ledger d)
    → LedgerStep may (ledger d) (ledger (verify_payment g env dto user d).1)
unfolding verify_payment
verify_payment-Posts may g env dto user d allowed h =
    let context : Option Contract = contract_context dto.contract_id d in
    elim (Bool-cases (is_configured g dto user d)) [
      | inr missing ↦ rw missing LedgerStep.unchanged
      | inl configured ↦ elim (Bool-cases (g.registered dto.gateway)) [
        | inr unknown ↦ rw (configured, unknown) LedgerStep.unchanged
        | inl known ↦ elim (Option-cases (g.verify dto.transaction_uuid dto.total_amount)) [
          | inl threw ↦ rw (configured, known, threw) LedgerStep.unchanged
          | inr (answer, answered) ↦ elim (Bool-cases answer.success) [
            | inr refused ↦ rw (configured, known, answered, refused) LedgerStep.unchanged
            | inl agrees ↦
                let sure : is_confirmed (g.verify dto.transaction_uuid dto.total_amount) ≡ true =
                  rw answered agrees in
                rw (configured, known, answered, agrees)
                  (record_once-Posts may env dto user context (find_by_uuid dto.transaction_uuid d)
                    (allowed sure) d h)
          ]
        ]
      ]
    ]
