-- ===== src/Payments/Repeat.antt =====
-- payments.service.ts: `verifyPayment` records a payment once.
use coloanex_prod.Common.{
  Bool, Bool-cases, List, Option, Option-cases, [], ap, arith, find, inl, inr, is_number, is_some,
  length, none, refl, some, subst, sym, true, ℕ, ◌++◌, ◌+◌, ◌/◌, ◌∙◌, ◌∷◌, ◌≡◌,
}
use coloanex_prod.Db.{
  ok, err, TransactionType, Result, continue_with, Action, Db, PaymentSchedule, Transaction,
  Contract,
}
use coloanex_prod.Service.{write_contract, JwtPayload, consume, Env}
use coloanex_prod.Service.Quiet.{IsQuiet, consume-IsQuiet}
use coloanex_prod.Payments.Apply.{
  is_stored, pay_schedules, apply_to_schedules, pay_schedule, is_repayment, credited, apply_payment,
  find_schedules, new_status,
}
use coloanex_prod.Payments.Verify.{
  find_by_uuid, record_payment, decide_payment, PaymentResult, refers_to_rows, record_once,
  Gateways, recorded, is_configured, VerifyDto, verify_payment, create_transaction,
}
use coloanex_prod.Payments.Configs.{contract_context}
use coloanex_prod.Payments.Webhook.{confirmed}

-- A transaction with the gateway's identifier of the payment is in the table.
abbrev pub IsRecorded : ℕ → Db → Type 0
IsRecorded uuid d = is_some (find_by_uuid uuid d) ≡ true

-- What a return shows of the database that it leaves.
abbrev OnReturn : {A : Type 0} → (A → Db → Type 0) → Result A × Db → Type 0
OnReturn P (ok a, d) = P a d
OnReturn P (err e, d) = Unit

bind-OnReturn :
    {A B : Type 0} (P : B → Db → Type 0) (r : Result A × Db) (f : A → Action B)
    → ((a : A) (d : Db) → OnReturn P (f a d))
    → OnReturn P (continue_with r f)
bind-OnReturn P (ok a, d) f h = h a d
bind-OnReturn P (err e, d) f h = tt

-- A part that leaves the transactions as they are.
abbrev KeepsTransactions : {A : Type 0} → Action A → Type 0
KeepsTransactions m = (d : Db) → (m d).1.transactions ≡ d.transactions

continue_with-recorded :
    {A B : Type 0} (uuid : ℕ) (P : B → Db → Type 0) (d : Db) (r : Result A × Db) (f : A → Action B)
    → r.1.transactions ≡ d.transactions
    → IsRecorded uuid d
    → ((a : A) (d' : Db) → IsRecorded uuid d' → OnReturn P (f a d'))
    → OnReturn P (continue_with r f)
unfolding find_by_uuid
continue_with-recorded uuid P d (ok a, d') f same known h = h a d' (
    subst (λ ts. is_some (find (λ t. is_number t.transaction_uuid uuid) ts) ≡ true) (sym same)
      known)
continue_with-recorded uuid P d (err e, d') f same known h = tt

pay_schedules-KeepsTransactions :
    (now amount : ℕ) (found : List PaymentSchedule)
    → KeepsTransactions (pay_schedules now amount found)
unfolding pay_schedules pay_schedule
pay_schedules-KeepsTransactions now amount [] d = refl
pay_schedules-KeepsTransactions now amount (s ∷ found) d =
    elim (Bool-cases (is_stored (new_status s (s.amount_paid + amount)))) [
      | inl fits ↦ rw fits (pay_schedules-KeepsTransactions now amount found _)
      | inr refused ↦ rw refused refl
    ]

apply_payment-KeepsTransactions :
    (now : ℕ) (type : TransactionType) (contract_id : Option ℕ) (ids : List ℕ) (amount : ℕ)
    → KeepsTransactions (apply_payment now type contract_id ids amount)
unfolding apply_payment apply_to_schedules
apply_payment-KeepsTransactions now type none ids amount d = refl
apply_payment-KeepsTransactions now type (some id) ids amount d =
    elim (Bool-cases (is_repayment type)) [
      | inr other ↦ rw other refl
      | inl repays ↦
          let d' : Db = write_contract id (credited amount) d in
          rw repays (
            pay_schedules-KeepsTransactions now (amount / length (find_schedules ids d'))
              (find_schedules ids d') d')
    ]

quiet-KeepsTransactions : {A : Type 0} (m : Action A) → IsQuiet m → KeepsTransactions m
quiet-KeepsTransactions m q d = ap (λ (x : Db). x.transactions) (q d)

found_last :
    (p : Transaction → Bool) (t : Transaction) (ts : List Transaction)
    → p t ≡ true
    → is_some (find p (ts ++ t ∷ [])) ≡ true
found_last p t [] h = ground arith
found_last p t (x ∷ xs) h = ground (arith, found_last p t xs h)

same_uuid : (uuid : ℕ) → is_number (some uuid) uuid ≡ true
same_uuid uuid = ground arith

create_transaction-recorded :
    {A : Type 0} (t : Transaction) (dto : VerifyDto) (uuid : ℕ) (P : A → Db → Type 0) (d : Db)
    (f : Unit {0} → Action A)
    → t.transaction_uuid ≡ some uuid
    → ((d' : Db) → IsRecorded uuid d' → OnReturn P (f tt d'))
    → OnReturn P (continue_with (create_transaction t dto d) f)
unfolding create_transaction find_by_uuid
create_transaction-recorded t dto uuid P d f own h = elim (Bool-cases (refers_to_rows dto d)) [
  | inr missing ↦ rw missing tt
  | inl fits ↦ rw fits (
      h (record d { transactions = d.transactions ++ t ∷ [] })
        (found_last (λ x. is_number x.transaction_uuid uuid) t d.transactions
          (ap (λ o. is_number o uuid) own ∙ same_uuid uuid)))
]

record_payment-IsRecorded :
    (env : Env) (dto : VerifyDto) (user : JwtPayload) (context : Option Contract) (d : Db)
    → OnReturn
        (λ (r : PaymentResult) d'. IsRecorded dto.transaction_uuid d')
        (record_payment env dto user context d)
unfolding record_payment
record_payment-IsRecorded env dto user context d =
    let uuid : ℕ = dto.transaction_uuid in
    let P : PaymentResult → Db → Type 0 = λ r d'. IsRecorded dto.transaction_uuid d' in
    bind-OnReturn P (decide_payment env dto user context d) _ λ dec d1.
      create_transaction-recorded (recorded env dto user context dec) dto uuid P d1 _ refl
        λ d2 known.
          continue_with-recorded uuid P d2
            (apply_payment env.now dto.type dto.contract_id dto.payment_schedule_ids
              dto.total_amount d2)
            _
            (apply_payment-KeepsTransactions env.now dto.type dto.contract_id
              dto.payment_schedule_ids dto.total_amount d2)
            known
            λ u d3 known'.
              continue_with-recorded uuid P d3 (consume env dec.subscription_id d3) _
                (quiet-KeepsTransactions (consume env dec.subscription_id)
                  (consume-IsQuiet env dec.subscription_id) d3)
                known' λ v d4 known''. known''

-- A payment whose identifier is recorded is not recorded again: whoever verifies it, with whatever
-- amount, contract and gateway, and whether that returns or throws, the database stays as it was.
verify_payment-once :
    (g : Gateways) (env : Env) (dto : VerifyDto) (user : JwtPayload) (d : Db)
    → IsRecorded dto.transaction_uuid d
    → (verify_payment g env dto user d).1 ≡ d
unfolding verify_payment record_once
verify_payment-once g env dto user d known =
    elim (Option-cases (find_by_uuid dto.transaction_uuid d)) [
      | inl missing ↦ cc
      | inr (t, found) ↦ elim (Bool-cases (is_configured g dto user d)) [
        | inr missing ↦ rw missing refl
        | inl configured ↦ elim (Bool-cases (g.registered dto.gateway)) [
          | inr unknown ↦ rw (configured, unknown) refl
          | inl served ↦ elim (Option-cases (g.verify dto.transaction_uuid dto.total_amount)) [
            | inl threw ↦ rw (configured, served, threw) refl
            | inr (answer, answered) ↦ elim (Bool-cases answer.success) [
              | inr refused ↦ rw (configured, served, answered, refused) refl
              | inl agrees ↦ rw (configured, served, answered, agrees, found) refl
            ]
          ]
        ]
      ]
    ]

record_once-IsRecorded :
    (env : Env) (dto : VerifyDto) (user : JwtPayload) (context : Option Contract)
    (existing : Option Transaction) (d : Db)
    → find_by_uuid dto.transaction_uuid d ≡ existing
    → OnReturn
        (λ (r : PaymentResult) d'. IsRecorded dto.transaction_uuid d')
        (record_once env dto user context existing d)
unfolding record_once
record_once-IsRecorded env dto user context none d e =
    record_payment-IsRecorded env dto user context d
record_once-IsRecorded env dto user context (some t) d e = ap (λ o. is_some o) e

OnReturn-weaken :
    (uuid : ℕ) (r : Result PaymentResult × Db)
    → OnReturn (λ (x : PaymentResult) d. IsRecorded uuid d) r
    → OnReturn (λ (x : PaymentResult) d. x.success ≡ true → IsRecorded uuid d) r
OnReturn-weaken uuid (ok x, d) h = λ e. h
OnReturn-weaken uuid (err e, d) h = tt

-- A confirmation that is returned is recorded.
verify_payment-IsRecorded :
    (g : Gateways) (env : Env) (dto : VerifyDto) (user : JwtPayload) (d : Db)
    → OnReturn
        (λ (r : PaymentResult) d'. r.success ≡ true → IsRecorded dto.transaction_uuid d')
        (verify_payment g env dto user d)
unfolding verify_payment
verify_payment-IsRecorded g env dto user d =
    let context : Option Contract = contract_context dto.contract_id d in
    let existing : Option Transaction = find_by_uuid dto.transaction_uuid d in
    elim (Bool-cases (is_configured g dto user d)) [
      | inr missing ↦ rw missing tt
      | inl configured ↦ elim (Bool-cases (g.registered dto.gateway)) [
        | inr unknown ↦ rw (configured, unknown) tt
        | inl served ↦ elim (Option-cases (g.verify dto.transaction_uuid dto.total_amount)) [
          | inl threw ↦ rw (configured, served, threw) tt
          | inr (answer, answered) ↦ elim (Bool-cases answer.success) [
            | inr refused ↦ rw (configured, served, answered, refused) (λ e. cc)
            | inl agrees ↦
                rw (configured, served, answered, agrees)
                  (OnReturn-weaken dto.transaction_uuid
                    (record_once env dto user context existing d)
                    (record_once-IsRecorded env dto user context existing d refl))
          ]
        ]
      ]
    ]

-- Once `verifyPayment` has returned a confirmation, no further call for the same payment identifier
-- changes the database, with whatever other data, caller, clock and gateways it is made.
pub verify_payment-idempotent :
    (g g' : Gateways) (env env' : Env) (dto dto' : VerifyDto) (user user' : JwtPayload) (d d' : Db)
    (r : PaymentResult)
    → verify_payment g env dto user d ≡ (ok r, d')
    → r.success ≡ true
    → dto'.transaction_uuid ≡ dto.transaction_uuid
    → (verify_payment g' env' dto' user' d').1 ≡ d'
verify_payment-idempotent g g' env env' dto dto' user user' d d' r returned confirmed same =
    let known : IsRecorded dto.transaction_uuid d' =
      subst
        (λ x.
          OnReturn
            (λ (q : PaymentResult) d''. q.success ≡ true → IsRecorded dto.transaction_uuid d'') x)
        returned (verify_payment-IsRecorded g env dto user d) confirmed in
    verify_payment-once g' env' dto' user' d' (subst (λ k. IsRecorded k d') (sym same) known)
