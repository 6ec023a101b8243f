-- ===== src/Contracts/DisbursingLaws.antt =====
-- What `signAndDisburse` and `disburse` (contracts.service.ts) require and leave.
use coloanex_prod.Common.{
  Bool, Bool-cases, Option, Option-cases, arith, false, inl, inr, is_some, none, not, refl, some,
  true, ℕ, ◌&&◌, ◌≡◌, ◌⊎◌,
}
use coloanex_prod.Db.{
  Transaction, Db, continue_with, ok, ◌>>◌, Action, Result, err, pure, modify, Contract,
  by_borrower, bad_request, Error, throw_if,
}
use coloanex_prod.Service.Guarded.{
  IsGuarded, then-IsGuarded, throw_if_last-IsGuarded, throw_if-IsGuarded,
}
use coloanex_prod.Contracts.Disbursing.{
  disbursed, check_disburse, disburse, may_disburse, ensure_payment, find_disbursement,
  is_completed, sign_and_disburse, ensure_contract_activated_state, check_sign_and_disburse,
  activated, is_outsider, requires_payment, resolved_tx, DisburseDto, may_sign_and_disburse,
}
use coloanex_prod.Service.{JwtPayload, write_contract, find_contract, Env}
use coloanex_prod.Contracts.Signing.{has_signature}

-- A transaction reference that is given names a completed disbursement of the contract.
abbrev pub IsPaid : ℕ → Option ℕ → Db → Type 0
IsPaid contract_id none d = Unit
IsPaid contract_id (some k) d =
    (t : Transaction) × (find_disbursement contract_id k d ≡ some t)
    × (is_completed t.status ≡ true)

abbrev bad_reference : Error
bad_reference = bad_request "Invalid disbursement transaction reference for this contract."

abbrev not_completed : Error
not_completed =
    bad_request
      "Disbursement payment is not completed yet. Please finish payment verification first."

ensure_payment-IsGuarded :
    (contract_id : ℕ) (tx : Option ℕ) (d : Db)
    → IsGuarded (IsPaid contract_id tx d) (ensure_payment contract_id tx) d
unfolding ensure_payment
ensure_payment-IsGuarded contract_id none d = inr (refl, tt)
ensure_payment-IsGuarded contract_id (some k) d =
    elim (Option-cases (find_disbursement contract_id k d)) [
      | inl missing ↦ inl (bad_reference, rw missing refl)
      | inr (t, found) ↦ elim (Bool-cases (is_completed t.status)) [
        | inl done ↦ inr (rw (found, done) refl, (t, found, done))
        | inr unpaid ↦ inl (not_completed, rw (found, unpaid) refl)
      ]
    ]

-- What the guards of `signAndDisburse` show.
pub record MaySignAndDisburse (c : Contract) (dto : DisburseDto) (user : JwtPayload) (d : Db)
    : Type 0 where
  pub insider : is_outsider user c ≡ false
  pub status_fits : may_sign_and_disburse c.status ≡ true
  pub referenced : (requires_payment dto.method ≡ false) ⊎ (is_some (resolved_tx dto c) ≡ true)
  pub reference_paid : IsPaid c.id (resolved_tx dto c) d
  pub borrower_signed : has_signature by_borrower c.signatures ≡ true

is_true_of_not : (b : Bool) → not b ≡ false → b ≡ true
is_true_of_not b e = ground arith

-- The guard on the payment reference.
reference_needed : (p q : Bool) → p && not q ≡ false → (p ≡ false) ⊎ (q ≡ true)
reference_needed p q e = ground arith

check_sign_and_disburse-IsGuarded :
    (c : Contract) (dto : DisburseDto) (user : JwtPayload) (d : Db)
    → IsGuarded (MaySignAndDisburse c dto user d) (check_sign_and_disburse c dto user) d
unfolding check_sign_and_disburse
check_sign_and_disburse-IsGuarded c dto user d =
    let P : Type 0 = MaySignAndDisburse c dto user d in
    let tx : Option ℕ = resolved_tx dto c in
    throw_if-IsGuarded P (is_outsider user c) _ _ d λ insider.
      throw_if-IsGuarded P (not (may_sign_and_disburse c.status)) _ _ d λ status.
        throw_if-IsGuarded P (requires_payment dto.method && not (is_some tx)) _ _ d λ referenced.
          then-IsGuarded (IsPaid c.id tx d) P (ensure_payment c.id tx)
            (throw_if (not (has_signature by_borrower c.signatures))
              (bad_request "Borrower must sign the contract before the lender can sign"))
            d (ensure_payment-IsGuarded c.id tx d)
            λ reference.
              throw_if_last-IsGuarded P (not (has_signature by_borrower c.signatures))
                (bad_request "Borrower must sign the contract before the lender can sign") d
                λ complete. record {
                  insider = insider;
                  status_fits = is_true_of_not (may_sign_and_disburse c.status) status;
                  referenced =
                      reference_needed (requires_payment dto.method) (is_some tx) referenced;
                  reference_paid = reference;
                  borrower_signed =
                      is_true_of_not (has_signature by_borrower c.signatures) complete;
                }

-- How `signAndDisburse` ends: an exception has written nothing, and a return has passed the guards
-- and has stored the contract, its schedule and the loan's status.
abbrev pub ActivateOutcome :
    (Contract → Type 0) → (Contract → Contract) → Env → ℕ → Db → Result Contract × Db → Type 0
ActivateOutcome P f env id d (err e, d') = d' ≡ d
ActivateOutcome P f env id d (ok c', d') =
    (c : Contract) × (find_contract id d ≡ some c)
    × P c
    × (c' ≡ f c)
    × (d' ≡ ensure_contract_activated_state env c (write_contract c.id (λ x. f c) d))

-- The common end of both handlers, after guards of either.
activate-outcome :
    (P : Contract → Type 0) (f : Contract → Contract) (env : Env) (id : ℕ) (d : Db) (c : Contract)
    (check : Action (Unit {0}))
    → find_contract id d ≡ some c
    → IsGuarded (P c) check d
    → ActivateOutcome P f env id d (
        continue_with (check d) (λ u.
          modify (write_contract c.id (λ x. f c))
          >> (modify (ensure_contract_activated_state env c) >> pure (f c))))
activate-outcome P f env id d c check found (inl (e, thrown)) = rw thrown refl
activate-outcome P f env id d c check found (inr (passed, p)) = rw passed (c, found, p, refl, refl)

-- An exception from `signAndDisburse` leaves the database as it was. A return has found a contract
-- of the caller's tenant (of any tenant for the Super Admin) that is GENERATED, SIGNED or ACTIVE
-- and signed by the borrower; a payment gateway needs a transaction reference, and a reference
-- that is given is a COMPLETED disbursement of this contract; then the contract, its schedule and
-- its loan are stored together.
pub sign_and_disburse-outcome :
    (env : Env) (id : ℕ) (dto : DisburseDto) (signature : ℕ) (tx_hash : Option ℕ)
    (user : JwtPayload) (d : Db)
    → ActivateOutcome
        (λ c. MaySignAndDisburse c dto user d)
        (activated env dto signature tx_hash)
        env
        id
        d
        (sign_and_disburse env id dto signature tx_hash user d)
unfolding sign_and_disburse
sign_and_disburse-outcome env id dto signature tx_hash user d =
    elim (Option-cases (find_contract id d)) [
      | inl missing ↦ rw missing refl
      | inr (c, found) ↦ rw found (
          activate-outcome (λ x. MaySignAndDisburse x dto user d)
            (activated env dto signature tx_hash) env id d c (check_sign_and_disburse c dto user)
            found (check_sign_and_disburse-IsGuarded c dto user d))
    ]

-- What the guards of `disburse` show.
pub record MayDisburse (c : Contract) (dto : DisburseDto) (user : JwtPayload) (d : Db)
    : Type 0 where
  pub insider : is_outsider user c ≡ false
  pub status_fits : may_disburse c.status ≡ true
  pub referenced : (requires_payment dto.method ≡ false) ⊎ (is_some (resolved_tx dto c) ≡ true)
  pub reference_paid : IsPaid c.id (resolved_tx dto c) d

check_disburse-IsGuarded :
    (c : Contract) (dto : DisburseDto) (user : JwtPayload) (d : Db)
    → IsGuarded (MayDisburse c dto user d) (check_disburse c dto user) d
unfolding check_disburse
check_disburse-IsGuarded c dto user d =
    let P : Type 0 = MayDisburse c dto user d in
    let tx : Option ℕ = resolved_tx dto c in
    throw_if-IsGuarded P (is_outsider user c) _ _ d λ insider.
      throw_if-IsGuarded P (not (may_disburse c.status)) _ _ d λ status.
        throw_if-IsGuarded P (requires_payment dto.method && not (is_some tx)) _ _ d λ referenced.
          elim (ensure_payment-IsGuarded c.id tx d) [
            | inl (e, thrown) ↦ inl (e, thrown)
            | inr (passed, reference) ↦ inr (
              passed,
              record {
                insider = insider;
                status_fits = is_true_of_not (may_disburse c.status) status;
                referenced = reference_needed (requires_payment dto.method) (is_some tx) referenced;
                reference_paid = reference;
              },
            )
          ]

-- An exception from `disburse` leaves the database as it was. A return has found a contract of the
-- caller's tenant (of any tenant for the Super Admin) that is SIGNED or ACTIVE; a payment gateway
-- needs a transaction reference, and a reference that is given is a COMPLETED disbursement of this
-- contract; then the contract, its schedule and its loan are stored together.
pub disburse-outcome :
    (env : Env) (id : ℕ) (dto : DisburseDto) (user : JwtPayload) (d : Db)
    → ActivateOutcome
        (λ c. MayDisburse c dto user d)
        (disbursed env dto)
        env
        id
        d
        (disburse env id dto user d)
unfolding disburse
disburse-outcome env id dto user d = elim (Option-cases (find_contract id d)) [
  | inl missing ↦ rw missing refl
  | inr (c, found) ↦ rw found (
      activate-outcome (λ x. MayDisburse x dto user d) (disbursed env dto) env id d c
        (check_disburse c dto user) found (check_disburse-IsGuarded c dto user d))
]
