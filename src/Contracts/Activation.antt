-- ===== src/Contracts/Activation.antt =====
-- From a generated contract to an active one: `signContract` by the borrower, then `signAndDisburse`
-- by the lender (contracts.service.ts), without the chain.
use coloanex_prod.Common.{
  All, List, Option, [], any, ap, arith, false, find, if◌then◌else◌, none, refl, some, true, ℕ, ◌<◌,
  ◌==◌, ◌∙◌, ◌∷◌, ◌≡◌, ◌≢◌, ◌⊎◌,
}
use coloanex_prod.Db.{
  Contract, Db, ok, ContractStatus, by_borrower, Result, err, LoanStatus, update_where, Loan,
}
use coloanex_prod.Service.{write_contract, Env, find_contract, find_borrower, JwtPayload}
use coloanex_prod.Contracts.Signing.{
  add_signature, SignContractDto, check_order, finish_signing, signer_of, sign_as, sign_contract,
  signature_of, store_signature, stored_sign_hash, is_fully_signed,
}
use coloanex_prod.Contracts.Disbursing.{
  is_outsider, requires_payment, resolved_tx, DisburseDto, of_contract, ensure_payment,
  check_sign_and_disburse, sign_and_disburse, terms_of, ensure_contract_activated_state,
  ensure_schedules, activated,
}
use coloanex_prod.Db.Membership.{find-update_where}
use coloanex_prod.Contracts.ScheduleOnce.{ensure_schedules-of_contract}
use coloanex_prod.Contracts.Installments.{total_installments_of}
use coloanex_prod.Contracts.DisbursingOrder.{activated_state-contracts}

-- A contract of at least one installment that waits for its signatures, a borrower who may sign it,
-- and a lender of its tenant who pays out by a method without a gateway and names no transaction.
pub record IsReady (env : Env) (id : ℕ) (c : Contract) (borrower_user lender_user : JwtPayload)
    (dto : DisburseDto) (d : Db) : Type 0 where
  pub chain_off : env.chain.enabled ≡ false
  pub found : find_contract id d ≡ some c
  pub unsigned : c.signatures ≡ []
  pub is_generated : c.status ≡ ContractStatus.generated
  pub may_sign :
      signer_of borrower_user (find_borrower c.tenant_id borrower_user.sub d) c ≡ some by_borrower
  pub insider : is_outsider lender_user c ≡ false
  pub no_gateway : requires_payment dto.method ≡ false
  pub has_installment : 0 < total_installments_of (terms_of c)
  pub no_reference : resolved_tx dto c ≡ none

-- The contract after the borrower's signature.
abbrev pub signed_once : Env → SignContractDto → Contract → Contract
signed_once env dto c =
    add_signature env.now (signature_of env dto by_borrower) dto.blockchain_tx_hash
      (stored_sign_hash env c dto dto.blockchain_tx_hash) c

sign_contract_returns :
    (env : Env) (id : ℕ) (dto : SignContractDto) (user : JwtPayload) (c : Contract) (d : Db)
    → env.chain.enabled ≡ false
    → find_contract id d ≡ some c
    → c.signatures ≡ []
    → signer_of user (find_borrower c.tenant_id user.sub d) c ≡ some by_borrower
    → sign_contract env id dto user d
      ≡ (ok (signed_once env dto c), write_contract c.id (λ x. signed_once env dto c) d)
unfolding sign_contract sign_as check_order finish_signing store_signature
sign_contract_returns env id dto user c d off found unsigned role =
    rw (found, role, unsigned, off) refl

id_self : (n : ℕ) → n == n ≡ true
id_self n = ground arith

-- The contract is found again after the signature.
find_signed :
    (id : ℕ) (c c' : Contract) (d : Db)
    → find_contract id d ≡ some c
    → c'.id ≡ c.id
    → find_contract id (write_contract c.id (λ x. c') d) ≡ some c'
unfolding find_contract
find_signed id c c' d found same =
    find-update_where (λ x. x.id == id) (λ x. x.id == c.id) (λ x. c') d.contracts c
      (λ x. ground arith) found
    ∙ ap (λ b. some (if b then c' else c)) (id_self c.id)

check_passes :
    (env : Env) (id : ℕ) (c : Contract) (sdto : SignContractDto) (dto : DisburseDto)
    (borrower_user lender_user : JwtPayload) (d x : Db)
    → IsReady env id c borrower_user lender_user dto d
    → check_sign_and_disburse (signed_once env sdto c) dto lender_user x ≡ (ok tt, x)
unfolding check_sign_and_disburse add_signature ensure_payment
check_passes env id c sdto dto borrower_user lender_user d x h =
    rw (h.insider, h.unsigned, h.is_generated, h.no_gateway, h.no_reference) refl

-- The contract, the loan and the answer after both calls.
abbrev pub IsActivated : ℕ → Contract → Result Contract × Db → Type 0
IsActivated id c (err e, d) = ⊥
IsActivated id c (ok c', d) =
    (c'.status ≡ ContractStatus.active)
    × (is_fully_signed c'.signatures ≡ true)
    × (find_contract id d ≡ some c')
    × All (λ l. (l.id ≢ c.loan_id) ⊎ (l.status ≡ LoanStatus.loan_provided)) d.loans
    × (any (of_contract c.id) d.schedules ≡ true)

loans_provided :
    (id : ℕ) (ls : List Loan)
    → All
        (λ l. (l.id ≢ id) ⊎ (l.status ≡ LoanStatus.loan_provided))
        (update_where (λ l. l.id == id) (λ l. record l { status = LoanStatus.loan_provided }) ls)
loans_provided id [] = tt
loans_provided id (l ∷ ls) = (ground arith, loans_provided id ls)

find_contract-contracts :
    (id : ℕ) (x y : Db) → x.contracts ≡ y.contracts → find_contract id x ≡ find_contract id y
unfolding find_contract
find_contract-contracts id x y e = ap (find (λ c. c.id == id)) e

activation_end :
    (env : Env) (id : ℕ) (c c' : Contract) (d : Db)
    → find_contract id d ≡ some c
    → c'.id ≡ c.id
    → c'.status ≡ ContractStatus.active
    → is_fully_signed c'.signatures ≡ true
    → 0 < total_installments_of (terms_of c)
    → IsActivated id c
        (ok c', ensure_contract_activated_state env c (write_contract c.id (λ x. c') d))
unfolding ensure_contract_activated_state
activation_end env id c c' d found same is_active full h =
    let d' : Db = write_contract c.id (λ x. c') d in
    (
      is_active,
      full,
      find_contract-contracts id (ensure_contract_activated_state env c d') d'
            (activated_state-contracts env c d')
          ∙ find_signed id c c' d found same,
      loans_provided c.loan_id (ensure_schedules env c d').loans,
      ensure_schedules-of_contract env c d' h,
    )

-- Without the chain, a GENERATED contract of at least one installment that nobody has signed, whose
-- borrower signs and whose lender then signs and pays out by a method without a gateway, becomes
-- ACTIVE, where neither the request nor the contract names a transaction of the disbursement: both
-- calls return, the contract has both signatures and a schedule, and its loan is LOAN_PROVIDED.
pub sign-sign_and_disburse :
    (env : Env) (id : ℕ) (c : Contract) (sdto : SignContractDto) (dto : DisburseDto) (signature : ℕ)
    (hash : Option ℕ) (borrower_user lender_user : JwtPayload) (d : Db)
    → IsReady env id c borrower_user lender_user dto d
    → IsActivated id c (
        sign_and_disburse env id dto signature hash lender_user
          (sign_contract env id sdto borrower_user d).1)
unfolding sign_and_disburse add_signature activated
sign-sign_and_disburse env id c sdto dto signature hash borrower_user lender_user d h =
    let c1 : Contract = signed_once env sdto c in
    let d1 : Db = write_contract c.id (λ x. c1) d in
    let found1 : find_contract id d1 ≡ some c1 = find_signed id c c1 d h.found refl in
    rw
      (
        sign_contract_returns env id sdto borrower_user c d h.chain_off h.found h.unsigned
            h.may_sign,
        found1,
        check_passes env id c sdto dto borrower_user lender_user d d1 h,
      )
      (activation_end env id c1 (activated env dto signature hash c1) d1 found1 refl refl
        (rw h.unsigned refl) h.has_installment)
