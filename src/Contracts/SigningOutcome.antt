-- ===== src/Contracts/SigningOutcome.antt =====
-- What `signContract` (contracts.service.ts) does, on success and on an exception.
use coloanex_prod.Common.{
  Bool, Bool-cases, Option, Option-cases, arith, false, if◌then◌else◌, inl, inr, not, refl, some,
  true, ℕ, ◌&&◌, ◌≡◌, ◌⊎◌,
}
use coloanex_prod.Db.{
  Contract, when, pure, err, Result, continue_with, Db, by_borrower, SignedBy, bad_request, Error,
  ok,
}
use coloanex_prod.Service.Quiet.{
  IsQuiet, require_decision-IsQuiet, consume-IsQuiet, when-IsQuiet, bind-IsQuiet, if-IsQuiet,
  or_throw-IsQuiet,
}
use coloanex_prod.Service.{
  input_of, Env, JwtPayload, consume, require_decision, submit, find_borrower, find_contract,
}
use coloanex_prod.Contracts.Signing.{
  sign_on_chain, chain_sign, SignContractDto, sign_as, store_signature, add_signature,
  finish_signing, stored_sign_hash, is_tenant_signer, check_order, signature_of, has_signature,
  already_signed, sign_contract, signer_of,
}
use coloanex_prod.Orchestrator.Decide.{pays_gas_user}
use coloanex_prod.Orchestrator.Frame.{OnlySubscriptions}

chain_sign-IsQuiet :
    (env : Env) (c : Contract) (dto : SignContractDto) (user_pays : Bool)
    → IsQuiet (chain_sign env c dto user_pays)
unfolding chain_sign
chain_sign-IsQuiet env c dto user_pays =
    if-IsQuiet _ _ _ (λ d. refl)
      (if-IsQuiet user_pays _ _ (λ d. refl) (or_throw-IsQuiet (submit env.chain) _))

sign_on_chain-IsQuiet :
    (env : Env) (user : JwtPayload) (c : Contract) (dto : SignContractDto)
    → IsQuiet (sign_on_chain env user c dto)
unfolding sign_on_chain
sign_on_chain-IsQuiet env user c dto =
    bind-IsQuiet (require_decision env (input_of user (some c.tenant_id))) _
      (require_decision-IsQuiet env (input_of user (some c.tenant_id)))
      (λ dec.
        bind-IsQuiet (chain_sign env c dto (pays_gas_user dec.gas_payer)) _
          (chain_sign-IsQuiet env c dto (pays_gas_user dec.gas_payer))
          (λ hash.
            bind-IsQuiet
              (when (not (pays_gas_user dec.gas_payer)) (consume env dec.subscription_id)) _
              (when-IsQuiet _ _ (consume-IsQuiet env dec.subscription_id)) (λ u d. refl)))

sign_hash-IsQuiet :
    (env : Env) (user : JwtPayload) (c : Contract) (dto : SignContractDto)
    → IsQuiet
        (if env.chain.enabled then sign_on_chain env user c dto else pure dto.blockchain_tx_hash)
sign_hash-IsQuiet env user c dto =
    if-IsQuiet env.chain.enabled _ _ (sign_on_chain-IsQuiet env user c dto) (λ d. refl)

-- A signature that the guards let through.
pub record IsDue (c : Contract) (signer : SignedBy) : Type 0 where
  pub first_time : has_signature signer c.signatures ≡ false
  pub borrower_first :
      is_tenant_signer signer ≡ true → has_signature by_borrower c.signatures ≡ true

-- How signing in a known role ends: an exception has written to subscriptions alone, and a return
-- has stored one signature that was due.
abbrev pub SignsAs :
    Env → Contract → SignContractDto → SignedBy → Db → Result Contract × Db → Type 0
SignsAs env c dto signer d (err e, d') = OnlySubscriptions d d'
SignsAs env c dto signer d (ok c', d') =
    (m : Db) × (hash : Option ℕ) × IsDue c signer
    × OnlySubscriptions d m
    × (c'
        ≡ add_signature env.now (signature_of env dto signer) hash (stored_sign_hash env c dto hash)
            c)
    × (d'
        ≡ store_signature env c (signature_of env dto signer) hash (stored_sign_hash env c dto hash)
            m)

finish_signing-SignsAs :
    (env : Env) (c : Contract) (dto : SignContractDto) (signer : SignedBy) (d : Db)
    (r : Result (Option ℕ) × Db)
    → IsDue c signer
    → OnlySubscriptions d r.1
    → SignsAs env c dto signer d (continue_with r (finish_signing env c dto signer))
unfolding finish_signing
finish_signing-SignsAs env c dto signer d (ok hash, m) due q = (m, hash, due, q, refl, refl)
finish_signing-SignsAs env c dto signer d (err e, m) due q = q

-- The guards, and what they show.
check_order-cases :
    (signer : SignedBy) (c : Contract) (d : Db)
    → ((e : Error) × (check_order signer c.signatures d ≡ (err e, d)))
      ⊎ ((check_order signer c.signatures d ≡ (ok tt, d)) × IsDue c signer)
unfolding check_order
check_order-cases signer c d = elim (Bool-cases (has_signature signer c.signatures)) [
  | inl twice ↦ inl (bad_request (already_signed signer), rw twice)
  | inr first ↦
      elim (Bool-cases (is_tenant_signer signer && not (has_signature by_borrower c.signatures))) [
        | inl early ↦ inl (
          bad_request "Borrower must sign the contract before the lender can sign",
          rw (first, early),
        )
        | inr due ↦
            inr (rw (first, due), record { first_time = first; borrower_first = ground arith })
      ]
]

sign_as-SignsAs :
    (env : Env) (c : Contract) (dto : SignContractDto) (user : JwtPayload) (signer : SignedBy)
    (d : Db)
    → SignsAs env c dto signer d (sign_as env c dto user signer d)
unfolding sign_as
sign_as-SignsAs env c dto user signer d = elim (check_order-cases signer c d) [
  | inl (e, thrown) ↦ rw thrown refl
  | inr (passed, due) ↦
      rw passed
        (finish_signing-SignsAs env c dto signer d _ due (sign_hash-IsQuiet env user c dto d))
]

-- How `signContract` ends: an exception has written to subscriptions alone, and a return has found
-- the contract and a role of the caller, and has stored one signature that was due.
abbrev pub SignOutcome : Env → ℕ → SignContractDto → JwtPayload → Db → Result Contract × Db → Type 0
SignOutcome env id dto user d (err e, d') = OnlySubscriptions d d'
SignOutcome env id dto user d (ok c', d') =
    (c : Contract) × (signer : SignedBy) × (find_contract id d ≡ some c)
    × (signer_of user (find_borrower c.tenant_id user.sub d) c ≡ some signer)
    × SignsAs env c dto signer d (ok c', d')

SignOutcome-of_SignsAs :
    (env : Env) (id : ℕ) (dto : SignContractDto) (user : JwtPayload) (d : Db) (c : Contract)
    (signer : SignedBy) (r : Result Contract × Db)
    → find_contract id d ≡ some c
    → signer_of user (find_borrower c.tenant_id user.sub d) c ≡ some signer
    → SignsAs env c dto signer d r
    → SignOutcome env id dto user d r
SignOutcome-of_SignsAs env id dto user d c signer (ok c', d') found role h =
    (c, signer, found, role, h)
SignOutcome-of_SignsAs env id dto user d c signer (err e, d') found role h = h

-- Whatever the state, the caller and the chain: an exception from `signContract` leaves everything
-- but usage windows as it was; a return has found the contract, signs in a role of the caller that
-- had not signed, for the tenant only after the borrower, and stores exactly that signature.
pub sign_contract-SignOutcome :
    (env : Env) (id : ℕ) (dto : SignContractDto) (user : JwtPayload) (d : Db)
    → SignOutcome env id dto user d (sign_contract env id dto user d)
unfolding sign_contract
sign_contract-SignOutcome env id dto user d = elim (Option-cases (find_contract id d)) [
  | inl missing ↦ rw missing refl
  | inr (c, found) ↦ elim (Option-cases (signer_of user (find_borrower c.tenant_id user.sub d) c)) [
    | inl stranger ↦ rw (found, stranger) refl
    | inr (signer, role) ↦
        rw (found, role)
          (SignOutcome-of_SignsAs env id dto user d c signer (sign_as env c dto user signer d) found
            role (sign_as-SignsAs env c dto user signer d))
  ]
]
