-- ===== src/Contracts/SigningOrder.antt =====
-- The signatures of every contract stay in order under `signContract` (contracts.service.ts).
use coloanex_prod.Common.{
  All, Elem, List, Option, [], ap, arith, false, if◌then◌else◌, refl, true, ℕ, ◌++◌, ◌+◌, ◌==◌,
  ◌||◌, ◌∷◌, ◌≡◌, ◌≤◌,
}
use coloanex_prod.Db.{
  ok, err, Contract, ContractStatus, Signature, SignedBy, by_borrower, by_tenant, update_where,
  Result, Db,
}
use coloanex_prod.Service.{JwtPayload, find_contract, Env}
use coloanex_prod.Contracts.SigningOutcome.{SignOutcome, sign_contract-SignOutcome, IsDue}
use coloanex_prod.Contracts.Signing.{
  has_signature, sign_contract, add_signature, signature_of, store_signature, SignContractDto,
  stored_sign_hash, same_signer, is_fully_signed,
}
use coloanex_prod.Db.Membership.{All-Elem, Elem-find, All-update_where}

abbrev pub count_signer : SignedBy → List Signature → ℕ
count_signer signer [] = 0
count_signer signer (s ∷ sigs) =
    (if same_signer s.signed_by signer then 1 else 0) + count_signer signer sigs

-- Nobody has signed twice, the tenant has not signed before the borrower, and a SIGNED contract has
-- both signatures.
pub record IsInOrder (c : Contract) : Type 0 where
  pub borrower_once : count_signer by_borrower c.signatures ≤ 1
  pub tenant_once : count_signer by_tenant c.signatures ≤ 1
  pub borrower_first :
      has_signature by_tenant c.signatures ≡ true → has_signature by_borrower c.signatures ≡ true
  pub signed_by_both : c.status ≡ ContractStatus.signed → is_fully_signed c.signatures ≡ true

pub has_signature-append :
    (signer : SignedBy) (sigs : List Signature) (s : Signature)
    → has_signature signer (sigs ++ s ∷ [])
      ≡ (has_signature signer sigs || same_signer s.signed_by signer)
has_signature-append signer [] s = ground arith
has_signature-append signer (x ∷ sigs) s = ground (arith, has_signature-append signer sigs s)

pub count_signer-append :
    (signer : SignedBy) (sigs : List Signature) (s : Signature)
    → count_signer signer (sigs ++ s ∷ [])
      ≡ count_signer signer sigs + (if same_signer s.signed_by signer then 1 else 0)
count_signer-append signer [] s = omega arith
count_signer-append signer (x ∷ sigs) s = omega (arith, count_signer-append signer sigs s)

pub count_signer_zero :
    (signer : SignedBy) (sigs : List Signature)
    → has_signature signer sigs ≡ false
    → count_signer signer sigs ≡ 0
count_signer_zero signer [] h = refl
count_signer_zero signer (x ∷ sigs) h = ground (arith, count_signer_zero signer sigs)

add_signature-IsInOrder :
    (now : ℕ) (s : Signature) (hash sign_hash : Option ℕ) (c : Contract)
    → IsDue c s.signed_by
    → IsInOrder c
    → IsInOrder (add_signature now s hash sign_hash c)
unfolding add_signature
add_signature-IsInOrder now s hash sign_hash c due h = ground (
  arith,
  has_signature-append by_borrower c.signatures s,
  has_signature-append by_tenant c.signatures s,
  count_signer-append by_borrower c.signatures s,
  count_signer-append by_tenant c.signatures s,
  count_signer_zero s.signed_by c.signatures,
)

pub store_signature-contracts :
    (env : Env) (c : Contract) (sig : Signature) (hash sign_hash : Option ℕ) (d : Db)
    → (store_signature env c sig hash sign_hash d).contracts
      ≡ update_where
          (λ x. x.id == c.id)
          (λ x. add_signature env.now sig hash sign_hash c)
          d.contracts
unfolding store_signature
store_signature-contracts env c sig hash sign_hash d = ground arith

SignOutcome-IsInOrder :
    (env : Env) (id : ℕ) (dto : SignContractDto) (user : JwtPayload) (d : Db)
    (r : Result Contract × Db)
    → SignOutcome env id dto user d r
    → All IsInOrder d.contracts
    → All IsInOrder r.1.contracts
SignOutcome-IsInOrder env id dto user d (err e, d') q h = rw (ap (λ x. x.contracts) q) h
SignOutcome-IsInOrder env id dto user d (ok c', d')
      (c, signer, found, role, (m, hash, due, q, e, e')) h =
    let listed : Elem c d.contracts =
      (Elem-find (λ x. x.id == id) c d.contracts (unfold find_contract in found)).0 in
    let stored : All IsInOrder m.contracts = rw (ap (λ x. x.contracts) q) h in
    rw
      (
        e',
        store_signature-contracts env c (signature_of env dto signer) hash
            (stored_sign_hash env c dto hash) m,
      )
      (All-update_where IsInOrder (λ x. x.id == c.id) _ m.contracts
        (λ x _.
          add_signature-IsInOrder env.now (signature_of env dto signer) hash
            (stored_sign_hash env c dto hash) c due (All-Elem IsInOrder c d.contracts h listed))
        stored)

-- Where the signatures of every contract are in order (each party has signed at most once, the
-- tenant only with the borrower, and a SIGNED contract has both signatures), they are so after
-- `signContract`, whether it returns or throws.
pub sign_contract-IsInOrder :
    (env : Env) (id : ℕ) (dto : SignContractDto) (user : JwtPayload) (d : Db)
    → All IsInOrder d.contracts
    → All IsInOrder (sign_contract env id dto user d).1.contracts
sign_contract-IsInOrder env id dto user d h =
    SignOutcome-IsInOrder env id dto user d (sign_contract env id dto user d)
      (sign_contract-SignOutcome env id dto user d) h
