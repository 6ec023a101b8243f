-- ===== src/Contracts/Signatures.antt =====
-- `signContract`, `signAndDisburse` and `disburse` (contracts.service.ts) leave the ledger of
-- contracts as it was.
use coloanex_prod.Common.{Elem, Option, ap, map, refl, some, ℕ, ◌==◌, ◌∙◌, ◌≡◌}
use coloanex_prod.Db.{Contract, Db, Result, ok, err, update_where, Signature}
use coloanex_prod.Service.{write_contract, Env, find_contract, JwtPayload}
use coloanex_prod.Contracts.SigningOrder.{store_signature-contracts}
use coloanex_prod.Contracts.DisbursingOrder.{activated_state-contracts}
use coloanex_prod.Contracts.SigningOutcome.{sign_contract-SignOutcome, SignOutcome}
use coloanex_prod.Contracts.Signing.{
  SignContractDto, sign_contract, stored_sign_hash, signature_of, add_signature,
}
use coloanex_prod.Contracts.Ledger.{Change, entry_of, IsSound, ledger}
use coloanex_prod.Contracts.Disbursing.{
  disbursed, DisburseDto, disburse, sign_and_disburse, activated,
}
use coloanex_prod.Contracts.DisbursingLaws.{
  MaySignAndDisburse, ActivateOutcome, disburse-outcome, sign_and_disburse-outcome, MayDisburse,
}
use coloanex_prod.Contracts.Posting.{same_ledger, replace_contract-ledger, Posts}
use coloanex_prod.Db.Membership.{Elem-find}

found_contract-Elem :
    (id : ℕ) (c : Contract) (d : Db) → find_contract id d ≡ some c → Elem c d.contracts
found_contract-Elem id c d found =
    (Elem-find (λ x. x.id == id) c d.contracts (unfold find_contract in found)).0

add_signature-entry :
    (now : ℕ) (s : Signature) (hash sign_hash : Option ℕ) (c : Contract)
    → entry_of (add_signature now s hash sign_hash c) ≡ entry_of c
unfolding add_signature
add_signature-entry now s hash sign_hash c = refl

SignOutcome-ledger :
    (env : Env) (id : ℕ) (dto : SignContractDto) (user : JwtPayload) (d : Db)
    (r : Result Contract × Db)
    → SignOutcome env id dto user d r
    → IsSound (ledger d)
    → ledger r.1 ≡ ledger d
SignOutcome-ledger env id dto user d (err e, d') q h = ap (λ (x : Db). ledger x) q
SignOutcome-ledger env id dto user d (ok c', d') (c, signer, found, role, (m, hash, due, q, e, e'))
      h =
    let sig : Signature = signature_of env dto signer in
    let sign_hash : Option ℕ = stored_sign_hash env c dto hash in
    let stored : d'.contracts
        ≡ (write_contract c.id (λ x. add_signature env.now sig hash sign_hash c) d).contracts =
      ap (λ x. x.contracts) e'
      ∙ store_signature-contracts env c sig hash sign_hash m
      ∙ ap
          (λ (x : Db).
            update_where (λ y. y.id == c.id) (λ y. add_signature env.now sig hash sign_hash c)
              x.contracts)
          q in
    ap (map entry_of) stored
    ∙ replace_contract-ledger c (add_signature env.now sig hash sign_hash c) d
        (found_contract-Elem id c d found) h (add_signature-entry env.now sig hash sign_hash c)

pub sign_contract-Posts :
    (may : Change → Type 0) (env : Env) (id : ℕ) (dto : SignContractDto) (user : JwtPayload)
    → Posts may (sign_contract env id dto user)
sign_contract-Posts may env id dto user d h =
    same_ledger may (ledger d) (ledger (sign_contract env id dto user d).1) (
      SignOutcome-ledger env id dto user d (sign_contract env id dto user d)
        (sign_contract-SignOutcome env id dto user d) h)

ActivateOutcome-ledger :
    (P : Contract → Type 0) (f : Contract → Contract) (env : Env) (id : ℕ) (d : Db)
    (r : Result Contract × Db)
    → ((c : Contract) → entry_of (f c) ≡ entry_of c)
    → ActivateOutcome P f env id d r
    → IsSound (ledger d)
    → ledger r.1 ≡ ledger d
ActivateOutcome-ledger P f env id d (err e, d') keep same h = ap (λ (x : Db). ledger x) same
ActivateOutcome-ledger P f env id d (ok c', d') keep (c, found, p, e, e') h =
    ap (λ (x : Db). ledger x) e'
    ∙ ap (map entry_of) (activated_state-contracts env c (write_contract c.id (λ x. f c) d))
    ∙ replace_contract-ledger c (f c) d (found_contract-Elem id c d found) h (keep c)

activated-entry :
    (env : Env) (dto : DisburseDto) (signature : ℕ) (tx_hash : Option ℕ) (c : Contract)
    → entry_of (activated env dto signature tx_hash c) ≡ entry_of c
unfolding activated
activated-entry env dto signature tx_hash c = refl

disbursed-entry :
    (env : Env) (dto : DisburseDto) (c : Contract) → entry_of (disbursed env dto c) ≡ entry_of c
unfolding disbursed
disbursed-entry env dto c = refl

pub sign_and_disburse-Posts :
    (may : Change → Type 0) (env : Env) (id : ℕ) (dto : DisburseDto) (signature : ℕ)
    (tx_hash : Option ℕ) (user : JwtPayload)
    → Posts may (sign_and_disburse env id dto signature tx_hash user)
sign_and_disburse-Posts may env id dto signature tx_hash user d h =
    same_ledger may (ledger d) (ledger (sign_and_disburse env id dto signature tx_hash user d).1) (
      ActivateOutcome-ledger (λ c. MaySignAndDisburse c dto user d)
        (activated env dto signature tx_hash) env id d
        (sign_and_disburse env id dto signature tx_hash user d)
        (activated-entry env dto signature tx_hash)
        (sign_and_disburse-outcome env id dto signature tx_hash user d) h)

pub disburse-Posts :
    (may : Change → Type 0) (env : Env) (id : ℕ) (dto : DisburseDto) (user : JwtPayload)
    → Posts may (disburse env id dto user)
disburse-Posts may env id dto user d h =
    same_ledger may (ledger d) (ledger (disburse env id dto user d).1) (
      ActivateOutcome-ledger (λ c. MayDisburse c dto user d) (disbursed env dto) env id d
        (disburse env id dto user d) (disbursed-entry env dto) (disburse-outcome env id dto user d)
        h)
