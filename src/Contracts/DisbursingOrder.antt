-- ===== src/Contracts/DisbursingOrder.antt =====
-- The signatures of every contract stay in order under `signAndDisburse` (contracts.service.ts).
use coloanex_prod.Common.{All, Elem, Option, arith, true, ℕ, ◌==◌, ◌≡◌}
use coloanex_prod.Db.{Contract, by_borrower, by_tenant, Result, ok, err, Db}
use coloanex_prod.Service.{Env, find_contract, JwtPayload, write_contract}
use coloanex_prod.Contracts.SigningOrder.{
  IsInOrder, has_signature-append, count_signer-append, count_signer_zero,
}
use coloanex_prod.Contracts.Signing.{has_signature}
use coloanex_prod.Contracts.Disbursing.{
  DisburseDto, activated, tenant_signature, ensure_schedules, ensure_contract_activated_state,
  sign_and_disburse,
}
use coloanex_prod.Contracts.DisbursingLaws.{
  sign_and_disburse-outcome, MaySignAndDisburse, ActivateOutcome,
}
use coloanex_prod.Db.Membership.{All-update_where, Elem-find, All-Elem}

activated-IsInOrder :
    (env : Env) (dto : DisburseDto) (signature : ℕ) (tx_hash : Option ℕ) (c : Contract)
    → has_signature by_borrower c.signatures ≡ true
    → IsInOrder c
    → IsInOrder (activated env dto signature tx_hash c)
unfolding activated
activated-IsInOrder env dto signature tx_hash c borrower_signed h = ground (
  arith,
  has_signature-append by_borrower c.signatures (tenant_signature env signature),
  has_signature-append by_tenant c.signatures (tenant_signature env signature),
  count_signer-append by_borrower c.signatures (tenant_signature env signature),
  count_signer-append by_tenant c.signatures (tenant_signature env signature),
  count_signer_zero by_tenant c.signatures,
)

pub activated_state-contracts :
    (env : Env) (c : Contract) (d : Db)
    → (ensure_contract_activated_state env c d).contracts ≡ d.contracts
unfolding ensure_contract_activated_state ensure_schedules
activated_state-contracts env c d = ground arith

ActivateOutcome-IsInOrder :
    (P : Contract → Type 0) (f : Contract → Contract) (env : Env) (id : ℕ) (d : Db)
    (r : Result Contract × Db)
    → ((c : Contract) → P c → IsInOrder c → IsInOrder (f c))
    → ActivateOutcome P f env id d r
    → All IsInOrder d.contracts
    → All IsInOrder r.1.contracts
ActivateOutcome-IsInOrder P f env id d (err e, d') keep same h = rw same h
ActivateOutcome-IsInOrder P f env id d (ok c', d') keep (c, found, p, e, e') h =
    let listed : Elem c d.contracts =
      (Elem-find (λ x. x.id == id) c d.contracts (unfold find_contract in found)).0 in
    rw (e', activated_state-contracts env c (write_contract c.id (λ x. f c) d))
      (All-update_where IsInOrder (λ x. x.id == c.id) (λ x. f c) d.contracts
        (λ x _. keep c p (All-Elem IsInOrder c d.contracts h listed)) h)

-- Where the signatures of every contract are in order, they are so after `signAndDisburse`,
-- whether it returns or throws: it adds the tenant's signature only where it is missing and the
-- borrower has signed.
pub sign_and_disburse-IsInOrder :
    (env : Env) (id : ℕ) (dto : DisburseDto) (signature : ℕ) (tx_hash : Option ℕ)
    (user : JwtPayload) (d : Db)
    → All IsInOrder d.contracts
    → All IsInOrder (sign_and_disburse env id dto signature tx_hash user d).1.contracts
sign_and_disburse-IsInOrder env id dto signature tx_hash user d h =
    ActivateOutcome-IsInOrder (λ c. MaySignAndDisburse c dto user d)
      (activated env dto signature tx_hash) env id d
      (sign_and_disburse env id dto signature tx_hash user d)
      (λ c p. activated-IsInOrder env dto signature tx_hash c p.borrower_signed)
      (sign_and_disburse-outcome env id dto signature tx_hash user d) h
