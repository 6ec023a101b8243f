-- ===== src/Contracts/Signing.antt =====
-- contracts.service.ts, `signContract`: the borrower signs first, the tenant second, and the second
-- signature makes the contract SIGNED. Times of signatures and the merged JSON of the chain are kept
-- only as the signing hash.
use coloanex_prod.Common.{
  Bool, List, Option, String, [], any, false, if◌then◌else◌, is_number, is_some, none, not, or_else,
  some, true, ℕ, ◌&&◌, ◌++◌, ◌==◌, ◌||◌, ◌∷◌,
}
use coloanex_prod.Db.{
  pure, throw, gets, modify, when, forbidden, Contract, ContractStatus, LoanStatus, Signature,
  SignedBy, by_borrower, by_tenant, Borrower, Action, bad_request, find_or_throw, some_or_throw,
  not_found, throw_if, Db, or_throw, ◌>>◌, ◌>>=◌,
}
use coloanex_prod.Orchestrator.Decide.{pays_gas_user}
use coloanex_prod.Service.{
  is_super_admin, find_borrower, JwtPayload, require_decision, write_contract, find_contract,
  consume, input_of, Env, write_loan, submit,
}

-- `data_sign_tx_hash` is the key `signTxHash` of `blockchainData`.
pub record SignContractDto : Type 0 where
  pub signature : ℕ
  pub ip_address : Option ℕ
  pub blockchain_tx_hash : Option ℕ
  pub has_blockchain_data : Bool
  pub data_sign_tx_hash : Option ℕ

abbrev pub same_signer : SignedBy → SignedBy → Bool
same_signer by_borrower by_borrower = true
same_signer by_tenant by_tenant = true
same_signer by_borrower by_tenant = false
same_signer by_tenant by_borrower = false

-- `signatures.some((s) => s.signedBy === signer)`
abbrev pub has_signature : SignedBy → List Signature → Bool
has_signature signer sigs = any (λ s. same_signer s.signed_by signer) sigs

abbrev pub is_borrower_of : Option Borrower → Contract → Bool
is_borrower_of none c = false
is_borrower_of (some b) c = b.id == c.borrower_id

-- In which role the caller signs; none is the exception.
unfoldable pub signer_of : JwtPayload → Option Borrower → Contract → Option SignedBy
signer_of user own c =
    if is_number user.tenant_id c.tenant_id || is_super_admin user
    then some by_tenant
    else if is_borrower_of own c
    then some by_borrower
    else none

abbrev pub already_signed : SignedBy → String
already_signed by_borrower = "Borrower has already signed this contract"
already_signed by_tenant = "Tenant has already signed this contract"

abbrev pub is_tenant_signer : SignedBy → Bool
is_tenant_signer by_tenant = true
is_tenant_signer by_borrower = false

-- The guards on the order of signatures.
unfoldable pub check_order : SignedBy → List Signature → Action (Unit {0})
check_order signer sigs = do
  throw_if (has_signature signer sigs) (bad_request (already_signed signer))
  throw_if (is_tenant_signer signer && not (has_signature by_borrower sigs))
      (bad_request "Borrower must sign the contract before the lender can sign")

-- `mergedBlockchainData.signTxHash`
abbrev pub merged_sign_hash : Contract → SignContractDto → Option ℕ
merged_sign_hash c dto = or_else dto.data_sign_tx_hash c.sign_tx_hash

-- The hash that signing on the chain leaves, when the service is enabled and has decided: a client's,
-- one that is already there, or a new one.
unfoldable pub chain_sign : Env → Contract → SignContractDto → Bool → Action (Option ℕ)
chain_sign env c dto user_pays =
    let known =
      or_else dto.blockchain_tx_hash (or_else (merged_sign_hash c dto) c.blockchain_tx_hash) in
    let from_client = is_some dto.blockchain_tx_hash || dto.has_blockchain_data in
    if from_client || is_some known
    then pure known
    else if user_pays
    then throw (bad_request "USER_WALLET contract signing requires wallet-signed transaction hash.")
    else or_throw (submit env.chain) (
        bad_request
          "Blockchain signing failed. Cannot complete contract signing without blockchain record.")

-- The part under `if (this.blockchainService.isEnabled())`.
unfoldable pub sign_on_chain : Env → JwtPayload → Contract → SignContractDto → Action (Option ℕ)
unfolding require_decision consume chain_sign
sign_on_chain env user c dto = do
  dec ← require_decision env (input_of user (some c.tenant_id))
  hash ← chain_sign env c dto (pays_gas_user dec.gas_payer)
  when (not (pays_gas_user dec.gas_payer)) (consume env dec.subscription_id)
  pure hash

-- The contract after a further signature.
unfoldable pub add_signature : ℕ → Signature → Option ℕ → Option ℕ → Contract → Contract
add_signature now sig hash sign_hash c =
    let sigs = c.signatures ++ sig ∷ [] in
    let both = has_signature by_borrower sigs && has_signature by_tenant sigs in
    record c {
      signatures = sigs;
      status = if both then ContractStatus.signed else c.status;
      signed_at = if both then some now else c.signed_at;
      blockchain_tx_hash = or_else hash c.blockchain_tx_hash;
      sign_tx_hash = sign_hash;
    }

abbrev pub is_fully_signed : List Signature → Bool
is_fully_signed sigs = has_signature by_borrower sigs && has_signature by_tenant sigs

-- The `$transaction` at the end.
unfoldable pub store_signature : Env → Contract → Signature → Option ℕ → Option ℕ → Db → Db
store_signature env c sig hash sign_hash d =
    let d' = write_contract c.id (λ x. add_signature env.now sig hash sign_hash c) d in
    if is_fully_signed (c.signatures ++ sig ∷ [])
    then write_loan c.loan_id (λ l. record l { status = LoanStatus.contract_signed }) d'
    else d'

abbrev pub signature_of : Env → SignContractDto → SignedBy → Signature
signature_of env dto signer = record {
  signed_by = signer;
  signature = dto.signature;
  signed_at = env.now;
  ip_address = dto.ip_address;
}

-- `blockchainData.signTxHash` as it is stored.
abbrev pub stored_sign_hash : Env → Contract → SignContractDto → Option ℕ → Option ℕ
stored_sign_hash env c dto hash =
    let merged = merged_sign_hash c dto in if env.chain.enabled then or_else hash merged else merged

-- What follows the chain: the signature is added and stored.
unfoldable pub finish_signing :
    Env → Contract → SignContractDto → SignedBy → Option ℕ → Action Contract
unfolding store_signature
finish_signing env c dto signer hash = do
  let sig = signature_of env dto signer
  let sign_hash = stored_sign_hash env c dto hash
  modify (store_signature env c sig hash sign_hash)
  pure (add_signature env.now sig hash sign_hash c)

-- The part of `signContract` once the caller's role is known.
unfoldable pub sign_as : Env → Contract → SignContractDto → JwtPayload → SignedBy → Action Contract
unfolding check_order sign_on_chain finish_signing
sign_as env c dto user signer = do
  check_order signer c.signatures
  hash ← if env.chain.enabled then sign_on_chain env user c dto else pure dto.blockchain_tx_hash
  finish_signing env c dto signer hash

unfoldable pub sign_contract : Env → ℕ → SignContractDto → JwtPayload → Action Contract
sign_contract env id dto user = do
  c ← find_or_throw (find_contract id) (not_found "Contract not found")
  own ← gets (find_borrower c.tenant_id user.sub)
  signer ←
      some_or_throw (signer_of user own c)
        (forbidden "You do not have permission to sign this contract")
  sign_as env c dto user signer
