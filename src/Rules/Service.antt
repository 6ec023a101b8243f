-- ===== src/Rules/Service.antt =====
-- rules.service.ts: `create`, `findOne`, `update` and `remove`. Names, loan limits and penalties, which
-- no modelled handler reads, are left out; of the chain's JSON the row keeps that there is one.
use coloanex_prod.Common.{
  Bool, List, Option, [], any, get_or, if◌then◌else◌, is_number, is_some, map, none, not, or_else,
  some, true, ℕ, ◌&&◌, ◌++◌, ◌==◌, ◌||◌, ◌∷◌,
}
use coloanex_prod.Service.{JwtPayload, consume, Env, submit, is_super_admin}
use coloanex_prod.Contracts.Drafting.{find_rule}
use coloanex_prod.Db.{
  update_where, delete_where, or_throw, Action, foreign_key_violation, some_or_throw,
  unique_violation, internal, gets, not_found, throw_if, forbidden, ok, find_or_throw, pure, throw,
  modify, err, PaymentFrequency, Loan, Rule, Db, web, ◌>>◌, ◌>>=◌,
}
use coloanex_prod.Orchestrator.Decide.{
  orchestrate, OrchestrationDecision, pays_gas_user, OrchestrationInput,
}
use coloanex_prod.Payments.Verify.{recorded}

pub record RuleDto : Type 0 where
  pub id : Option ℕ
  pub tenant_id : Option ℕ
  pub interest_rate : Option ℕ
  pub allowed_frequencies : Option (List PaymentFrequency)
  pub is_active : Option Bool
  pub is_publicly_visible : Option Bool
  pub blockchain_tx_hash : Option ℕ
  pub has_chain_data : Bool

abbrev pub rule_input : JwtPayload → ℕ → OrchestrationInput
rule_input user tenant_id = record {
  user_id = user.sub;
  tenant_id = some tenant_id;
  platform = some web;
  user_roles = user.roles;
  preferred_wallet_id = none;
  requested_gas_payment_mode = none;
}

-- `orchestrate` on the web, and the exception that follows when the decision is not eligible.
unfoldable pub require_allowed : Env → JwtPayload → ℕ → Action OrchestrationDecision
require_allowed env user tenant_id d =
    let (dec, d') = orchestrate env.now (rule_input user tenant_id) d in
    if dec.eligible
    then (ok dec, d')
    else (err (forbidden (get_or dec.denial_reason "Transaction blocked by policy")), d')

-- The rule as it is created, with the hash of `recordRule` or of the request. The fields that the
-- request must have are given; the two flags are true by default.
abbrev pub new_rule : Env → RuleDto → ℕ → ℕ → List PaymentFrequency → Option ℕ → Rule
new_rule env dto tenant_id rate frequencies recorded = record {
  id = get_or dto.id (env.uuid 0);
  tenant_id = tenant_id;
  interest_rate = rate;
  allowed_frequencies = frequencies;
  is_active = get_or dto.is_active true;
  is_publicly_visible = get_or dto.is_publicly_visible true;
  blockchain_tx_hash = or_else recorded dto.blockchain_tx_hash;
  has_chain_data = is_some recorded || dto.has_chain_data;
}

-- The tenant of a new rule.
unfoldable pub tenant_of_rule : RuleDto → JwtPayload → Action ℕ
tenant_of_rule dto user = some_or_throw (or_else dto.tenant_id user.tenant_id) (
    forbidden (
      if is_super_admin user
      then "Tenant ID is required"
      else "Only tenant users can create rules"))

-- The record of a new rule on the chain, where the request names no identifier.
unfoldable pub record_rule : Env → RuleDto → Action (Option ℕ)
record_rule env dto =
    if env.chain.enabled && not (is_some dto.id)
    then or_throw (submit env.chain)
        (internal "Blockchain transaction failed. Cannot create rule without blockchain record.")
    else pure none

-- `rule.create`; `tenant_exists` is that the tenants' table has the rule's tenant.
unfoldable pub insert_rule : Bool → Rule → Action (Unit {0})
insert_rule tenant_exists r = do
  taken ← gets (λ d. any (λ x. x.id == r.id) d.rules)
  throw_if taken unique_violation
  throw_if (not tenant_exists) foreign_key_violation
  modify (λ d. record d { rules = d.rules ++ r ∷ [] })

unfoldable pub create_rule :
    Bool → Env → RuleDto → ℕ → List PaymentFrequency → JwtPayload → Action (Unit {0})
create_rule tenant_exists env dto rate frequencies user = do
  tenant_id ← tenant_of_rule dto user
  dec ← require_allowed env user tenant_id
  throw_if (pays_gas_user dec.gas_payer && not (is_some dto.id))
      (forbidden "USER_WALLET mode requires client wallet signing for rule creation.")
  recorded ← record_rule env dto
  insert_rule tenant_exists (new_rule env dto tenant_id rate frequencies recorded)
  consume env dec.subscription_id

-- The guards of `findOne` on what it found.
abbrev pub is_hidden_rule : Option ℕ → Rule → Bool
is_hidden_rule (some tenant_id) r = not (r.tenant_id == tenant_id)
is_hidden_rule none r = not r.is_publicly_visible || not r.is_active

unfoldable pub find_one_rule : ℕ → Option ℕ → Action Rule
find_one_rule id tenant_id = do
  r ← find_or_throw (find_rule id) (not_found "Rule not found")
  throw_if (is_hidden_rule tenant_id r) (
      if is_some tenant_id
      then forbidden "You can only view your own rules"
      else not_found "Rule not found")
  pure r

-- What `update` writes: every field of the request that is given, the identifier and the tenant
-- among them.
abbrev pub edited_rule : RuleDto → Option ℕ → Rule → Rule
edited_rule dto updated r = record r {
  id = get_or dto.id r.id;
  tenant_id = get_or dto.tenant_id r.tenant_id;
  interest_rate = get_or dto.interest_rate r.interest_rate;
  allowed_frequencies = get_or dto.allowed_frequencies r.allowed_frequencies;
  is_active = get_or dto.is_active r.is_active;
  is_publicly_visible = get_or dto.is_publicly_visible r.is_publicly_visible;
  blockchain_tx_hash = or_else updated (or_else dto.blockchain_tx_hash r.blockchain_tx_hash);
  has_chain_data = is_some updated || (dto.has_chain_data || r.has_chain_data);
}

-- The hash of `updateRule` on the chain.
unfoldable pub update_rule_on_chain : Env → RuleDto → Rule → Action (Option ℕ)
update_rule_on_chain env dto r =
    let known =
      is_some dto.blockchain_tx_hash
      || is_some r.blockchain_tx_hash
      || dto.has_chain_data
      || r.has_chain_data in
    if env.chain.enabled && not (is_some dto.blockchain_tx_hash || dto.has_chain_data)
    then if is_some (submit env.chain) || known
      then pure (submit env.chain)
      else throw
          (internal "Blockchain update failed. Cannot update rule without blockchain record.")
    else pure none

-- The foreign keys of contracts and loans follow the identifier of a rule (`onUpdate: Cascade`).
abbrev pub follow_rule : ℕ → ℕ → Db → Db
follow_rule id id' d = record d {
  contracts = update_where (λ c. c.rule_id == id) (λ c. record c { rule_id = id' }) d.contracts;
  loans = update_where (λ l. is_number l.rule_id id) (λ l. record l { rule_id = some id' }) d.loans;
}

unfoldable pub write_rule : Bool → RuleDto → Option ℕ → Rule → Action (Unit {0})
write_rule tenant_exists dto updated r = do
  taken ← gets (λ d. any (λ x. not (x.id == r.id) && x.id == get_or dto.id r.id) d.rules)
  throw_if taken unique_violation
  throw_if (not tenant_exists) foreign_key_violation
  modify (λ d. record (follow_rule r.id (get_or dto.id r.id) d) {
    rules = update_where (λ x. x.id == r.id) (edited_rule dto updated) d.rules;
  })

unfoldable pub update_rule : Bool → Env → ℕ → RuleDto → JwtPayload → Action (Unit {0})
update_rule tenant_exists env id dto user = do
  r ← find_or_throw (find_rule id) (not_found "Rule not found")
  throw_if (not (is_number user.tenant_id r.tenant_id))
      (forbidden "You can only update your own rules")
  dec ← require_allowed env user r.tenant_id
  throw_if (pays_gas_user dec.gas_payer && not (is_some dto.blockchain_tx_hash))
      (forbidden "USER_WALLET mode requires wallet-signed update hash for rule updates.")
  updated ← update_rule_on_chain env dto r
  write_rule tenant_exists dto updated r
  consume env dec.subscription_id

abbrev pub forget_rule : ℕ → Loan → Loan
forget_rule id l = record l { rule_id = if is_number l.rule_id id then none else l.rule_id }

-- `rule.delete`: a contract restricts it, and loans forget the rule.
unfoldable pub delete_rule : ℕ → Action (Unit {0})
delete_rule id = do
  used ← gets (λ d. any (λ c. c.rule_id == id) d.contracts)
  throw_if used foreign_key_violation
  modify (λ d. record d {
    rules = delete_where (λ x. x.id == id) d.rules;
    loans = map (forget_rule id) d.loans;
  })

unfoldable pub remove_rule : Env → ℕ → JwtPayload → Action (Unit {0})
remove_rule env id user = do
  r ← find_or_throw (find_rule id) (not_found "Rule not found")
  throw_if (not (is_number user.tenant_id r.tenant_id))
      (forbidden "You can only delete your own rules")
  dec ← require_allowed env user r.tenant_id
  throw_if (pays_gas_user dec.gas_payer)
      (forbidden "USER_WALLET mode rule deletion must be submitted through wallet-signed web flow.")
  throw_if (env.chain.enabled && not (is_some (submit env.chain)))
      (internal "Failed to record rule deletion on blockchain")
  delete_rule id
  consume env dec.subscription_id
