-- ===== src/Loans/Change.antt =====
-- loans.service.ts: `update` and `remove`. The chain's data beside its hash is left out: it is there
-- only with a hash.
use coloanex_prod.Common.{
  Bool, Option, any, false, get_or, if◌then◌else◌, is_number, is_some, none, not, or_else, some, ℕ,
  ◌&&◌, ◌==◌, ◌||◌,
}
use coloanex_prod.Db.{
  Loan, Borrower, Action, pure, some_or_throw, bad_request, find_or_throw, delete_where, modify,
  or_throw, throw_if, when, not_found, Transaction, ActivityAction, kyc_entity, Db, ◌>>◌, ◌>>=◌,
}
use coloanex_prod.Service.{
  is_borrower, find_borrower, find_loan, consume, write_loan, submit, require_decision, is_lender,
  JwtPayload, find_borrower_by_id, input_of, Env, is_super_admin,
}
use coloanex_prod.Contracts.Drafting.{same_loan}
use coloanex_prod.Contracts.Editing.{delete_schedules}
use coloanex_prod.Orchestrator.Decide.{pays_gas_user}
use coloanex_prod.Loans.Apply.{find_one_loan, log_activity}

-- `PartialType(CreateLoanDto)`, with the fields that `update` reads.
pub record UpdateLoanDto : Type 0 where
  pub tenant_id : Option ℕ
  pub user_id : Option ℕ
  pub requested_amount : Option ℕ
  pub purpose : Option ℕ
  pub collateral_details : Option ℕ
  pub requested_term_months : Option ℕ
  pub blockchain_tx_hash : Option ℕ

pub record UpdateTarget : Type 0 where
  pub tenant_id : ℕ
  pub user_id : ℕ
  pub should_update : Bool

abbrev pub kept_target : ℕ → Borrower → UpdateTarget
kept_target tenant_id own = record {
  tenant_id = tenant_id;
  user_id = own.user_id;
  should_update = false;
}

abbrev pub super_admin_target : Option ℕ → Option ℕ → Loan → Borrower → UpdateTarget
super_admin_target (some t) (some u) l own = record {
  tenant_id = t;
  user_id = u;
  should_update = not (l.tenant_id == t) || not (own.user_id == u);
}
super_admin_target (some t) none l own = kept_target l.tenant_id own
super_admin_target none u l own = kept_target l.tenant_id own

abbrev pub member_target : ℕ → Option ℕ → Borrower → UpdateTarget
member_target tenant_id none own = kept_target tenant_id own
member_target tenant_id (some u) own = record {
  tenant_id = tenant_id;
  user_id = u;
  should_update = not (own.user_id == u);
}

-- The branches on the caller's role.
unfoldable pub update_target : UpdateLoanDto → JwtPayload → Loan → Borrower → Action UpdateTarget
update_target dto user l own =
    if is_super_admin user
    then pure (super_admin_target dto.tenant_id dto.user_id l own)
    else if is_lender user
    then (do
      t ← some_or_throw user.tenant_id (bad_request "Lender must have a tenant ID")
      pure (member_target t dto.user_id own))
    else if is_borrower user
    then (do
      throw_if (not (own.user_id == user.sub))
          (bad_request "You can only update your own loan applications")
      pure (kept_target l.tenant_id own))
    else (do
      t ← some_or_throw user.tenant_id (bad_request "User must have a tenant ID")
      pure (member_target t dto.user_id own))

-- The borrower of the loan afterwards.
unfoldable pub target_borrower : UpdateTarget → Borrower → Action Borrower
target_borrower target own =
    if target.should_update
    then find_or_throw (find_borrower target.tenant_id target.user_id)
        (bad_request "Borrower not found. User must be registered as a borrower first.")
    else pure own

abbrev pub edited_loan : UpdateLoanDto → UpdateTarget → Borrower → Loan → Loan
edited_loan dto target b l = record l {
  requested_amount = get_or dto.requested_amount l.requested_amount;
  purpose = get_or dto.purpose l.purpose;
  collateral_details = get_or dto.collateral_details l.collateral_details;
  requested_term_months = get_or dto.requested_term_months l.requested_term_months;
  tenant_id = if target.should_update then target.tenant_id else l.tenant_id;
  borrower_id = if target.should_update then b.id else l.borrower_id;
}

-- The hash that an update on the chain leaves.
unfoldable pub chain_loan_update : Env → Loan → UpdateLoanDto → Bool → Action (Option ℕ)
chain_loan_update env l dto user_pays =
    let known = or_else dto.blockchain_tx_hash l.blockchain_tx_hash in
    if not user_pays && not (is_some dto.blockchain_tx_hash)
    then or_throw (or_else (submit env.chain) known)
        (bad_request "Blockchain update failed. Cannot update loan without blockchain record.")
    else pure known

unfoldable pub store_loan_hash : ℕ → Option ℕ → Db → Db
store_loan_hash id none d = d
store_loan_hash id (some hash) d =
    write_loan id (λ l. record l { blockchain_tx_hash = some hash }) d

-- The part under `if (this.blockchainService.isEnabled())`.
unfoldable pub update_loan_on_chain :
    Env → Loan → UpdateLoanDto → ℕ → JwtPayload → Action (Unit {0})
unfolding chain_loan_update store_loan_hash
update_loan_on_chain env l dto tenant_id user = do
  dec ← require_decision env (input_of user (some tenant_id))
  hash ← chain_loan_update env l dto (pays_gas_user dec.gas_payer)
  modify (store_loan_hash l.id hash)
  consume env dec.subscription_id

-- What the guards of `update` find.
pub record UpdateParts : Type 0 where
  pub of_loan : Loan
  pub target : UpdateTarget
  pub new_borrower : Borrower

unfoldable pub check_update_loan : ℕ → UpdateLoanDto → JwtPayload → Action UpdateParts
unfolding update_target target_borrower
check_update_loan id dto user = do
  l ← find_one_loan id user
  own ←
      find_or_throw (find_borrower_by_id l.borrower_id)
        (not_found "Borrower not found for this loan")
  target ← update_target dto user l own
  b ← target_borrower target own
  pure (record { of_loan = l; target = target; new_borrower = b })

unfoldable pub update_loan : Env → ℕ → UpdateLoanDto → JwtPayload → Action Loan
unfolding check_update_loan
update_loan env id dto user = do
  p ← check_update_loan id dto user
  modify (write_loan id (edited_loan dto p.target p.new_borrower))
  when env.chain.enabled (update_loan_on_chain env p.of_loan dto p.target.tenant_id user)
  modify (log_activity user ActivityAction.update kyc_entity id)
  pure (edited_loan dto p.target p.new_borrower p.of_loan)

-- The orchestration of a deletion. The chain's answer is only logged.
unfoldable pub delete_loan_on_chain : Env → Loan → JwtPayload → Action (Unit {0})
delete_loan_on_chain env l user = do
  dec ← require_decision env (input_of user (some l.tenant_id))
  consume env dec.subscription_id

abbrev pub is_on_loan : ℕ → Db → ℕ → Bool
is_on_loan loan_id d contract_id =
    any (λ c. c.id == contract_id && c.loan_id == loan_id) d.contracts

abbrev pub is_payment_on_loan : ℕ → Db → Transaction → Bool
is_payment_on_loan loan_id d t =
    any (λ c. is_number t.contract_id c.id && c.loan_id == loan_id) d.contracts

-- The `$transaction` of `remove`: schedules, transactions, contract and loan.
unfoldable pub delete_loan : ℕ → Db → Db
delete_loan id d =
    let d' = delete_schedules (λ s. is_on_loan id d s.contract_id) d in
    record d' {
      transactions = delete_where (is_payment_on_loan id d') d'.transactions;
      contracts = delete_where (same_loan id) d'.contracts;
      loans = delete_where (λ l. l.id == id) d'.loans;
    }

unfoldable pub remove_loan : Env → ℕ → JwtPayload → Action (Unit {0})
remove_loan env id user = do
  l ← find_or_throw (find_loan id) (not_found "Loan not found")
  when env.chain.enabled (delete_loan_on_chain env l user)
  modify (delete_loan id)
  modify (log_activity user ActivityAction.delete kyc_entity id)
