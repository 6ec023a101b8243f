-- ===== src/Service.antt =====
-- What every request handler of coloanex-api shares: the caller, the clock, the identifiers and the
-- chain that it is given, and the call of the orchestrator with its refusal.
pub mod Quiet
pub mod Guarded
pub mod Reading
use coloanex_prod.Common.{
  Bool, List, Option, any, false, find, get_or, if◌then◌else◌, none, some, true, ℕ, ◌&&◌, ◌==◌,
}
use coloanex_prod.Db.{
  ok, err, Role, lender, PlatformType, app, web, Contract, Loan, Borrower, Transaction, Action,
  bad_request, update_where, Db,
}
use coloanex_prod.Orchestrator.Decide.{
  orchestrate, is_borrower_role, OrchestrationInput, is_super_admin_role, OrchestrationDecision,
}
use coloanex_prod.Orchestrator.Usage.{consume_usage}

-- `JwtPayload`.
pub record JwtPayload : Type 0 where
  pub sub : ℕ
  pub tenant_id : Option ℕ
  pub roles : List Role

abbrev pub is_lender_role : Role → Bool
is_lender_role lender = true
is_lender_role _ = false

abbrev pub is_super_admin : JwtPayload → Bool
is_super_admin user = any is_super_admin_role user.roles

abbrev pub is_borrower : JwtPayload → Bool
is_borrower user = any is_borrower_role user.roles

abbrev pub is_lender : JwtPayload → Bool
is_lender user = any is_lender_role user.roles

abbrev pub resolve_platform : JwtPayload → PlatformType
resolve_platform user = if is_borrower user then app else web

-- blockchain.service.ts: `reply` is the transaction that the chain (ethers, third-party) answers
-- with, none where it fails; `ready` is that the registries were set up.
pub record Blockchain : Type 0 where
  pub enabled : Bool
  pub ready : Bool
  pub reply : Option ℕ

-- The shape of every `record…`, `update…`, `delete…` and `sign…` method: null if the service is
-- disabled or not set up, and otherwise the hash of the transaction or null.
unfoldable pub submit : Blockchain → Option ℕ
submit chain = if chain.enabled then if chain.ready then chain.reply else none else none

-- The calendar of the JavaScript `Date`: an instant so many days or months later, in local time.
pub record Calendar : Type 0 where
  pub add_days : ℕ → ℕ → ℕ
  pub add_months : ℕ → ℕ → ℕ

-- The instant of a request, its fresh identifiers (`randomUUID`), the chain's answer and
-- the calendar.
pub record Env : Type 0 where
  pub now : ℕ
  pub uuid : ℕ → ℕ
  pub chain : Blockchain
  pub calendar : Calendar

-- A call of `orchestrate` for the caller, with no wallet or mode of its own choosing.
abbrev pub input_of : JwtPayload → Option ℕ → OrchestrationInput
input_of user tenant_id = record {
  user_id = user.sub;
  tenant_id = tenant_id;
  platform = some (resolve_platform user);
  user_roles = user.roles;
  preferred_wallet_id = none;
  requested_gas_payment_mode = none;
}

-- `orchestrate`, and the exception that follows when the decision is not eligible.
unfoldable pub require_decision : Env → OrchestrationInput → Action OrchestrationDecision
require_decision env input d =
    let (dec, d') = orchestrate env.now input d in
    if dec.eligible
    then (ok dec, d')
    else (err (bad_request (get_or dec.denial_reason "Transaction blocked by policy")), d')

-- `consumeUsage`.
unfoldable pub consume : Env → Option ℕ → Action (Unit {0})
consume env subscription_id d = (ok tt, consume_usage env.now subscription_id d)

unfoldable pub find_contract : ℕ → Db → Option Contract
find_contract id d = find (λ c. c.id == id) d.contracts

unfoldable pub find_loan : ℕ → Db → Option Loan
find_loan id d = find (λ l. l.id == id) d.loans

unfoldable pub find_borrower_by_id : ℕ → Db → Option Borrower
find_borrower_by_id id d = find (λ b. b.id == id) d.borrowers

-- The unique key `tenantId_userId`.
unfoldable pub find_borrower : ℕ → ℕ → Db → Option Borrower
find_borrower tenant_id user_id d =
    find (λ b. b.tenant_id == tenant_id && b.user_id == user_id) d.borrowers

unfoldable pub find_transaction : ℕ → Db → Option Transaction
find_transaction id d = find (λ t. t.id == id) d.transactions

abbrev pub write_contract : ℕ → (Contract → Contract) → Db → Db
write_contract id f d = record d { contracts = update_where (λ c. c.id == id) f d.contracts }

abbrev pub write_loan : ℕ → (Loan → Loan) → Db → Db
write_loan id f d = record d { loans = update_where (λ l. l.id == id) f d.loans }
