-- ===== src/Loans/Apply.antt =====
-- loans.service.ts: `create`, `findOne`, `checkExistingLoan`, `getMyLoans` and `getMyLatest`. The mail
-- that follows a creation is I/O, and is never sent: the new loan is a draft.
use coloanex_prod.Common.{
  Bool, List, Option, String, [], any, filter, get_or, head?, if◌then◌else◌, is_number, none, not,
  or_else, some, ℕ, ◌&&◌, ◌++◌, ◌==◌, ◌∷◌,
}
use coloanex_prod.Db.{
  Loan, LoanStatus, Borrower, Action, pure, some_or_throw, bad_request, find_or_throw,
  find_many_desc, unique_violation, not_found, throw_if, ok, gets, modify, err, Db,
  ActivityEntityType, kyc_entity, ActivityAction, ◌>>◌, ◌>>=◌,
}
use coloanex_prod.Service.{
  JwtPayload, is_super_admin, find_borrower, require_decision, submit, consume, is_borrower, Env,
  find_loan, input_of, is_lender,
}

pub record CreateLoanDto : Type 0 where
  pub id : Option ℕ
  pub tenant_id : Option ℕ
  pub user_id : Option ℕ
  pub requested_amount : ℕ
  pub purpose : ℕ
  pub collateral_details : ℕ
  pub requested_term_months : ℕ
  pub blockchain_tx_hash : Option ℕ

-- Whose loan is created, and in which tenant.
pub record LoanTarget : Type 0 where
  pub tenant_id : ℕ
  pub user_id : ℕ

unfoldable pub target_from : Option ℕ → String → Option ℕ → String → Action LoanTarget
target_from tenant_id no_tenant user_id no_user = do
  t ← some_or_throw tenant_id (bad_request no_tenant)
  u ← some_or_throw user_id (bad_request no_user)
  pure (record { tenant_id = t; user_id = u })

-- The branches on the caller's role.
unfoldable pub loan_target : CreateLoanDto → JwtPayload → Action LoanTarget
unfolding target_from
loan_target dto user =
    if is_super_admin user
    then target_from dto.tenant_id "Super Admin must provide tenant ID when creating loan"
        dto.user_id "Super Admin must provide user ID when creating loan"
    else if is_lender user
    then target_from user.tenant_id "Lender must have a tenant ID" dto.user_id
        "Lender must provide user ID when creating loan"
    else if is_borrower user
    then target_from dto.tenant_id "Borrower must provide tenant ID when applying for loan"
        (some user.sub) ""
    else target_from user.tenant_id "User must have a tenant ID" dto.user_id
        "Tenant user must provide user ID when creating loan"

abbrev pub new_loan : Env → CreateLoanDto → LoanTarget → Borrower → Option ℕ → Loan
new_loan env dto target b hash = record {
  id = get_or dto.id (env.uuid 0);
  tenant_id = target.tenant_id;
  borrower_id = b.id;
  rule_id = none;
  requested_amount = dto.requested_amount;
  approved_amount = none;
  requested_term_months = dto.requested_term_months;
  approved_term_months = none;
  purpose = dto.purpose;
  collateral_details = dto.collateral_details;
  status = LoanStatus.draft;
  rejection_reason = none;
  blockchain_tx_hash = hash;
  created_at = env.now;
}

-- `loan.create`, refused where the identifier is taken.
unfoldable pub insert_loan : Loan → Action (Unit {0})
insert_loan l d =
    if any (λ x. x.id == l.id) d.loans
    then (err unique_violation, d)
    else (ok tt, record d { loans = d.loans ++ l ∷ [] })

-- `activityLogsService.logUserActivity`
unfoldable pub log_activity : JwtPayload → ActivityAction → ActivityEntityType → ℕ → Db → Db
log_activity user action entity id d = record d {
  logs =
      d.logs
      ++ record { actor_user_id = user.sub; entity_type = entity; entity_id = id; action = action }
        ∷ [];
}

-- The guards of `create`: the target, and its borrower.
unfoldable pub check_create_loan : CreateLoanDto → JwtPayload → Action (LoanTarget × Borrower)
unfolding loan_target
check_create_loan dto user = do
  target ← loan_target dto user
  b ←
      find_or_throw (find_borrower target.tenant_id target.user_id)
        (bad_request "Borrower not found. User must be registered as a borrower first.")
  pure (target, b)

unfoldable pub create_loan : Env → CreateLoanDto → JwtPayload → Action Loan
unfolding check_create_loan
create_loan env dto user = do
  (target, b) ← check_create_loan dto user
  dec ← require_decision env (input_of user (some target.tenant_id))
  let l = new_loan env dto target b (or_else dto.blockchain_tx_hash (submit env.chain))
  insert_loan l
  modify (log_activity user ActivityAction.create kyc_entity l.id)
  consume env dec.subscription_id
  pure l

-- The user behind a loan's borrower.
abbrev pub is_loan_of_user : ℕ → Loan → Db → Bool
is_loan_of_user user_id l d = any (λ b. b.id == l.borrower_id && b.user_id == user_id) d.borrowers

-- Loans that `findOne` keeps from the caller.
unfoldable pub is_hidden_loan : JwtPayload → Loan → Db → Bool
is_hidden_loan user l d =
    if is_borrower user
    then not (is_loan_of_user user.sub l d)
    else not (is_super_admin user) && not (is_number user.tenant_id l.tenant_id)

-- `findOne(id, user)`
unfoldable pub find_one_loan : ℕ → JwtPayload → Action Loan
find_one_loan id user = do
  l ← find_or_throw (find_loan id) (not_found "Loan not found")
  hidden ← gets (is_hidden_loan user l)
  throw_if hidden (not_found "Loan not found")
  pure l

-- The loans of a user's borrower records in some of the tenants.
unfoldable pub loans_of : (Borrower → Bool) → Db → List Loan
loans_of mine d =
    find_many_desc (λ l. l.created_at)
      (λ l. any (λ b. b.id == l.borrower_id) (filter mine d.borrowers)) d.loans

abbrev pub of_borrower_user : JwtPayload → Borrower → Bool
of_borrower_user user b = b.user_id == user.sub

abbrev pub brief : Option Loan → Option (ℕ × LoanStatus)
brief none = none
brief (some l) = some (l.id, l.status)

-- The answer none is `hasLoan: false`.
unfoldable pub check_existing_loan : ℕ → JwtPayload → Action (Option (ℕ × LoanStatus))
check_existing_loan tenant_id user = do
  throw_if (not (is_borrower user)) (bad_request "Only borrowers can check for existing loans")
  loans ← gets (loans_of (λ b. of_borrower_user user b && b.tenant_id == tenant_id))
  pure (brief (head? loans))

unfoldable pub get_my_loans : JwtPayload → Action (List Loan)
get_my_loans user = do
  throw_if (not (is_borrower user)) (bad_request "Only borrowers can view their loans")
  gets (loans_of (of_borrower_user user))

unfoldable pub get_my_latest : JwtPayload → Action (Option Loan)
get_my_latest user = do
  throw_if (not (is_borrower user)) (bad_request "Only borrowers can view their loans")
  loans ← gets (loans_of (of_borrower_user user))
  pure (head? loans)
