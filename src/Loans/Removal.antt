-- ===== src/Loans/Removal.antt =====
-- What `remove` (loans.service.ts) leaves behind.
use coloanex_prod.Common.{All, Option-cases, false, inl, inr, refl, some, subst, sym, ℕ, ◌==◌, ◌≡◌}
use coloanex_prod.Db.{
  Db, Result, ok, err, ◌>>◌, when, modify, continue_with, Loan, kyc_entity, ActivityAction,
}
use coloanex_prod.Service.{Env, JwtPayload, find_loan}
use coloanex_prod.Contracts.Drafting.{same_loan}
use coloanex_prod.Contracts.Editing.{delete_schedules}
use coloanex_prod.Orchestrator.Frame.{OnlySubscriptions}
use coloanex_prod.Service.Quiet.{when-IsQuiet}
use coloanex_prod.Loans.Apply.{log_activity}
use coloanex_prod.Loans.Change.{
  is_payment_on_loan, is_on_loan, delete_loan_on_chain, delete_loan, remove_loan,
}
use coloanex_prod.Loans.Posting.{delete_loan_on_chain-IsQuiet}
use coloanex_prod.Db.Membership.{delete_where-All}

-- Nothing of a loan is left: not the loan, no contract of it, no schedule and no transaction of a
-- contract that it had.
pub record IsGone (id : ℕ) (d d' : Db) : Type 0 where
  pub loan_gone : All (λ l. (l.id == id) ≡ false) d'.loans
  pub contract_gone : All (λ c. same_loan id c ≡ false) d'.contracts
  pub schedules_gone : All (λ s. is_on_loan id d s.contract_id ≡ false) d'.schedules
  pub transactions_gone : All (λ t. is_payment_on_loan id d t ≡ false) d'.transactions

delete_loan-IsGone : (id : ℕ) (d : Db) → IsGone id d (delete_loan id d)
unfolding delete_loan delete_schedules
delete_loan-IsGone id d = record {
  loan_gone = delete_where-All (λ l. l.id == id) d.loans;
  contract_gone = delete_where-All (same_loan id) d.contracts;
  schedules_gone = delete_where-All (λ s. is_on_loan id d s.contract_id) d.schedules;
  transactions_gone = delete_where-All (is_payment_on_loan id d) _;
}

-- How `remove` ends: an exception has written to subscriptions alone, and a return has found the
-- loan and has left nothing of it.
abbrev pub LoanRemoveOutcome : ℕ → Db → Result (Unit {0}) × Db → Type 0
LoanRemoveOutcome id d (err e, d') = OnlySubscriptions d d'
LoanRemoveOutcome id d (ok u, d') = (l : Loan) × (find_loan id d ≡ some l) × IsGone id d d'

-- Usage windows and the log do not matter.
IsGone-transport :
    (id : ℕ) (d x y y' : Db)
    → OnlySubscriptions d x
    → y' ≡ record y { logs = y'.logs }
    → IsGone id x y
    → IsGone id d y'
IsGone-transport id d x y y' q e g =
    let k : IsGone id (record d { subscriptions = x.subscriptions }) (record y { logs = y'.logs }) =
      subst (λ z. IsGone id z (record y { logs = y'.logs })) q
        (record {
          loan_gone = g.loan_gone;
          contract_gone = g.contract_gone;
          schedules_gone = g.schedules_gone;
          transactions_gone = g.transactions_gone;
        }) in
    subst (λ z. IsGone id d z) (sym e)
      (record {
        loan_gone = k.loan_gone;
        contract_gone = k.contract_gone;
        schedules_gone = k.schedules_gone;
        transactions_gone = k.transactions_gone;
      })

remove_end :
    (id : ℕ) (user : JwtPayload) (d : Db) (l : Loan) (r : Result (Unit {0}) × Db)
    → find_loan id d ≡ some l
    → OnlySubscriptions d r.1
    → LoanRemoveOutcome id d (
        continue_with r (λ u.
          modify (delete_loan id)
          >> modify (log_activity user ActivityAction.delete kyc_entity id)))
unfolding log_activity
remove_end id user d l (err e, x) found q = q
remove_end id user d l (ok u, x) found q =
    (l, found, IsGone-transport id d x (delete_loan id x) _ q refl (delete_loan-IsGone id x))

-- An exception from `remove` leaves everything but usage windows as it was. A return has found the
-- loan and has removed it with its contract and with the schedules and the transactions of that
-- contract.
pub remove_loan-LoanRemoveOutcome :
    (env : Env) (id : ℕ) (user : JwtPayload) (d : Db)
    → LoanRemoveOutcome id d (remove_loan env id user d)
unfolding remove_loan
remove_loan-LoanRemoveOutcome env id user d = elim (Option-cases (find_loan id d)) [
  | inl missing ↦ rw missing refl
  | inr (l, found) ↦ rw found (
      remove_end id user d l (when env.chain.enabled (delete_loan_on_chain env l user) d) found (
        when-IsQuiet env.chain.enabled (delete_loan_on_chain env l user)
          (delete_loan_on_chain-IsQuiet env l user) d))
]
