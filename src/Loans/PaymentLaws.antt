-- ===== src/Loans/PaymentLaws.antt =====
-- What `makePayment` (loans.service.ts) writes.
use coloanex_prod.Common.{Option, ap, none, refl, some, sym, ℕ, ◌∙◌, ◌≡◌}
use coloanex_prod.Db.{
  Contract, Db, Action, Result, ok, err, continue_with, pure, Loan, kyc_entity, ActivityAction,
}
use coloanex_prod.Service.{Env, input_of, require_decision, JwtPayload}
use coloanex_prod.Contracts.Drafting.{find_contract_of_loan}
use coloanex_prod.Orchestrator.Frame.{OnlySubscriptions}
use coloanex_prod.Service.Quiet.{require_decision-IsQuiet, consume-IsQuiet, bind-IsQuiet, IsQuiet}
use coloanex_prod.Loans.Apply.{log_activity}
use coloanex_prod.Loans.Guards.{check_payer-same}
use coloanex_prod.Loans.Review.{decide_repayment, check_payer, make_payment}

-- Nothing but usage windows and the activity log has changed.
abbrev pub OnlyBookkeeping : Db → Db → Type 0
OnlyBookkeeping d d' = d' ≡ record d { subscriptions = d'.subscriptions; logs = d'.logs }

decide_repayment-IsQuiet :
    (env : Env) (l : Loan) (user : JwtPayload) (c : Option Contract)
    → IsQuiet (decide_repayment env l user c)
unfolding decide_repayment
decide_repayment-IsQuiet env l user none d = refl
decide_repayment-IsQuiet env l user (some c) d =
    bind-IsQuiet (require_decision env (input_of user (some l.tenant_id))) _
      (require_decision-IsQuiet env (input_of user (some l.tenant_id)))
      (λ dec. consume-IsQuiet env dec.subscription_id) d

continue_with-OnlyBookkeeping :
    {A B : Type 0} (d : Db) (r : Result A × Db) (f : A → Action B)
    → r.1 ≡ d
    → ((a : A) → OnlyBookkeeping d (f a d).1)
    → OnlyBookkeeping d (continue_with r f).1
continue_with-OnlyBookkeeping d (ok a, d') f s k = rw s (k a)
continue_with-OnlyBookkeeping d (err e, d') f s k = rw s refl

bookkept : (d x y : Db) → OnlyBookkeeping d x → OnlySubscriptions x y → OnlyBookkeeping d y
bookkept d x y h q =
    q
    ∙ ap (λ (z : Db). record z { subscriptions = y.subscriptions }) h
    ∙ ap (λ l. record d { subscriptions = y.subscriptions; logs = l })
        (sym (ap (λ (z : Db). z.logs) q))

answered :
    {A B : Type 0} (d x : Db) (r : Result A × Db) (b : B)
    → OnlyBookkeeping d x
    → OnlySubscriptions x r.1
    → OnlyBookkeeping d (continue_with r (λ a. pure b)).1
answered d x (ok a, d') b h q = bookkept d x d' h q
answered d x (err e, d') b h q = bookkept d x d' h q

-- Whatever the payment, and whether it is answered or refused, `makePayment` writes to usage windows
-- and to the activity log alone: no contract, schedule, transaction or loan changes.
pub make_payment-OnlyBookkeeping :
    (env : Env) (id amount : ℕ) (user : JwtPayload) (d : Db)
    → OnlyBookkeeping d (make_payment env id amount user d).1
unfolding make_payment log_activity
make_payment-OnlyBookkeeping env id amount user d =
    continue_with-OnlyBookkeeping d (check_payer id user d) _ (check_payer-same id user d) λ l.
      let x : Db = log_activity user ActivityAction.create kyc_entity id d in
      answered d x (decide_repayment env l user (find_contract_of_loan id x) x) amount refl
        (decide_repayment-IsQuiet env l user (find_contract_of_loan id x) x)
