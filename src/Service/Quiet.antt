-- ===== src/Service/Quiet.antt =====
-- The parts of a handler that write to the subscriptions table alone, whether they return or throw.
use coloanex_prod.Common.{Bool, Option, arith, false, if◌then◌else◌, none, refl, some, true, ℕ}
use coloanex_prod.Db.{ok, err, ◌>>=◌, when, Action, Error, Result, or_throw, Db, continue_with}
use coloanex_prod.Orchestrator.Frame.{
  OnlySubscriptions, orchestrate-OnlySubscriptions, OnlySubscriptions-trans,
  consume_usage-OnlySubscriptions,
}
use coloanex_prod.Service.{consume, require_decision, Env}
use coloanex_prod.Orchestrator.Decide.{OrchestrationInput}

abbrev pub IsQuiet : {A : Type 0} → Action A → Type 0
IsQuiet m = (d : Db) → OnlySubscriptions d (m d).1

continue_with-OnlySubscriptions :
    {A B : Type 0} (d : Db) (r : Result A × Db) (f : A → Action B)
    → OnlySubscriptions d r.1
    → ((a : A) → IsQuiet (f a))
    → OnlySubscriptions d (continue_with r f).1
continue_with-OnlySubscriptions d (ok a, d') f q qf =
    OnlySubscriptions-trans d d' (f a d').1 q (qf a d')
continue_with-OnlySubscriptions d (err e, d') f q qf = q

-- A sequence of quiet parts is quiet.
pub bind-IsQuiet :
    {A B : Type 0} (m : Action A) (f : A → Action B)
    → IsQuiet m
    → ((a : A) → IsQuiet (f a))
    → IsQuiet (m >>= f)
bind-IsQuiet m f qm qf d = continue_with-OnlySubscriptions d (m d) f (qm d) qf

pub require_decision-IsQuiet :
    (env : Env) (input : OrchestrationInput) → IsQuiet (require_decision env input)
unfolding require_decision
require_decision-IsQuiet env input d = ground (arith, orchestrate-OnlySubscriptions env.now input d)

pub consume-IsQuiet : (env : Env) (id : Option ℕ) → IsQuiet (consume env id)
unfolding consume
consume-IsQuiet env id d = consume_usage-OnlySubscriptions env.now id d

pub when-IsQuiet : (c : Bool) (m : Action (Unit {0})) → IsQuiet m → IsQuiet (when c m)
when-IsQuiet true m q d = q d
when-IsQuiet false m q d = refl

pub or_throw-IsQuiet : {A : Type 0} (o : Option A) (e : Error) → IsQuiet (or_throw o e)
or_throw-IsQuiet none e d = refl
or_throw-IsQuiet (some a) e d = refl

pub if-IsQuiet :
    {A : Type 0} (c : Bool) (m n : Action A) → IsQuiet m → IsQuiet n → IsQuiet (if c then m else n)
if-IsQuiet true m n qm qn d = qm d
if-IsQuiet false m n qm qn d = qn d
