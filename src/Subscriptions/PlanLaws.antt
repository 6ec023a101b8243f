-- ===== src/Subscriptions/PlanLaws.antt =====
-- Subscriptions keep their plans through the operations on plans.
use coloanex_prod.Common.{
  All, Bool, Bool-cases, Distinct, Elem, List, Option, [], any, ap, arith, false, get_or,
  if◌then◌else◌, inl, inr, map, none, not, refl, some, true, ℕ, ◌++◌, ◌==◌, ◌∙◌, ◌∷◌, ◌≡◌, ◌⊎◌,
}
use coloanex_prod.Service.{JwtPayload, is_super_admin, Env}
use coloanex_prod.Db.{
  delete_where, update_where, some_or_throw, throw_if, ◌>>◌, Error, Action, ◌>>=◌, SubscriptionPlan,
  Db, Subscription,
}
use coloanex_prod.Db.Membership.{Distinct-Elem, update_where-Elem, Elem-find, delete_where-Elem}
use coloanex_prod.Subscriptions.Plans.{
  edited_plan, is_code_taken, update_plan, is_plan_used, remove_plan, find_plan, upsert_plan,
  create_plan, new_plan, rewritten_plan, CreatePlanDto, find_plan_by_id, follow_plan, UpdatePlanDto,
}

abbrev pub HasPlan : List SubscriptionPlan → Subscription → Type 0
HasPlan ps s = (p : SubscriptionPlan) × Elem p ps × (p.code ≡ s.plan)

-- Every subscription stands for a plan of the table.
abbrev pub HasPlans : Db → Type 0
HasPlans d = All (HasPlan d.plans) d.subscriptions

-- Plans that keep every code keep the plans of the subscriptions.
HasPlan-mono :
    (ps qs : List SubscriptionPlan) (ss : List Subscription)
    → ((p : SubscriptionPlan) → Elem p ps → (q : SubscriptionPlan) × Elem q qs × (q.code ≡ p.code))
    → All (HasPlan ps) ss
    → All (HasPlan qs) ss
HasPlan-mono ps qs [] h k = tt
HasPlan-mono ps qs (s ∷ ss) h ((p, m, e), k) =
    let (q, m', e') = h p m in ((q, m', e' ∙ e), HasPlan-mono ps qs ss h k)

Elem-append : {A : Type 0} (a : A) (xs ys : List A) → Elem a xs ⊎ Elem a ys → Elem a (xs ++ ys)
Elem-append a [] ys (inl h) = elim h [ ]
Elem-append a [] ys (inr h) = h
Elem-append a (x ∷ xs) ys (inl (inl e)) = inl e
Elem-append a (x ∷ xs) ys (inl (inr h)) = inr (Elem-append a xs ys (inl h))
Elem-append a (x ∷ xs) ys (inr h) = inr (Elem-append a xs ys (inr h))

pub found_plan :
    (code : ℕ) (p : SubscriptionPlan) (d : Db)
    → find_plan code d ≡ some p
    → Elem p d.plans × (p.code ≡ code)
unfolding find_plan
found_plan code p d e =
    let (m, h) = Elem-find (λ x. x.code == code) p d.plans e in (m, ground arith)

found_plan_by_id :
    (id : ℕ) (p : SubscriptionPlan) (d : Db)
    → find_plan_by_id id d ≡ some p
    → Elem p d.plans × (p.id ≡ id)
unfolding find_plan_by_id
found_plan_by_id id p d e =
    let (m, h) = Elem-find (λ x. x.id == id) p d.plans e in (m, ground arith)

-- A plan whose code an update keeps.
code_kept :
    (q : SubscriptionPlan → Bool) (f : SubscriptionPlan → SubscriptionPlan)
    (ps : List SubscriptionPlan) (p : SubscriptionPlan)
    → (q p ≡ true → (f p).code ≡ p.code)
    → Elem p ps
    → (p' : SubscriptionPlan) × Elem p' (update_where q f ps) × (p'.code ≡ p.code)
code_kept q f ps p keep m = (
  if q p then f p else p,
  update_where-Elem q f p ps m,
  elim (Bool-cases (q p)) [ inl e ↦ rw e (keep e) | inr e ↦ rw e refl ],
)

upsert_plan-HasPlans :
    (env : Env) (dto : CreatePlanDto) (o : Option SubscriptionPlan) (d : Db)
    → HasPlans d
    → HasPlans (upsert_plan env dto o d)
unfolding upsert_plan
upsert_plan-HasPlans env dto none d h =
    HasPlan-mono d.plans (d.plans ++ new_plan env dto ∷ []) d.subscriptions
      (λ p m. (p, Elem-append p d.plans (new_plan env dto ∷ []) (inl m), refl)) h
upsert_plan-HasPlans env dto (some q) d h =
    HasPlan-mono d.plans (update_where (λ x. x.code == dto.code) (rewritten_plan dto) d.plans)
      d.subscriptions
      (λ p m. code_kept (λ x. x.code == dto.code) (rewritten_plan dto) d.plans p (λ e. refl) m) h

-- The plan with an identifier is one.
same_plan :
    (p q : SubscriptionPlan) (ps : List SubscriptionPlan) (id : ℕ)
    → Distinct (map (λ x. x.id) ps)
    → Elem p ps
    → Elem q ps
    → p.id ≡ id
    → (q.id == id) ≡ true
    → q.code ≡ p.code
same_plan p q ps id ids mp mq e h =
    ap (λ x. x.code) (Distinct-Elem (λ x. x.id) q p ps ids mq mp (ground arith))

-- A subscription of a plan that gets another code follows it, and the others keep theirs.
HasPlan-follow_plan :
    (dto : UpdatePlanDto) (p : SubscriptionPlan) (ps : List SubscriptionPlan) (s : Subscription)
    → Distinct (map (λ x. x.id) ps)
    → Elem p ps
    → HasPlan ps s
    → HasPlan
        (update_where (λ x. x.id == p.id) (edited_plan dto) ps)
        (if s.plan == p.code then record s { plan = get_or dto.code p.code } else s)
HasPlan-follow_plan dto p ps s ids mp (q, mq, e) = elim (Bool-cases (s.plan == p.code)) [
  | inl own ↦
      let m = update_where-Elem (λ x. x.id == p.id) (edited_plan dto) p ps mp in
      let t : (p.id == p.id) ≡ true = ground arith in
      rw own ((if p.id == p.id then edited_plan dto p else p), m, rw t refl)
  | inr other ↦
      let (q', m, e') =
        code_kept (λ x. x.id == p.id) (edited_plan dto) ps q
          (λ h. let g = same_plan p q ps p.id ids mp mq refl h in ground arith) mq in
      rw other (q', m, e' ∙ e)
]

All-follow_plan :
    (dto : UpdatePlanDto) (p : SubscriptionPlan) (ps : List SubscriptionPlan)
    (ss : List Subscription)
    → Distinct (map (λ x. x.id) ps)
    → Elem p ps
    → All (HasPlan ps) ss
    → All
        (HasPlan (update_where (λ x. x.id == p.id) (edited_plan dto) ps))
        (follow_plan p.code (get_or dto.code p.code) ss)
All-follow_plan dto p ps [] ids mp h = tt
All-follow_plan dto p ps (s ∷ ss) ids mp h =
    (HasPlan-follow_plan dto p ps s ids mp h.0, All-follow_plan dto p ps ss ids mp h.1)

HasPlan-delete :
    (id : ℕ) (p : SubscriptionPlan) (ps : List SubscriptionPlan) (ss : List Subscription)
    → Distinct (map (λ x. x.id) ps)
    → Elem p ps
    → p.id ≡ id
    → any (λ s. s.plan == p.code) ss ≡ false
    → All (HasPlan ps) ss
    → All (HasPlan (delete_where (λ x. x.id == id) ps)) ss
HasPlan-delete id p ps [] ids mp e unused h = tt
HasPlan-delete id p ps (s ∷ ss) ids mp e unused ((q, mq, c), h) =
    let stays : (q.id == id) ≡ false = elim (Bool-cases (q.id == id)) [
      | inl t ↦ let g = same_plan p q ps id ids mp mq e t in ground arith
      | inr n ↦ n
    ] in
    let rest : any (λ x. x.plan == p.code) ss ≡ false = ground arith in
    (
      (q, delete_where-Elem (λ x. x.id == id) q ps stays mq, c),
      HasPlan-delete id p ps ss ids mp e rest h,
    )

-- A guard in front of a part that keeps a property of the database.
pub after_guard :
    (P : Db → Type 0) (c : Bool) (e : Error) (m : Action (Unit {0})) (d : Db)
    → P d
    → (c ≡ false → P (m d).1)
    → P ((throw_if c e >> m) d).1
after_guard P true e m d h k = h
after_guard P false e m d h k = k refl

pub after_find :
    {A : Type 0} (P : Db → Type 0) (o : Option A) (e : Error) (m : A → Action (Unit {0})) (d : Db)
    → P d
    → ((a : A) → o ≡ some a → P (m a d).1)
    → P ((some_or_throw o e >>= m) d).1
after_find P none e m d h k = h
after_find P (some a) e m d h k = k a refl

pub create_plan-HasPlans :
    (env : Env) (dto : CreatePlanDto) (user : JwtPayload) (d : Db)
    → HasPlans d
    → HasPlans (create_plan env dto user d).1
unfolding create_plan
create_plan-HasPlans env dto user d h =
    after_guard HasPlans (not (is_super_admin user)) _ _ d h
      (λ e. upsert_plan-HasPlans env dto (find_plan dto.code d) d h)

pub update_plan-HasPlans :
    (id : ℕ) (dto : UpdatePlanDto) (user : JwtPayload) (d : Db)
    → Distinct (map (λ x. x.id) d.plans)
    → HasPlans d
    → HasPlans (update_plan id dto user d).1
unfolding update_plan
update_plan-HasPlans id dto user d ids h =
    after_guard HasPlans (not (is_super_admin user)) _ _ d h λ e.
      after_find HasPlans (find_plan_by_id id d) _ _ d h λ p f.
        after_guard HasPlans (is_code_taken id (get_or dto.code p.code) d) _ _ d h
          λ free. All-follow_plan dto p d.plans d.subscriptions ids (found_plan_by_id id p d f).0 h

pub remove_plan-HasPlans :
    (id : ℕ) (user : JwtPayload) (d : Db)
    → Distinct (map (λ x. x.id) d.plans)
    → HasPlans d
    → HasPlans (remove_plan id user d).1
unfolding remove_plan
remove_plan-HasPlans id user d ids h = after_guard HasPlans (not (is_super_admin user)) _ _ d h λ e.
    after_find HasPlans (find_plan_by_id id d) _ _ d h λ p f.
      after_guard HasPlans (is_plan_used p.code d) _ _ d h λ unused.
        let (m, g) = found_plan_by_id id p d f in
        HasPlan-delete id p d.plans d.subscriptions ids m g unused h
