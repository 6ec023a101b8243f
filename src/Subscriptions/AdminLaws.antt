-- ===== src/Subscriptions/AdminLaws.antt =====
-- What the administration of plans and subscriptions keeps.
use coloanex_prod.Common.{
  Bool, Bool-cases, Distinct, Option, Option-cases, any, false, inl, inr, map, none, not, refl,
  some, true, ℕ, ◌==◌, ◌≡◌, ◌⊎◌,
}
use coloanex_prod.Service.{JwtPayload, is_super_admin, Env}
use coloanex_prod.Contracts.LedgerLaws.{All-snoc, All-delete_where}
use coloanex_prod.Db.Membership.{All-update_where}
use coloanex_prod.Db.{◌>>◌, err, forbidden, Action, SubscriptionPlan, Db, Subscription}
use coloanex_prod.Subscriptions.Plans.{
  update_plan, remove_plan, find_plan, create_plan, CreatePlanDto, UpdatePlanDto,
}
use coloanex_prod.Subscriptions.Admin.{
  owner_of, remove_subscription, CreateSubscriptionDto, create_subscription, change_subscription,
  grant, new_grant, shares_key, write_subscription, check_plan, granted, edited_subscription,
  UpdateSubscriptionDto,
}
use coloanex_prod.Subscriptions.Purchase.{same_scope, owned_in, find_same_plan}
use coloanex_prod.Subscriptions.PlanLaws.{
  HasPlans, HasPlan, remove_plan-HasPlans, create_plan-HasPlans, found_plan, after_guard,
  update_plan-HasPlans, after_find,
}
use coloanex_prod.Orchestrator.Policy.{find_subscription}

-- A request of the administration.
pub data AdminRequest : Type 0 where
  create_plan_request : CreatePlanDto → AdminRequest
  update_plan_request : ℕ → UpdatePlanDto → AdminRequest
  remove_plan_request : ℕ → AdminRequest
  create_subscription_request : Bool → CreateSubscriptionDto → AdminRequest
  update_subscription_request : Bool → ℕ → UpdateSubscriptionDto → AdminRequest
  remove_subscription_request : ℕ → AdminRequest

unfoldable pub administer : Env → AdminRequest → JwtPayload → Action (Unit {0})
administer env (create_plan_request dto) = create_plan env dto
administer env (update_plan_request id dto) = update_plan id dto
administer env (remove_plan_request id) = remove_plan id
administer env (create_subscription_request owner_exists dto) =
    create_subscription owner_exists env dto
administer env (update_subscription_request owners_exist id dto) =
    change_subscription owners_exist id dto
administer env (remove_subscription_request id) = remove_subscription id

administer-forbidden :
    (env : Env) (r : AdminRequest) (user : JwtPayload) (d : Db)
    → is_super_admin user ≡ false
    → administer env r user d ≡ (err (forbidden "Only Super Admin can manage subscriptions"), d)
unfolding administer create_plan update_plan remove_plan create_subscription change_subscription
    remove_subscription
administer-forbidden env (create_plan_request dto) user d e = rw e refl
administer-forbidden env (update_plan_request id dto) user d e = rw e refl
administer-forbidden env (remove_plan_request id) user d e = rw e refl
administer-forbidden env (create_subscription_request o dto) user d e = rw e refl
administer-forbidden env (update_subscription_request o id dto) user d e = rw e refl
administer-forbidden env (remove_subscription_request id) user d e = rw e refl

grant-HasPlans :
    (env : Env) (dto : CreateSubscriptionDto) (owner user_id : ℕ) (o : Option Subscription)
    (p : SubscriptionPlan) (d : Db)
    → find_plan dto.plan d ≡ some p
    → HasPlans d
    → HasPlans (grant env dto owner user_id o d)
unfolding grant
grant-HasPlans env dto owner user_id none p d f h =
    let (m, e) = found_plan dto.plan p d f in
    All-snoc (HasPlan d.plans) (new_grant env dto owner user_id) d.subscriptions h (p, m, e)
grant-HasPlans env dto owner user_id (some s) p d f h =
    let (m, e) = found_plan dto.plan p d f in
    All-update_where (HasPlan d.plans) (λ x. x.id == s.id) (granted dto owner user_id)
      d.subscriptions (λ x k. (p, m, e)) h

create_subscription-HasPlans :
    (owner_exists : Bool) (env : Env) (dto : CreateSubscriptionDto) (user : JwtPayload) (d : Db)
    → HasPlans d
    → HasPlans (create_subscription owner_exists env dto user d).1
unfolding create_subscription
create_subscription-HasPlans owner_exists env dto user d h =
    after_guard HasPlans (not (is_super_admin user)) _ _ d h λ e.
      after_find HasPlans (find_plan dto.plan d) _ _ d h λ p f.
        after_guard HasPlans (not (same_scope dto.scope p.scope)) _ _ d h λ scoped.
          after_find HasPlans (owner_of dto) _ _ d h λ owner g.
            after_guard HasPlans (not owner_exists) _ _ d h λ there.
              grant-HasPlans env dto owner user.sub
                (find_same_plan (owned_in dto.scope owner) dto.plan d) p d f h

-- The part of `update` behind the check of the plan.
write_subscription-HasPlans :
    (owners_exist : Bool) (id : ℕ) (dto : UpdateSubscriptionDto) (s : Subscription) (d : Db)
    → ((x : Subscription) → HasPlan d.plans x → HasPlan d.plans (edited_subscription dto x))
    → HasPlans d
    → HasPlans (write_subscription owners_exist id dto s d).1
unfolding write_subscription
write_subscription-HasPlans owners_exist id dto s d keep h =
    after_guard HasPlans (any (shares_key (edited_subscription dto s)) d.subscriptions) _ _ d h λ e.
      after_guard HasPlans (not owners_exist) _ _ d h λ there.
        All-update_where (HasPlan d.plans) (λ x. x.id == id) (edited_subscription dto)
          d.subscriptions keep h

check_plan-HasPlans :
    (owners_exist : Bool) (id : ℕ) (dto : UpdateSubscriptionDto) (s : Subscription)
    (code : Option ℕ) (d : Db)
    → dto.plan ≡ code
    → HasPlans d
    → HasPlans ((check_plan code >> write_subscription owners_exist id dto s) d).1
unfolding check_plan
check_plan-HasPlans owners_exist id dto s none d e h =
    write_subscription-HasPlans owners_exist id dto s d (λ x (p, m, k). (p, m, rw e k)) h
check_plan-HasPlans owners_exist id dto s (some code) d e h =
    elim (Option-cases (find_plan code d)) [
      | inl missing ↦ rw missing h
      | inr (p, f) ↦
          let (m, k) = found_plan code p d f in
          rw f (write_subscription-HasPlans owners_exist id dto s d (λ x h'. (p, m, rw e k)) h)
    ]

change_subscription-HasPlans :
    (owners_exist : Bool) (id : ℕ) (dto : UpdateSubscriptionDto) (user : JwtPayload) (d : Db)
    → HasPlans d
    → HasPlans (change_subscription owners_exist id dto user d).1
unfolding change_subscription
change_subscription-HasPlans owners_exist id dto user d h =
    after_guard HasPlans (not (is_super_admin user)) _ _ d h λ e.
      after_find HasPlans (find_subscription id d) _ _ d h
        λ s f. check_plan-HasPlans owners_exist id dto s dto.plan d refl h

remove_subscription-HasPlans :
    (id : ℕ) (user : JwtPayload) (d : Db) → HasPlans d → HasPlans (remove_subscription id user d).1
unfolding remove_subscription
remove_subscription-HasPlans id user d h =
    after_guard HasPlans (not (is_super_admin user)) _ _ d h λ e.
      after_find HasPlans (find_subscription id d) _ _ d h
        λ s f. All-delete_where (HasPlan d.plans) (λ x. x.id == id) d.subscriptions h

administer-HasPlans :
    (env : Env) (r : AdminRequest) (user : JwtPayload) (d : Db)
    → Distinct (map (λ p. p.id) d.plans)
    → HasPlans d
    → HasPlans (administer env r user d).1
unfolding administer
administer-HasPlans env (create_plan_request dto) user d ids h =
    create_plan-HasPlans env dto user d h
administer-HasPlans env (update_plan_request id dto) user d ids h =
    update_plan-HasPlans id dto user d ids h
administer-HasPlans env (remove_plan_request id) user d ids h = remove_plan-HasPlans id user d ids h
administer-HasPlans env (create_subscription_request owner_exists dto) user d ids h =
    create_subscription-HasPlans owner_exists env dto user d h
administer-HasPlans env (update_subscription_request owners_exist id dto) user d ids h =
    change_subscription-HasPlans owners_exist id dto user d h
administer-HasPlans env (remove_subscription_request id) user d ids h =
    remove_subscription-HasPlans id user d h

-- Where the plans' identifiers are unique and every subscription stands for a plan of the table, this
-- is so after every request to create, update or remove a plan or a subscription, whether it returns
-- or throws; and unless the caller is a Super Admin the request throws and leaves the database.
pub administer-IsSafe :
    (env : Env) (r : AdminRequest) (user : JwtPayload) (d : Db)
    → Distinct (map (λ p. p.id) d.plans)
    → HasPlans d
    → HasPlans (administer env r user d).1
      × ((is_super_admin user ≡ true)
          ⊎ (administer env r user d
              ≡ (err (forbidden "Only Super Admin can manage subscriptions"), d)))
administer-IsSafe env r user d ids h = (
  administer-HasPlans env r user d ids h,
  elim (Bool-cases (is_super_admin user)) [
    | inl e ↦ inl e
    | inr e ↦ inr (administer-forbidden env r user d e)
  ],
)
