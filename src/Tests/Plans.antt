-- ===== src/Tests/Plans.antt =====
-- The administration of plans and subscriptions on a small database.
use coloanex_prod.Common.{[], arith, false, inl, map, none, refl, some, true, ◌∷◌, ◌≡◌, ◌⊎◌}
use coloanex_prod.Service.{JwtPayload, is_super_admin}
use coloanex_prod.Db.{err, forbidden, foreign_key_violation, Role, tenant_scope}
use coloanex_prod.Tests.Data.{db, env, plan_with}
use coloanex_prod.Subscriptions.Plans.{update_plan, remove_plan, find_plan_by_id}
use coloanex_prod.Subscriptions.AdminLaws.{
  update_plan_request, administer, AdminRequest, administer-IsSafe, remove_plan_request,
}
use coloanex_prod.Subscriptions.PlanLaws.{HasPlans}

abbrev admin_jwt : JwtPayload
admin_jwt = record { sub = 3; tenant_id = none; roles = Role.super_admin ∷ [] }

-- The plan 5 gets the code 9.
abbrev recode : AdminRequest
recode = update_plan_request 5 (record {
  code = some 9;
  scope = none;
  has_features = false;
  price = none;
  max_transactions = none;
  billing_cycle = none;
  is_active = none;
})

recode-plans : map (λ s. s.plan) (administer env recode admin_jwt db).1.subscriptions ≡ 9 ∷ 9 ∷ []
unfolding administer update_plan find_plan_by_id
recode-plans = refl

used_plan-kept :
    administer env (remove_plan_request 5) admin_jwt db ≡ (err foreign_key_violation, db)
unfolding administer remove_plan find_plan_by_id
used_plan-kept = refl

db-HasPlans : HasPlans db
db-HasPlans = (
  (plan_with 5 tenant_scope 0, inl refl, refl),
  ((plan_with 5 tenant_scope 0, inl refl, refl), tt),
)

administer-IsSafe_example :
    HasPlans (administer env recode admin_jwt db).1
    × ((is_super_admin admin_jwt ≡ true)
        ⊎ (administer env recode admin_jwt db
            ≡ (err (forbidden "Only Super Admin can manage subscriptions"), db)))
administer-IsSafe_example =
    administer-IsSafe env recode admin_jwt db (((λ e. omega arith), tt), (tt, tt)) db-HasPlans
