-- ===== src/Tests/Rules.antt =====
-- The rules of tenants on a small database.
use coloanex_prod.Common.{Elem, [], false, inl, none, refl, some, true, ◌∷◌, ◌≡◌}
use coloanex_prod.Service.{JwtPayload}
use coloanex_prod.Contracts.Drafting.{find_rule}
use coloanex_prod.Db.{ok, forbidden, err, Role}
use coloanex_prod.Tests.Data.{env, rule, db}
use coloanex_prod.Rules.Service.{RuleDto, update_rule, remove_rule, find_one_rule}
use coloanex_prod.Rules.Ownership.{change_rule-foreign}

-- A lender of the tenant 11, which has no rule.
abbrev stranger : JwtPayload
stranger = record { sub = 1; tenant_id = some 11; roles = Role.lender ∷ [] }

abbrev new_rate : RuleDto
new_rate = record {
  id = none;
  tenant_id = none;
  interest_rate = some 1500;
  allowed_frequencies = none;
  is_active = none;
  is_publicly_visible = none;
  blockchain_tx_hash = none;
  has_chain_data = false;
}

foreign_rule-kept :
    update_rule true env 60 new_rate stranger db
    ≡ (err (forbidden "You can only update your own rules"), db)
unfolding update_rule find_rule
foreign_rule-kept = refl

found_own : find_one_rule 60 (some 10) db ≡ (ok rule, db)
unfolding find_one_rule find_rule
found_own = refl

change_rule-foreign_example :
    Elem rule (update_rule true env 60 new_rate stranger db).1.rules
    × Elem rule (remove_rule env 60 stranger db).1.rules
change_rule-foreign_example =
    change_rule-foreign true env 60 new_rate stranger rule db (tt, tt) (inl refl) refl
