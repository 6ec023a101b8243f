-- ===== src/Rules/Ownership.antt =====
-- What `update` and `remove` leave of the rules of other tenants.
use coloanex_prod.Common.{
  Bool, Bool-cases, Distinct, Elem, Option, any, ap, arith, false, get_or, if◌then◌else◌, inl, inr,
  is_number, is_some, map, not, some, subst, sym, true, ℕ, ◌&&◌, ◌==◌, ◌∙◌, ◌≡◌,
}
use coloanex_prod.Service.{consume, JwtPayload, Env, submit}
use coloanex_prod.Db.{Action, err, continue_with, ◌>>=◌, ok, Result, Db, Rule, update_where}
use coloanex_prod.Orchestrator.Frame.{
  orchestrate-OnlySubscriptions, consume_usage-OnlySubscriptions,
}
use coloanex_prod.Rules.Service.{
  RuleDto, rule_input, update_rule_on_chain, require_allowed, write_rule, edited_rule, delete_rule,
  remove_rule, update_rule,
}
use coloanex_prod.Contracts.Drafting.{find_rule}
use coloanex_prod.Db.Membership.{Distinct-Elem, Elem-find, update_where-Elem, delete_where-Elem}
use coloanex_prod.Subscriptions.PlanLaws.{after_guard, after_find}
use coloanex_prod.Orchestrator.Decide.{pays_gas_user}

module _ (P Q : Db → Type 0) (stays : (d : Db) → P d → Q d) {A : Type 0} where
  after_answer :
      (r : Result A × Db) (k : A → Action (Unit {0}))
      → P r.1
      → ((a : A) (d' : Db) → P d' → Q (k a d').1)
      → Q (continue_with r k).1
  after_answer (ok a, d') k h next = next a d' h
  after_answer (err e, d') k h next = stays d' h

  -- A part that keeps `P`, in front of a part that takes `P` to `Q`.
  after_part :
      (m : Action A) (k : A → Action (Unit {0})) (d : Db)
      → P (m d).1
      → ((a : A) (d' : Db) → P d' → Q (k a d').1)
      → Q ((m >>= k) d).1
  after_part m k d h next = after_answer (m d) k h next

require_allowed-rules :
    (env : Env) (user : JwtPayload) (tenant_id : ℕ) (d : Db)
    → (require_allowed env user tenant_id d).1.rules ≡ d.rules
unfolding require_allowed
require_allowed-rules env user tenant_id d =
    let h = orchestrate-OnlySubscriptions env.now (rule_input user tenant_id) d in ground (arith, h)

update_rule_on_chain-Db :
    (env : Env) (dto : RuleDto) (r : Rule) (d : Db) → (update_rule_on_chain env dto r d).1 ≡ d
unfolding update_rule_on_chain
update_rule_on_chain-Db env dto r d = ground arith

consume-rules : (env : Env) (id : Option ℕ) (d : Db) → (consume env id d).1.rules ≡ d.rules
unfolding consume
consume-rules env id d = ap (λ x. x.rules) (consume_usage-OnlySubscriptions env.now id d)

-- A rule of another tenant is not the rule that was found for the caller.
foreign_id :
    (user : JwtPayload) (id : ℕ) (own r : Rule) (d : Db)
    → Distinct (map (λ x. x.id) d.rules)
    → find_rule id d ≡ some own
    → is_number user.tenant_id own.tenant_id ≡ true
    → Elem r d.rules
    → is_number user.tenant_id r.tenant_id ≡ false
    → (own.id ≡ id) × ((r.id == id) ≡ false)
unfolding find_rule
foreign_id user id own r d ids f mine m other =
    let (n, e) = Elem-find (λ x. x.id == id) own d.rules f in
    let g : own.id ≡ id = ground arith in
    (
      g,
      elim (Bool-cases (r.id == id)) [
        | inl t ↦
            let q : r ≡ own = Distinct-Elem (λ x. x.id) r own d.rules ids m n (ground arith) in
            let hit : true ≡ false =
              sym mine ∙ ap (λ x. is_number user.tenant_id x.tenant_id) (sym q) ∙ other in
            ground arith
        | inr n' ↦ n'
      ],
    )

write_rule-Elem :
    (tenant_exists : Bool) (dto : RuleDto) (updated : Option ℕ) (own r : Rule) (d : Db)
    → (r.id == own.id) ≡ false
    → Elem r d.rules
    → Elem r (write_rule tenant_exists dto updated own d).1.rules
unfolding write_rule
write_rule-Elem tenant_exists dto updated own r d other m =
    after_guard (λ d'. Elem r d'.rules)
      (any (λ x. not (x.id == own.id) && x.id == get_or dto.id own.id) d.rules) _ _ d m
      λ free.
        after_guard (λ d'. Elem r d'.rules) (not tenant_exists) _ _ d m
          λ there.
            subst
              (λ c.
                Elem (if c then edited_rule dto updated r else r)
                  (update_where (λ x. x.id == own.id) (edited_rule dto updated) d.rules))
              other (update_where-Elem (λ x. x.id == own.id) (edited_rule dto updated) r d.rules m)

delete_rule-Elem :
    (id : ℕ) (r : Rule) (d : Db)
    → (r.id == id) ≡ false
    → Elem r d.rules
    → Elem r (delete_rule id d).1.rules
unfolding delete_rule
delete_rule-Elem id r d other m =
    after_guard (λ d'. Elem r d'.rules) (any (λ c. c.rule_id == id) d.contracts) _ _ d m
      λ free. delete_where-Elem (λ x. x.id == id) r d.rules other m

-- What the decision left of a rule of the table.
decided_rules :
    (env : Env) (user : JwtPayload) (tenant_id : ℕ) (r : Rule) (d : Db)
    → Elem r d.rules
    → Elem r (require_allowed env user tenant_id d).1.rules
decided_rules env user tenant_id r d m =
    subst (λ rs. Elem r rs) (sym (require_allowed-rules env user tenant_id d)) m

consumed_rules :
    (env : Env) (id : Option ℕ) (r : Rule) (d : Db)
    → Elem r d.rules
    → Elem r (consume env id d).1.rules
consumed_rules env id r d m = subst (λ rs. Elem r rs) (sym (consume-rules env id d)) m

module _ (r : Rule) where
  abbrev Stays : Db → Type 0
  Stays d = Elem r d.rules

  remove_rule-Stays :
      (env : Env) (id : ℕ) (user : JwtPayload) (d : Db)
      → Distinct (map (λ x. x.id) d.rules)
      → Stays d
      → is_number user.tenant_id r.tenant_id ≡ false
      → Stays (remove_rule env id user d).1
  unfolding remove_rule
  remove_rule-Stays env id user d ids m other = after_find Stays (find_rule id d) _ _ d m λ own f.
      after_guard Stays (not (is_number user.tenant_id own.tenant_id)) _ _ d m λ mine.
        let (e, n) = foreign_id user id own r d ids f (ground arith) m other in
        after_part Stays Stays (λ d' h. h) (require_allowed env user own.tenant_id) _ d
          (decided_rules env user own.tenant_id r d m)
          λ dec d' h. after_guard Stays (pays_gas_user dec.gas_payer) _ _ d' h λ platform.
            after_guard Stays (env.chain.enabled && not (is_some (submit env.chain))) _ _ d' h
              λ answered.
                after_part Stays Stays (λ x y. y) (delete_rule id) _ d'
                  (delete_rule-Elem id r d' n h)
                  λ u x y. consumed_rules env dec.subscription_id r x y

  update_rule-Stays :
      (tenant_exists : Bool) (env : Env) (id : ℕ) (dto : RuleDto) (user : JwtPayload) (d : Db)
      → Distinct (map (λ x. x.id) d.rules)
      → Stays d
      → is_number user.tenant_id r.tenant_id ≡ false
      → Stays (update_rule tenant_exists env id dto user d).1
  unfolding update_rule
  update_rule-Stays tenant_exists env id dto user d ids m other =
      after_find Stays (find_rule id d) _ _ d m λ own f.
        after_guard Stays (not (is_number user.tenant_id own.tenant_id)) _ _ d m λ mine.
          let (e, n) = foreign_id user id own r d ids f (ground arith) m other in
          after_part Stays Stays (λ d' h. h) (require_allowed env user own.tenant_id) _ d
            (decided_rules env user own.tenant_id r d m)
            λ dec d' h.
              after_guard Stays
                (pays_gas_user dec.gas_payer && not (is_some dto.blockchain_tx_hash)) _ _ d' h
                λ hashed.
                  after_part Stays Stays (λ x y. y) (update_rule_on_chain env dto own) _ d'
                    (subst Stays (sym (update_rule_on_chain-Db env dto own d')) h)
                    λ updated x y.
                      after_part Stays Stays (λ x' y'. y')
                        (write_rule tenant_exists dto updated own) _ x
                        (write_rule-Elem tenant_exists dto updated own r x (rw e n) y)
                        λ u x' y'. consumed_rules env dec.subscription_id r x' y'

-- Where the rules' identifiers are unique, neither update nor remove of a rule changes or deletes a
-- rule of another tenant than the caller's, whether it returns or throws.
pub change_rule-foreign :
    (tenant_exists : Bool) (env : Env) (id : ℕ) (dto : RuleDto) (user : JwtPayload) (r : Rule)
    (d : Db)
    → Distinct (map (λ x. x.id) d.rules)
    → Elem r d.rules
    → is_number user.tenant_id r.tenant_id ≡ false
    → Elem r (update_rule tenant_exists env id dto user d).1.rules
      × Elem r (remove_rule env id user d).1.rules
change_rule-foreign tenant_exists env id dto user r d ids m other = (
  update_rule-Stays r tenant_exists env id dto user d ids m other,
  remove_rule-Stays r env id user d ids m other,
)
