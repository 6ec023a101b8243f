-- ===== src/Subscriptions/PurchaseLaws.antt =====
-- subscriptions.service.ts: what a purchase requires and leaves.
use coloanex_prod.Common.{
  Bool, Bool-cases, Option, Option-cases, arith, false, inl, inr, is_number, ltb, none, not,
  or_else, refl, some, subst, sym, true, ℕ, ◌&&◌, ◌==◌, ◌≡◌, ◌≤◌, ◌⊎◌,
}
use coloanex_prod.Db.{
  SubscriptionPlan, Transaction, forbidden, Db, err, ok, Result, tenant_scope, SubscriptionScope,
  user_scope, Subscription,
}
use coloanex_prod.Service.{find_transaction, is_super_admin, Env, JwtPayload, is_borrower}
use coloanex_prod.Contracts.Disbursing.{is_completed}
use coloanex_prod.Service.Guarded.{throw_if_last-IsGuarded, IsGuarded, throw_if-IsGuarded}
use coloanex_prod.Subscriptions.Purchase.{
  sent_by_user, check_fee, is_fee_paid, is_fee, check_payment, owned_in, same_scope,
  purchase_in_scope, find_active_plan, find_same_plan, is_in_use, buy_for, upsert, check_tenant,
  purchase, has_selected, PurchaseDto,
}

-- A plan with a price is paid by a completed fee of at least that price, sent by the same user.
pub record IsFeeFor (price user_id : ℕ) (payment : Option ℕ) (d : Db) : Type 0 where
  pub transaction_id : ℕ
  pub named : payment ≡ some transaction_id
  pub fee_transaction : Transaction
  pub found : find_transaction transaction_id d ≡ some fee_transaction
  pub completed_status : is_completed fee_transaction.status ≡ true
  pub fee_type : is_fee fee_transaction.type ≡ true
  pub own : fee_transaction.sent_by ≡ user_id
  pub enough : price ≤ fee_transaction.amount

not_lower : (a b : ℕ) → ltb a b ≡ false → b ≤ a
not_lower a b e = ground arith

is_true_of_not : (b : Bool) → not b ≡ false → b ≡ true
is_true_of_not b e = ground arith

and_both : (a b : Bool) → a && b ≡ true → (a ≡ true) × (b ≡ true)
and_both a b e = ground arith

same_numbers : (a b : ℕ) → (a == b) ≡ true → a ≡ b
same_numbers a b e = ground arith

-- The guards on the transaction that was looked up.
check_found-IsGuarded :
    (price user_id k : ℕ) (t : Transaction) (d : Db)
    → find_transaction k d ≡ some t
    → is_fee_paid (some t) ≡ true
    → sent_by_user user_id (some t) ≡ true
    → ltb t.amount price ≡ false
    → IsFeeFor price user_id (some k) d
check_found-IsGuarded price user_id k t d found valid sender enough =
    let (c, f) = and_both (is_completed t.status) (is_fee t.type) valid in
    record {
      transaction_id = k;
      named = refl;
      fee_transaction = t;
      found = found;
      completed_status = c;
      fee_type = f;
      own = same_numbers t.sent_by user_id sender;
      enough = not_lower t.amount price enough;
    }

check_fee-IsGuarded :
    (price user_id : ℕ) (payment : Option ℕ) (d : Db)
    → IsGuarded (IsFeeFor price user_id payment d) (check_fee price user_id payment) d
unfolding check_fee
check_fee-IsGuarded price user_id none d =
    inl (forbidden "Paid plans require a successful payment before activation", refl)
check_fee-IsGuarded price user_id (some k) d =
    let P : Type 0 = IsFeeFor price user_id (some k) d in
    elim (Option-cases (find_transaction k d)) [
      | inl missing ↦
          rw missing
            (inl (forbidden "Subscription payment transaction is invalid or not completed", refl))
      | inr (t, found) ↦ rw found (
          throw_if-IsGuarded P (not (is_fee_paid (some t))) _ _ d λ valid.
            throw_if-IsGuarded P (not (sent_by_user user_id (some t))) _ _ d λ sender.
              throw_if_last-IsGuarded P (ltb t.amount price) _ d λ enough.
                check_found-IsGuarded price user_id k t d found
                  (is_true_of_not (is_fee_paid (some t)) valid)
                  (is_true_of_not (sent_by_user user_id (some t)) sender) enough)
    ]

none_below : (n : ℕ) → ltb 0 n ≡ false → n ≡ 0
none_below n e = ground arith

check_payment-IsGuarded :
    (p : SubscriptionPlan) (user_id : ℕ) (payment : Option ℕ) (d : Db)
    → IsGuarded
        ((p.price ≡ 0) ⊎ IsFeeFor p.price user_id payment d)
        (check_payment p user_id payment)
        d
unfolding check_payment
check_payment-IsGuarded p user_id payment d = elim (Bool-cases (ltb 0 p.price)) [
  | inr free ↦ rw free (inr (refl, inl (none_below p.price free)))
  | inl e ↦ rw e (elim (check_fee-IsGuarded p.price user_id payment d) [
    | inl thrown ↦ inl thrown
    | inr (passed, fee_paid) ↦ inr (passed, inr fee_paid)
  ])
]

-- For whom the caller may buy: a user's plan for itself, a tenant's plan for its own tenant unless
-- it is a borrower, and the Super Admin for any tenant.
abbrev pub MayBuyFor : JwtPayload → PurchaseDto → SubscriptionScope → ℕ → Type 0
MayBuyFor user dto user_scope owner = owner ≡ user.sub
MayBuyFor user dto tenant_scope owner =
    (or_else dto.tenant_id user.tenant_id ≡ some owner)
    × ((is_super_admin user ≡ true)
        ⊎ ((is_borrower user ≡ false) × (is_number user.tenant_id owner ≡ true)))

-- What `purchase` stores for an owner: only where no usable subscription to the plan is there, and
-- selected only where the owner has no selected one.
abbrev pub IsStoredFor : Env → SubscriptionPlan → PurchaseDto → ℕ → ℕ → Db → Db → Type 0
IsStoredFor env p dto owner user_id d d' =
    let same : Option Subscription = find_same_plan (owned_in dto.scope owner) dto.plan_code d in
    (is_in_use env.now d same ≡ false)
    × (d' ≡ upsert env p dto owner (not (has_selected (owned_in dto.scope owner) d)) user_id same d)

abbrev pub BuyOutcome :
    Env → SubscriptionPlan → PurchaseDto → JwtPayload → Db → Result (Unit {0}) × Db → Type 0
BuyOutcome env p dto user d (err e, d') = d' ≡ d
BuyOutcome env p dto user d (ok u, d') =
    (owner : ℕ) × MayBuyFor user dto dto.scope owner × IsStoredFor env p dto owner user.sub d d'

buy_for-outcome :
    (env : Env) (p : SubscriptionPlan) (dto : PurchaseDto) (user : JwtPayload) (owner : ℕ) (d : Db)
    → MayBuyFor user dto dto.scope owner
    → BuyOutcome env p dto user d (buy_for env p dto owner user.sub d)
unfolding buy_for
buy_for-outcome env p dto user owner d h =
    let same : Option Subscription = find_same_plan (owned_in dto.scope owner) dto.plan_code d in
    elim (Bool-cases (is_in_use env.now d same)) [
      | inl used ↦ rw used refl
      | inr unused ↦ rw unused (owner, h, (unused, refl))
    ]

may_buy :
    (s b m : Bool)
    → not s && b ≡ false
    → not s && not m ≡ false
    → (s ≡ true) ⊎ ((b ≡ false) × (m ≡ true))
may_buy s b m x y = ground arith

check_tenant-IsGuarded :
    (tenant_id : ℕ) (user : JwtPayload) (d : Db)
    → IsGuarded
        ((is_super_admin user ≡ true)
          ⊎ ((is_borrower user ≡ false) × (is_number user.tenant_id tenant_id ≡ true)))
        (check_tenant tenant_id user)
        d
unfolding check_tenant
check_tenant-IsGuarded tenant_id user d =
    let s : Bool = is_super_admin user in
    let b : Bool = is_borrower user in
    let m : Bool = is_number user.tenant_id tenant_id in
    throw_if-IsGuarded _ (not s && b) _ _ d
      λ x. throw_if_last-IsGuarded _ (not s && not m) _ d λ y. may_buy s b m x y

purchase_in_scope-outcome :
    (env : Env) (p : SubscriptionPlan) (dto : PurchaseDto) (user : JwtPayload)
    (scope : SubscriptionScope) (d : Db)
    → dto.scope ≡ scope
    → BuyOutcome env p dto user d (purchase_in_scope env p dto user scope d)
unfolding purchase_in_scope
purchase_in_scope-outcome env p dto user user_scope d e =
    buy_for-outcome env p dto user user.sub d
      (subst (λ sc. MayBuyFor user dto sc user.sub) (sym e) refl)
purchase_in_scope-outcome env p dto user tenant_scope d e =
    elim (Option-cases (or_else dto.tenant_id user.tenant_id)) [
      | inl missing ↦ rw missing refl
      | inr (owner, given) ↦ elim (check_tenant-IsGuarded owner user d) [
        | inl (x, thrown) ↦ rw (given, thrown) refl
        | inr (passed, allowed) ↦
            rw (given, passed)
              (buy_for-outcome env p dto user owner d
                (subst (λ sc. MayBuyFor user dto sc owner) (sym e) (given, allowed)))
      ]
    ]

-- How `purchase` ends: an exception has written nothing, and a return has passed every guard.
abbrev pub PurchaseOutcome : Env → PurchaseDto → JwtPayload → Db → Result (Unit {0}) × Db → Type 0
PurchaseOutcome env dto user d (err e, d') = d' ≡ d
PurchaseOutcome env dto user d (ok u, d') =
    (p : SubscriptionPlan) × (find_active_plan dto.plan_code d ≡ some p)
    × (same_scope dto.scope p.scope ≡ true)
    × ((p.price ≡ 0) ⊎ IsFeeFor p.price user.sub dto.payment_transaction_id d)
    × BuyOutcome env p dto user d (ok u, d')

-- The end of `purchase`, after the guard on the payment.
purchase-rest :
    (env : Env) (dto : PurchaseDto) (user : JwtPayload) (p : SubscriptionPlan) (d : Db)
    (r : Result (Unit {0}) × Db)
    → find_active_plan dto.plan_code d ≡ some p
    → same_scope dto.scope p.scope ≡ true
    → ((p.price ≡ 0) ⊎ IsFeeFor p.price user.sub dto.payment_transaction_id d)
    → BuyOutcome env p dto user d r
    → PurchaseOutcome env dto user d r
purchase-rest env dto user p d (err e, d') found fits fee_paid h = h
purchase-rest env dto user p d (ok u, d') found fits fee_paid h = (p, found, fits, fee_paid, h)

-- `purchase` throws and has written nothing, or stores the subscription: the plan is active and of
-- the requested scope, a plan with a price has been paid by a completed fee of at least that price
-- from the same user, the caller may buy for the owner, and no usable subscription was there.
pub purchase-outcome :
    (env : Env) (dto : PurchaseDto) (user : JwtPayload) (d : Db)
    → PurchaseOutcome env dto user d (purchase env dto user d)
unfolding purchase
purchase-outcome env dto user d = elim (Option-cases (find_active_plan dto.plan_code d)) [
  | inl missing ↦ rw missing refl
  | inr (p, found) ↦ elim (Bool-cases (same_scope dto.scope p.scope)) [
    | inr differs ↦ rw (found, differs) refl
    | inl fits ↦ elim (check_payment-IsGuarded p user.sub dto.payment_transaction_id d) [
      | inl (e, thrown) ↦ rw (found, fits, thrown) refl
      | inr (passed, fee_paid) ↦
          rw (found, fits, passed)
            (purchase-rest env dto user p d (purchase_in_scope env p dto user dto.scope d) found
              fits fee_paid (purchase_in_scope-outcome env p dto user dto.scope d refl))
    ]
  ]
]
