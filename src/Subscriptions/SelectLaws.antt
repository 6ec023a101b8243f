-- ===== src/Subscriptions/SelectLaws.antt =====
-- subscriptions.service.ts: which subscriptions are selected after `selectSubscription`.
use coloanex_prod.Common.{
  All, Bool, Bool-cases, Elem, List, Option, Option-cases, [], any, arith, false, filter, find,
  if◌then◌else◌, inl, inr, none, refl, same_number, some, subst, sym, true, ℕ, ◌==◌, ◌∙◌, ◌∷◌, ◌≡◌,
  ◌⊎◌,
}
use coloanex_prod.Db.{Subscription, ok, err, Result, Db}
use coloanex_prod.Orchestrator.Usage.{update_subscription}
use coloanex_prod.Subscriptions.Select.{
  is_peer, mark_peers, mark, may_select, select_peers, find_selectable, select_subscription,
}
use coloanex_prod.Service.{JwtPayload, Env}
use coloanex_prod.Db.Membership.{find-update_where, Elem-find, All-Elem}
use coloanex_prod.Subscriptions.Lifecycle.{
  bought, compute_lifecycle_status, is_bought, LifecycleStatus, lapsed, limit_exceeded,
}
use coloanex_prod.Orchestrator.Subscriptions.{is_tenant_scope}

-- A peer is marked as it should be, or its update is still to come.
abbrev Pending : Subscription → List Subscription → Subscription → Type 0
Pending s peers x =
    is_peer s x ≡ true → (x.selected ≡ (x.id == s.id)) ⊎ (any (λ p. p.id == x.id) peers ≡ true)

Pending-after_step :
    (s peer : Subscription) (peers : List Subscription) (x : Subscription)
    → Pending s (peer ∷ peers) x
    → Pending s peers (if x.id == peer.id then mark s.id x else x)
Pending-after_step s peer peers x h = elim (Bool-cases (x.id == peer.id)) [
  | inl e ↦ rw e (λ p. inl refl)
  | inr e ↦ rw e (λ p. elim (h p) [ inl m ↦ inl m | inr m ↦ inr (ground arith) ])
]

Pending-after_update :
    (s peer : Subscription) (peers subs : List Subscription)
    → All (Pending s (peer ∷ peers)) subs
    → All (Pending s peers) (update_subscription peer.id (mark s.id) subs)
Pending-after_update s peer peers [] h = tt
Pending-after_update s peer peers (x ∷ xs) (h, hs) =
    (Pending-after_step s peer peers x h, Pending-after_update s peer peers xs hs)

-- The peers of a subscription carry the mark only where they are it.
abbrev pub IsOnlySelected : Subscription → Subscription → Type 0
IsOnlySelected s x = (is_peer s x ≡ false) ⊎ (x.selected ≡ (x.id == s.id))

IsOnlySelected-of_done :
    (s : Subscription) (subs : List Subscription)
    → All (Pending s []) subs
    → All (IsOnlySelected s) subs
IsOnlySelected-of_done s [] h = tt
IsOnlySelected-of_done s (x ∷ xs) (h, hs) = (
  elim (Bool-cases (is_peer s x)) [
    | inr other ↦ inl other
    | inl p ↦ elim (h p) [ inl m ↦ inr m | inr m ↦ cc ]
  ],
  IsOnlySelected-of_done s xs hs,
)

mark_peers-IsOnlySelected :
    (s : Subscription) (peers subs : List Subscription)
    → All (Pending s peers) subs
    → All (IsOnlySelected s) (mark_peers s.id peers subs)
unfolding mark_peers
mark_peers-IsOnlySelected s [] subs h = IsOnlySelected-of_done s subs h
mark_peers-IsOnlySelected s (peer ∷ peers) subs h =
    mark_peers-IsOnlySelected s peers (update_subscription peer.id (mark s.id) subs)
      (Pending-after_update s peer peers subs h)

same_id : (x : Subscription) → (x.id == x.id) ≡ true
same_id x = ground arith

-- A row of the table is met by the query that its own condition makes.
any-filter :
    (q : Subscription → Bool) (x : Subscription) (subs : List Subscription)
    → Elem x subs
    → q x ≡ true
    → any (λ p. p.id == x.id) (filter q subs) ≡ true
any-filter q x [] m h = elim m [ ]
any-filter q x (y ∷ ys) (inl e) h = rw (sym e, h, same_id x) refl
any-filter q x (y ∷ ys) (inr m) h = let ih : _ ≡ _ = any-filter q x ys m h in ground arith

Pending-of_found :
    (s : Subscription) (all subs : List Subscription)
    → ((x : Subscription) → Elem x subs → Elem x all)
    → All (Pending s (filter (is_peer s) all)) subs
Pending-of_found s all [] h = tt
Pending-of_found s all (x ∷ xs) h = (
  λ p. inr (any-filter (is_peer s) x all (h x (inl refl)) p),
  Pending-of_found s all xs (λ y m. h y (inr m)),
)

id-mark :
    (s x : Subscription) (id k : ℕ)
    → ((if x.id == k then mark s.id x else x).id == id) ≡ (x.id == id)
id-mark s x id k = elim (Bool-cases (x.id == k)) [ inl e ↦ rw e refl | inr e ↦ rw e refl ]

-- The row that was found is found after the updates, and is a peer still.
find-mark :
    (s : Subscription) (id k : ℕ) (subs : List Subscription) (a : Subscription)
    → find (λ x. x.id == id) subs ≡ some a
    → find (λ x. x.id == id) (update_subscription k (mark s.id) subs)
      ≡ some (if a.id == k then mark s.id a else a)
find-mark s id k subs a h =
    find-update_where (λ x. x.id == id) (λ x. x.id == k) (mark s.id) subs a (λ x. id-mark s x id k)
      h

is_peer-mark :
    (s a : Subscription) (k : ℕ)
    → is_peer s a ≡ true
    → is_peer s (if a.id == k then mark s.id a else a) ≡ true
is_peer-mark s a k h = elim (Bool-cases (a.id == k)) [ inl e ↦ rw e h | inr e ↦ rw e h ]

find-mark_peers :
    (s : Subscription) (id : ℕ) (peers subs : List Subscription) (a : Subscription)
    → find (λ x. x.id == id) subs ≡ some a
    → is_peer s a ≡ true
    → (b : Subscription) × (find (λ x. x.id == id) (mark_peers s.id peers subs) ≡ some b)
      × (is_peer s b ≡ true)
unfolding mark_peers
find-mark_peers s id [] subs a h p = (a, h, p)
find-mark_peers s id (peer ∷ peers) subs a h p =
    find-mark_peers s id peers (update_subscription peer.id (mark s.id) subs)
      (if a.id == peer.id then mark s.id a else a) (find-mark s id peer.id subs a h)
      (is_peer-mark s a peer.id p)

same_number_self : (o : Option ℕ) → same_number o o ≡ true
same_number_self none = refl
same_number_self (some k) = ground arith

is_peer_self : (s : Subscription) → is_peer s s ≡ true
is_peer_self s = elim (Bool-cases (is_tenant_scope s.scope)) [
  | inl e ↦ rw (e, same_number_self s.tenant_id) refl
  | inr e ↦ rw (e, same_number_self s.user_id) refl
]

equal_numbers : (a b : ℕ) → (a == b) ≡ true → a ≡ b
equal_numbers a b e = ground arith

find_again :
    (id : ℕ) (s : Subscription) (subs : List Subscription)
    → find (λ x. x.id == id) subs ≡ some s
    → find (λ x. x.id == s.id) subs ≡ some s
find_again id s subs found =
    let own : (s.id == id) ≡ true = (Elem-find (λ x. x.id == id) s subs found).1 in
    subst (λ k. find (λ x. x.id == k) subs ≡ some s) (sym (equal_numbers s.id id own)) found

-- How `selectSubscription` ends: an exception has written nothing, and a return has selected.
abbrev pub SelectOutcome : Env → ℕ → JwtPayload → Db → Result Subscription × Db → Type 0
SelectOutcome env id user d (err e, d') = d' ≡ d
SelectOutcome env id user d (ok b, d') =
    (s : Subscription) × (find_selectable id d ≡ some s)
    × (may_select user s ≡ true)
    × (compute_lifecycle_status env.now d.plans s ≡ bought)
    × (b.selected ≡ true)
    × All (IsOnlySelected s) d'.subscriptions

-- The write of `selectSubscription`, for the subscription that was found.
select_peers-outcome :
    (s : Subscription) (id : ℕ) (d : Db)
    → find_selectable id d ≡ some s
    → (b : Subscription) × (find_selectable s.id (select_peers s d) ≡ some b)
      × (b.selected ≡ true)
      × All (IsOnlySelected s) (select_peers s d).subscriptions
unfolding select_peers find_selectable
select_peers-outcome s id d found =
    let own : (s.id == id) ≡ true = (Elem-find (λ x. x.id == id) s d.subscriptions found).1 in
    let peers : List Subscription = filter (is_peer s) d.subscriptions in
    let only : All (IsOnlySelected s) (mark_peers s.id peers d.subscriptions) =
      mark_peers-IsOnlySelected s peers d.subscriptions
        (Pending-of_found s d.subscriptions d.subscriptions (λ x m. m)) in
    let (b, again, peer) =
      find-mark_peers s s.id peers d.subscriptions s (find_again id s d.subscriptions found)
        (is_peer_self s) in
    let (m, e) = Elem-find (λ x. x.id == s.id) b (mark_peers s.id peers d.subscriptions) again in
    let marked : IsOnlySelected s b =
      All-Elem (IsOnlySelected s) b (mark_peers s.id peers d.subscriptions) only m in
    (b, again, elim marked [ inl other ↦ cc | inr x ↦ x ∙ e ], only)

is_bought-bought : (l : LifecycleStatus) → is_bought l ≡ true → l ≡ bought
is_bought-bought bought e = refl
is_bought-bought lapsed e = cc
is_bought-bought limit_exceeded e = cc

-- `selectSubscription` throws and has written nothing, or selects: the subscription was found, the
-- caller may select it and it is usable, and afterwards it is the only selected one of its owner.
pub select_subscription-outcome :
    (env : Env) (id : ℕ) (user : JwtPayload) (d : Db)
    → SelectOutcome env id user d (select_subscription env id user d)
unfolding select_subscription
select_subscription-outcome env id user d = elim (Option-cases (find_selectable id d)) [
  | inl missing ↦ rw missing refl
  | inr (s, found) ↦ elim (Bool-cases (may_select user s)) [
    | inr denied ↦ rw (found, denied) refl
    | inl allowed ↦ elim (Bool-cases (is_bought (compute_lifecycle_status env.now d.plans s))) [
      | inr lapsed' ↦ rw (found, allowed, lapsed') refl
      | inl usable ↦
          let (b, again, chosen, only) = select_peers-outcome s id d found in
          rw (found, allowed, usable, again)
            (
              s,
              found,
              allowed,
              is_bought-bought (compute_lifecycle_status env.now d.plans s) usable,
              chosen,
              only,
            )
    ]
  ]
]
