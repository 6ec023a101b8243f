-- ===== src/Subscriptions/Select.antt =====
-- subscriptions.service.ts: `selectSubscription`.
use coloanex_prod.Common.{
  Bool, List, Option, [], filter, find, if◌then◌else◌, is_number, not, same_number, ℕ, ◌&&◌, ◌==◌,
  ◌||◌, ◌∷◌,
}
use coloanex_prod.Db.{
  Subscription, modify, throw_if, Action, not_found, find_or_throw, forbidden, gets, Db, ◌>>◌,
  ◌>>=◌,
}
use coloanex_prod.Service.{is_super_admin, Env, JwtPayload}
use coloanex_prod.Orchestrator.Usage.{update_subscription}
use coloanex_prod.Orchestrator.Subscriptions.{is_tenant_scope}
use coloanex_prod.Subscriptions.Lifecycle.{compute_lifecycle_status, is_bought}

unfoldable pub find_selectable : ℕ → Db → Option Subscription
find_selectable id d = find (λ s. s.id == id) d.subscriptions

-- Who may select it: the user it belongs to, or a member of its tenant, or the Super Admin.
unfoldable pub may_select : JwtPayload → Subscription → Bool
may_select user s =
    if is_tenant_scope s.scope
    then is_super_admin user || same_number s.tenant_id user.tenant_id
    else is_number s.user_id user.sub

-- `where` of the peers: a null owner is compared as it stands.
abbrev pub is_peer : Subscription → Subscription → Bool
is_peer s x =
    if is_tenant_scope s.scope
    then is_tenant_scope x.scope && same_number x.tenant_id s.tenant_id
    else not (is_tenant_scope x.scope) && same_number x.user_id s.user_id

abbrev pub mark : ℕ → Subscription → Subscription
mark id x = record x { selected = x.id == id }

-- The updates of one `$transaction`, one for each peer.
unfoldable pub mark_peers : ℕ → List Subscription → List Subscription → List Subscription
mark_peers id [] subs = subs
mark_peers id (peer ∷ peers) subs = mark_peers id peers (update_subscription peer.id (mark id) subs)

unfoldable pub select_peers : Subscription → Db → Db
select_peers s d = record d {
  subscriptions = mark_peers s.id (filter (is_peer s) d.subscriptions) d.subscriptions;
}

unfoldable pub select_subscription : Env → ℕ → JwtPayload → Action Subscription
select_subscription env id user = do
  s ← find_or_throw (find_selectable id) (not_found "Subscription not found")
  throw_if (not (may_select user s)) (forbidden "You cannot select this subscription")
  usable ← gets (λ d. is_bought (compute_lifecycle_status env.now d.plans s))
  throw_if (not usable) (forbidden "Only active and usable subscriptions can be selected")
  modify (select_peers s)
  find_or_throw (find_selectable s.id) (not_found "Subscription not found after selection")
