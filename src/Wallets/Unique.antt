-- ===== src/Wallets/Unique.antt =====
-- wallets.service.ts: `setPrimary` and the unique key on user and purpose.
use coloanex_prod.Common.{List, [], any, arith, false, refl, true, ℕ, ◌∷◌, ◌≡◌, ◌≤◌}
use coloanex_prod.Db.{ok, err, unique_violation, update_where, Db, Wallet}
use coloanex_prod.Service.{Env}
use coloanex_prod.Wallets.Service.{has_unique_keys, clashes, owned_by, store_wallets}
use coloanex_prod.Wallets.Counts.{count}
use coloanex_prod.Wallets.Changes.{made_general, rewrite_wallets, require_own, set_primary}

-- Two wallets of one user cannot both become GENERAL.
any-general :
    (now user_id : ℕ) (w : Wallet) (ws : List Wallet)
    → w.user_id ≡ user_id
    → 1 ≤ count (owned_by user_id) ws
    → any (clashes (made_general now w)) (update_where (owned_by user_id) (made_general now) ws)
      ≡ true
any-general now user_id w [] own h = ground arith
any-general now user_id w (x ∷ xs) own h = ground (arith, any-general now user_id w xs own)

general-clash :
    (now user_id : ℕ) (ws : List Wallet)
    → 2 ≤ count (owned_by user_id) ws
    → has_unique_keys (update_where (owned_by user_id) (made_general now) ws) ≡ false
general-clash now user_id [] h = ground arith
general-clash now user_id (w ∷ ws) h =
    ground (arith, general-clash now user_id ws, any-general now user_id w ws)

-- `setPrimary` fails for a user with two wallets who may manage them and names one of them: its
-- first statement would give both the purpose GENERAL, against the unique key on user and purpose.
-- Nothing is written.
pub set_primary-unique_violation :
    (env : Env) (user_id wallet_id : ℕ) (w : Wallet) (d : Db)
    → require_own user_id wallet_id d ≡ (ok w, d)
    → 2 ≤ count (owned_by user_id) d.wallets
    → set_primary env user_id wallet_id d ≡ (err unique_violation, d)
unfolding set_primary rewrite_wallets store_wallets
set_primary-unique_violation env user_id wallet_id w d found h =
    rw (found, general-clash env.now user_id d.wallets h) refl
