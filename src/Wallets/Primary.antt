-- ===== src/Wallets/Primary.antt =====
-- wallets.service.ts: how many primary wallets a user has after `create`.
use coloanex_prod.Common.{
  Bool, Bool-cases, List, Option, Option-cases, arith, false, inl, inr, none, refl, some, ℕ, ◌==◌,
  ◌≡◌, ◌≤◌, ◌⊎◌,
}
use coloanex_prod.Db.{update_where, forbidden, not_found, ◌>>◌, modify, when, Db, Wallet}
use coloanex_prod.Service.{Env}
use coloanex_prod.Service.Guarded.{
  IsGuarded, then-IsGuarded, throw_if_last-IsGuarded, throw_if-IsGuarded,
}
use coloanex_prod.Wallets.Service.{
  wanted_purpose, create_wallet, linked, is_gateway_provider, owned_by, is_foreign, relinked,
  CreateWalletDto, ensure_wallet_management_allowed, clear_primaries, check_request, store_wallets,
  write_link, clear_primary, is_receive_purpose, find_address, new_wallet, check_create,
  user_is_borrower, find_purpose, find_wallet_user, is_primary_purpose,
}
use coloanex_prod.Wallets.Counts.{
  HasDistinctIds, count-update_where-lower, count-append-lower, is_primary_of,
  count-update_where-stable, count-cleared, count-append, count-update_where, count,
}

-- The last statement of `create` on rows in which no other wallet is primary.
linked-primary :
    (env : Env) (user_id : ℕ) (dto : CreateWalletDto) (old : Option Wallet) (ws : List Wallet)
    → ((id : ℕ) → count (λ w. w.id == id) ws ≤ 1)
    → count (is_primary_of user_id) ws ≡ 0
    → count (is_primary_of user_id) (linked env user_id dto old ws) ≤ 1
linked-primary env user_id dto none ws h e =
    let c : _ ≤ _ = count-append (is_primary_of user_id) (new_wallet env user_id dto) ws in
    omega arith
linked-primary env user_id dto (some old) ws h e =
    let c : _ ≤ _ =
      count-update_where (is_primary_of user_id) (λ w. w.id == old.id) (relinked env.now dto) ws in
    let i : _ ≤ _ = h old.id in omega arith

not_primary : (user_id : ℕ) (w : Wallet) → w.is_primary ≡ false → is_primary_of user_id w ≡ false
not_primary user_id w h = ground arith

-- The last statement of `create` for another purpose makes no wallet primary.
linked-other :
    (env : Env) (user_id : ℕ) (dto : CreateWalletDto) (old : Option Wallet) (ws : List Wallet)
    → is_primary_purpose (wanted_purpose dto) ≡ false
    → count (is_primary_of user_id) (linked env user_id dto old ws)
      ≤ count (is_primary_of user_id) ws
linked-other env user_id dto none ws h =
    count-append-lower (is_primary_of user_id) (new_wallet env user_id dto) ws
      (not_primary user_id (new_wallet env user_id dto) h)
linked-other env user_id dto (some old) ws h =
    count-update_where-lower (is_primary_of user_id) (λ w. w.id == old.id) (relinked env.now dto) ws
      (λ w. not_primary user_id (relinked env.now dto w) h)

-- A statement on the wallets stores its rows or leaves the database as it was.
store_wallets-cases :
    (ws : List Wallet) (d : Db)
    → ((store_wallets ws d).1.wallets ≡ ws) ⊎ ((store_wallets ws d).1 ≡ d)
unfolding store_wallets
store_wallets-cases ws d = ground arith

store_wallets-count :
    (p : Wallet → Bool) (ws : List Wallet) (d : Db)
    → count p ws ≤ 1
    → count p d.wallets ≤ 1
    → count p (store_wallets ws d).1.wallets ≤ 1
store_wallets-count p ws d h k = elim (store_wallets-cases ws d) [ inl e ↦ rw e h | inr e ↦ rw e k ]

-- The writes of `create`, after its guards.
linking-primary :
    (env : Env) (user_id : ℕ) (dto : CreateWalletDto) (old : Option Wallet) (d : Db)
    → HasDistinctIds d
    → count (is_primary_of user_id) d.wallets ≤ 1
    → count
        (is_primary_of user_id)
        ((when (is_primary_purpose (wanted_purpose dto)) (modify (clear_primaries env.now user_id))
            >> write_link env user_id dto old)
          d).1.wallets
      ≤ 1
unfolding write_link clear_primaries
linking-primary env user_id dto old d ids h =
    elim (Bool-cases (is_primary_purpose (wanted_purpose dto))) [
      | inl e ↦
          let ws : List Wallet =
            update_where (owned_by user_id) (clear_primary env.now) d.wallets in
          let none_left : count (is_primary_of user_id) ws ≡ 0 =
            count-cleared user_id (clear_primary env.now) d.wallets (λ w. refl) in
          rw e (
            store_wallets-count (is_primary_of user_id) (linked env user_id dto old ws)
              (record d { wallets = ws })
              (linked-primary env user_id dto old ws
                (λ id.
                  rw
                    (count-update_where-stable (λ w. w.id == id) (owned_by user_id)
                      (clear_primary env.now) d.wallets (λ w. refl))
                    (ids id))
                none_left)
              (omega arith))
      | inr e ↦
          let lower : _ ≤ _ = linked-other env user_id dto old d.wallets e in
          rw e (
            store_wallets-count (is_primary_of user_id) (linked env user_id dto old d.wallets) d
              (omega arith) h)
    ]

-- What the guards of `create` show of the request and of the caller.
pub record MayLink (user_id : ℕ) (dto : CreateWalletDto) (d : Db) : Type 0 where
  pub own_chain : is_gateway_provider dto.provider ≡ false
  pub pays : is_receive_purpose (wanted_purpose dto) ≡ false
  pub unclaimed : is_foreign user_id (find_address dto d) ≡ false

may_manage-IsGuarded :
    (user_id : ℕ) (d : Db) → IsGuarded (Unit {0}) (ensure_wallet_management_allowed user_id) d
unfolding ensure_wallet_management_allowed
may_manage-IsGuarded user_id d = elim (Option-cases (find_wallet_user user_id d)) [
  | inl missing ↦ inl (not_found "User not found", rw missing refl)
  | inr (u, found) ↦ rw found (
      throw_if_last-IsGuarded (Unit {0}) (user_is_borrower u)
        (forbidden
          "Borrower wallet management is disabled. Mobile borrower flows are always PLATFORM_WALLET.")
        d (λ e. tt))
]

-- The guards after the first.
check_request-IsGuarded :
    (user_id : ℕ) (dto : CreateWalletDto) (d : Db)
    → IsGuarded (MayLink user_id dto d) (check_request user_id dto) d
unfolding check_request
check_request-IsGuarded user_id dto d =
    let P : Type 0 = MayLink user_id dto d in
    throw_if-IsGuarded P (is_gateway_provider dto.provider) _ _ d λ own.
      throw_if-IsGuarded P (is_receive_purpose (wanted_purpose dto)) _ _ d λ pays.
        throw_if_last-IsGuarded P (is_foreign user_id (find_address dto d)) _ d
          λ free. record { own_chain = own; pays = pays; unclaimed = free }

check_create-IsGuarded :
    (user_id : ℕ) (dto : CreateWalletDto) (d : Db)
    → IsGuarded (MayLink user_id dto d) (check_create user_id dto) d
unfolding check_create
check_create-IsGuarded user_id dto d =
    then-IsGuarded (Unit {0}) (MayLink user_id dto d) (ensure_wallet_management_allowed user_id)
      (check_request user_id dto) d (may_manage-IsGuarded user_id d)
      (λ allowed. check_request-IsGuarded user_id dto d)

-- Where wallets have distinct identifiers and the user has at most one primary wallet, the user
-- has at most one after `create`, whether it returns or throws.
pub create_wallet-primary :
    (env : Env) (user_id : ℕ) (dto : CreateWalletDto) (d : Db)
    → HasDistinctIds d
    → count (is_primary_of user_id) d.wallets ≤ 1
    → count (is_primary_of user_id) (create_wallet env user_id dto d).1.wallets ≤ 1
unfolding create_wallet
create_wallet-primary env user_id dto d ids h = elim (check_create-IsGuarded user_id dto d) [
  | inl (e, thrown) ↦ rw thrown h
  | inr (passed, _) ↦
      rw passed
        (linking-primary env user_id dto (find_purpose user_id (wanted_purpose dto) d) d ids h)
]
