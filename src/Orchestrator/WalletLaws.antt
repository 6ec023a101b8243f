-- ===== src/Orchestrator/WalletLaws.antt =====
-- The wallets that `resolveWallet` returns (wallet-resolver.service.ts).
use coloanex_prod.Common.{
  Bool, Elem, List, Option, Option-cases, [], arith, inl, inr, none, some, true, ℕ, ◌&&◌, ◌==◌, ◌∙◌,
  ◌∷◌, ◌≡◌,
}
use coloanex_prod.Db.{Wallet, PlatformType, WalletPurpose, find_first_desc, Db}
use coloanex_prod.Db.Membership.{
  find_first_desc-Elem, Elem-filter, Elem-find, Elem-order_desc, Elem-head?,
}
use coloanex_prod.Orchestrator.Wallets.{
  same_purpose, purpose_priority, resolve_wallet, is_candidate, wallet_by_purpose, primary_rank,
  any_wallet, preferred_wallet,
}

-- An active wallet of the user on the platform, in the database.
pub record IsActiveWallet (user_id : ℕ) (platform : PlatformType) (d : Db) (w : Wallet)
    : Type 0 where
  pub stored : Elem w d.wallets
  pub candidate : is_candidate user_id platform w ≡ true

preferred_wallet-Elem :
    (user_id : ℕ) (platform : PlatformType) (preferred : Option ℕ) (ws : List Wallet) (w : Wallet)
    → preferred_wallet user_id platform preferred ws ≡ some w
    → Elem w ws × (is_candidate user_id platform w ≡ true)
unfolding preferred_wallet
preferred_wallet-Elem user_id platform none ws w h = cc
preferred_wallet-Elem user_id platform (some id) ws w h =
    let (stored, test) = Elem-find (λ v. v.id == id && is_candidate user_id platform v) w ws h in
    (stored, ground arith)

wallet_by_purpose-Elem :
    (user_id : ℕ) (platform : PlatformType) (purposes : List WalletPurpose) (ws : List Wallet)
    (w : Wallet)
    → wallet_by_purpose user_id platform purposes ws ≡ some w
    → Elem w ws × (is_candidate user_id platform w ≡ true)
unfolding wallet_by_purpose
wallet_by_purpose-Elem user_id platform [] ws w h = cc
wallet_by_purpose-Elem user_id platform (purpose ∷ purposes) ws w h =
    elim (Option-cases (
      find_first_desc (λ v. v.updated_at)
        (λ v. is_candidate user_id platform v && same_purpose v.purpose purpose) ws)) [
          | inl e ↦ wallet_by_purpose-Elem user_id platform purposes ws w (rw e at h)
          | inr (v, e) ↦
              let (stored, test) =
                find_first_desc-Elem (λ v. v.updated_at)
                  (λ v. is_candidate user_id platform v && same_purpose v.purpose purpose) w ws
                  (e ∙ (rw e at h)) in
              (stored, ground arith)
        ]

any_wallet-Elem :
    (user_id : ℕ) (platform : PlatformType) (ws : List Wallet) (w : Wallet)
    → any_wallet user_id platform ws ≡ some w
    → Elem w ws × (is_candidate user_id platform w ≡ true)
unfolding any_wallet
any_wallet-Elem user_id platform ws w h =
    Elem-filter (is_candidate user_id platform) w ws (
      Elem-order_desc (λ v. v.updated_at) w _ (Elem-order_desc primary_rank w _ (Elem-head? w _ h)))

-- `resolveWallet` returns nothing but active wallets of the user on the platform, whichever of its
-- three searches succeeds.
pub resolve_wallet-IsActiveWallet :
    (user_id : ℕ) (platform : PlatformType) (preferred : Option ℕ) (for_gas : Bool) (d : Db)
    (w : Wallet)
    → resolve_wallet user_id platform preferred for_gas d ≡ some w
    → IsActiveWallet user_id platform d w
unfolding resolve_wallet
resolve_wallet-IsActiveWallet user_id platform preferred for_gas d w h = ground (
  arith,
  preferred_wallet-Elem user_id platform preferred d.wallets w,
  wallet_by_purpose-Elem user_id platform (purpose_priority for_gas) d.wallets w,
  any_wallet-Elem user_id platform d.wallets w,
)
