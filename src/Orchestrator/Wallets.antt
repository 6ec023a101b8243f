-- ===== src/Orchestrator/Wallets.antt =====
-- wallet-resolver.service.ts: the wallet of a transaction.
use coloanex_prod.Common.{
  Bool, List, Option, [], false, filter, find, head?, if◌then◌else◌, none, or_else, some, true, ℕ,
  ◌&&◌, ◌==◌, ◌∷◌,
}
use coloanex_prod.Db.{
  Wallet, WalletPurpose, primary, gas, receive_esewa, receive_khalti, general, PlatformType, web,
  app, find_first_desc, order_desc, Db,
}

abbrev pub same_platform : PlatformType → PlatformType → Bool
same_platform web web = true
same_platform app app = true
same_platform _ _ = false

abbrev pub same_purpose : WalletPurpose → WalletPurpose → Bool
same_purpose primary primary = true
same_purpose gas gas = true
same_purpose receive_esewa receive_esewa = true
same_purpose receive_khalti receive_khalti = true
same_purpose general general = true
same_purpose _ _ = false

-- `{ userId, isActive: true, platform }`
abbrev pub is_candidate : ℕ → PlatformType → Wallet → Bool
is_candidate user_id platform w =
    w.user_id == user_id && (w.is_active && same_platform w.platform platform)

unfoldable pub preferred_wallet : ℕ → PlatformType → Option ℕ → List Wallet → Option Wallet
preferred_wallet user_id platform none ws = none
preferred_wallet user_id platform (some id) ws =
    find (λ w. w.id == id && is_candidate user_id platform w) ws

-- The loop over `purposePriority`.
unfoldable pub wallet_by_purpose :
    ℕ → PlatformType → List WalletPurpose → List Wallet → Option Wallet
wallet_by_purpose user_id platform [] ws = none
wallet_by_purpose user_id platform (purpose ∷ purposes) ws =
    or_else
      (find_first_desc (λ w. w.updated_at)
        (λ w. is_candidate user_id platform w && same_purpose w.purpose purpose) ws)
      (wallet_by_purpose user_id platform purposes ws)

-- The `purpose` that `orchestrate` passes is GAS or PRIMARY.
abbrev pub purpose_priority : Bool → List WalletPurpose
purpose_priority true = gas ∷ primary ∷ general ∷ []
purpose_priority false = primary ∷ general ∷ []

abbrev pub primary_rank : Wallet → ℕ
primary_rank w = if w.is_primary then 1 else 0

-- `orderBy: [{ isPrimary: 'desc' }, { updatedAt: 'desc' }]`
unfoldable pub any_wallet : ℕ → PlatformType → List Wallet → Option Wallet
any_wallet user_id platform ws = head? (
    order_desc primary_rank
      (order_desc (λ w. w.updated_at) (filter (is_candidate user_id platform) ws)))

unfoldable pub resolve_wallet : ℕ → PlatformType → Option ℕ → Bool → Db → Option Wallet
unfolding preferred_wallet wallet_by_purpose any_wallet
resolve_wallet user_id platform preferred for_gas d =
    or_else (preferred_wallet user_id platform preferred d.wallets) (
      or_else (wallet_by_purpose user_id platform (purpose_priority for_gas) d.wallets)
        (any_wallet user_id platform d.wallets))
