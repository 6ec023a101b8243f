-- ===== src/Wallets/Changes.antt =====
-- wallets.service.ts: `update`, `setPrimary`, `remove` and `updateGasPaymentMode`.
use coloanex_prod.Common.{
  Bool, Option, false, find, get_or, if◌then◌else◌, is_number, map, none, not, or_else, some, true,
  ℕ, ◌&&◌, ◌==◌,
}
use coloanex_prod.Db.{
  WalletPurpose, primary, general, GasPaymentMode, platform_wallet, user_wallet, auto, PlatformType,
  delete_where, find_first_desc, update_where, find_or_throw, not_found, modify, bad_request,
  throw_if, Action, User, Transaction, Wallet, Db, ◌>>◌, ◌>>=◌,
}
use coloanex_prod.Service.{Env}
use coloanex_prod.Wallets.Service.{
  ensure_wallet_management_allowed, user_is_borrower, owned_by, find_wallet_user, store_wallets,
}
use coloanex_prod.Orchestrator.Decide.{is_app}

pub record UpdateWalletDto : Type 0 where
  pub label : Option ℕ
  pub is_active : Option Bool
  pub platform : Option PlatformType
  pub purpose : Option WalletPurpose

abbrev pub edited : ℕ → UpdateWalletDto → Wallet → Wallet
edited now dto w = record w {
  label = or_else dto.label w.label;
  is_active = get_or dto.is_active w.is_active;
  platform = get_or dto.platform w.platform;
  purpose = get_or dto.purpose w.purpose;
  updated_at = now;
}

-- `findFirst({ where: { id: walletId, userId } })`
unfoldable pub find_own : ℕ → ℕ → Db → Option Wallet
find_own user_id wallet_id d = find (λ w. w.id == wallet_id && w.user_id == user_id) d.wallets

unfoldable pub require_own : ℕ → ℕ → Action Wallet
require_own user_id wallet_id = do
  ensure_wallet_management_allowed user_id
  find_or_throw (find_own user_id wallet_id) (not_found "Wallet not found")

-- A statement that changes the rows of the wallets table.
unfoldable pub rewrite_wallets : (Wallet → Bool) → (Wallet → Wallet) → Action (Unit {0})
rewrite_wallets p f d = store_wallets (update_where p f d.wallets) d

unfoldable pub update_wallet : Env → ℕ → ℕ → UpdateWalletDto → Action (Unit {0})
update_wallet env user_id wallet_id dto = do
  require_own user_id wallet_id
  rewrite_wallets (λ w. w.id == wallet_id) (edited env.now dto)

abbrev pub made_general : ℕ → Wallet → Wallet
made_general now w = record w { is_primary = false; purpose = general; updated_at = now }

abbrev pub made_primary : ℕ → Wallet → Wallet
made_primary now w = record w { is_primary = true; purpose = primary; updated_at = now }

unfoldable pub set_primary : Env → ℕ → ℕ → Action (Unit {0})
set_primary env user_id wallet_id = do
  require_own user_id wallet_id
  rewrite_wallets (owned_by user_id) (made_general env.now)
  rewrite_wallets (λ w. w.id == wallet_id) (made_primary env.now)

-- `transactions.wallet_id` is optional, so that deleting a wallet clears it.
abbrev pub forget_wallet : ℕ → Transaction → Transaction
forget_wallet wallet_id t = record t {
  wallet_id = if is_number t.wallet_id wallet_id then none else t.wallet_id;
}

unfoldable pub delete_wallet : ℕ → Db → Db
delete_wallet wallet_id d = record d {
  wallets = delete_where (λ w. w.id == wallet_id) d.wallets;
  transactions = map (forget_wallet wallet_id) d.transactions;
}

unfoldable pub next_wallet : ℕ → Db → Option Wallet
next_wallet user_id d = find_first_desc (λ w. w.created_at) (owned_by user_id) d.wallets

abbrev pub promoted : ℕ → Wallet → Wallet
promoted now w = record w { is_primary = true; updated_at = now }

-- The last step of `remove`.
unfoldable pub promote : ℕ → Option Wallet → Db → Db
promote now none d = d
promote now (some next) d = record d {
  wallets = update_where (λ w. w.id == next.id) (promoted now) d.wallets;
}

unfoldable pub promote_next : ℕ → ℕ → Db → Db
promote_next now user_id d = promote now (next_wallet user_id d) d

unfoldable pub remove_wallet : Env → ℕ → ℕ → Action (Unit {0})
remove_wallet env user_id wallet_id = do
  require_own user_id wallet_id
  modify (delete_wallet wallet_id)
  modify (promote_next env.now user_id)

abbrev pub is_platform_wallet : GasPaymentMode → Bool
is_platform_wallet platform_wallet = true
is_platform_wallet user_wallet = false
is_platform_wallet auto = false

unfoldable pub resolved_mode : User → PlatformType → GasPaymentMode → GasPaymentMode
resolved_mode u platform mode =
    if user_is_borrower u && is_app platform then platform_wallet else mode

unfoldable pub update_gas_payment_mode : ℕ → GasPaymentMode → PlatformType → Action (Unit {0})
update_gas_payment_mode user_id mode platform = do
  u ← find_or_throw (find_wallet_user user_id) (not_found "User not found")
  throw_if (user_is_borrower u && (is_app platform && not (is_platform_wallet mode))) (
      bad_request
        "Wallet mode is not supported in the app. Please switch to Platform Mode (subscription mode).")
  modify λ d. record d {
    users =
        update_where (λ x. x.id == user_id)
          (λ x. record x { gas_payment_mode = resolved_mode u platform mode }) d.users;
  }
