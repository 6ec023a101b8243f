-- ===== src/Wallets/Service.antt =====
-- wallets.service.ts: who may manage wallets, and `create`. The unique keys of the wallets table are checked where a statement changes one of their columns.
use coloanex_prod.Common.{
  Bool, List, Option, [], any, false, find, get_or, if◌then◌else◌, none, not, or_else, some, true,
  ℕ, ◌&&◌, ◌++◌, ◌==◌, ◌||◌, ◌∷◌,
}
use coloanex_prod.Db.{
  WalletProvider, WalletPurpose, primary, gas, receive_esewa, receive_khalti, general, PlatformType,
  ok, err, update_where, find_or_throw, throw_if, modify, bad_request, unique_violation, not_found,
  Action, when, forbidden, gets, User, Wallet, Db, ◌>>◌, ◌>>=◌,
}
use coloanex_prod.Orchestrator.Decide.{is_borrower_role}
use coloanex_prod.Service.{Env}

abbrev pub provider_code : WalletProvider → ℕ
provider_code WalletProvider.metamask = 0
provider_code WalletProvider.expo_secure = 1
provider_code WalletProvider.esewa = 2
provider_code WalletProvider.khalti = 3

abbrev pub purpose_code : WalletPurpose → ℕ
purpose_code primary = 0
purpose_code gas = 1
purpose_code receive_esewa = 2
purpose_code receive_khalti = 3
purpose_code general = 4

-- `@@unique([userId, purpose])`
abbrev pub purpose_clash : Wallet → Wallet → Bool
purpose_clash a b = a.user_id == b.user_id && purpose_code a.purpose == purpose_code b.purpose

-- `@@unique([provider, address])`
abbrev pub address_clash : Wallet → Wallet → Bool
address_clash a b = provider_code a.provider == provider_code b.provider && a.address == b.address

abbrev pub clashes : Wallet → Wallet → Bool
clashes a b = purpose_clash a b || address_clash a b

abbrev pub has_unique_keys : List Wallet → Bool
has_unique_keys [] = true
has_unique_keys (w ∷ ws) = not (any (clashes w) ws) && has_unique_keys ws

-- A statement that leaves these rows in the table, refused where two of them share a unique key.
unfoldable pub store_wallets : List Wallet → Action (Unit {0})
store_wallets ws d =
    if has_unique_keys ws then (ok tt, record d { wallets = ws }) else (err unique_violation, d)

abbrev pub is_primary_purpose : WalletPurpose → Bool
is_primary_purpose primary = true
is_primary_purpose _ = false

abbrev pub is_receive_purpose : WalletPurpose → Bool
is_receive_purpose receive_esewa = true
is_receive_purpose receive_khalti = true
is_receive_purpose _ = false

abbrev pub is_gateway_provider : WalletProvider → Bool
is_gateway_provider WalletProvider.esewa = true
is_gateway_provider WalletProvider.khalti = true
is_gateway_provider _ = false

abbrev pub user_is_borrower : User → Bool
user_is_borrower u = any is_borrower_role u.roles

unfoldable pub find_wallet_user : ℕ → Db → Option User
find_wallet_user user_id d = find (λ u. u.id == user_id) d.users

unfoldable pub ensure_wallet_management_allowed : ℕ → Action (Unit {0})
ensure_wallet_management_allowed user_id = do
  u ← find_or_throw (find_wallet_user user_id) (not_found "User not found")
  throw_if (user_is_borrower u) (
      forbidden
        "Borrower wallet management is disabled. Mobile borrower flows are always PLATFORM_WALLET.")

pub record CreateWalletDto : Type 0 where
  pub provider : WalletProvider
  pub platform : PlatformType
  pub purpose : Option WalletPurpose
  pub address : ℕ
  pub label : Option ℕ

-- `dto.purpose || 'PRIMARY'`
abbrev pub wanted_purpose : CreateWalletDto → WalletPurpose
wanted_purpose dto = get_or dto.purpose primary

unfoldable pub find_address : CreateWalletDto → Db → Option Wallet
find_address dto d =
    find (λ w. provider_code w.provider == provider_code dto.provider && w.address == dto.address)
      d.wallets

unfoldable pub find_purpose : ℕ → WalletPurpose → Db → Option Wallet
find_purpose user_id purpose d =
    find (λ w. w.user_id == user_id && purpose_code w.purpose == purpose_code purpose) d.wallets

-- `exists && exists.userId !== userId`
abbrev pub is_foreign : ℕ → Option Wallet → Bool
is_foreign user_id none = false
is_foreign user_id (some w) = not (w.user_id == user_id)

abbrev pub owned_by : ℕ → Wallet → Bool
owned_by user_id w = w.user_id == user_id

abbrev pub clear_primary : ℕ → Wallet → Wallet
clear_primary now w = record w { is_primary = false; updated_at = now }

-- `updateMany({ where: { userId }, data: { isPrimary: false } })` touches no unique key.
unfoldable pub clear_primaries : ℕ → ℕ → Db → Db
clear_primaries now user_id d = record d {
  wallets = update_where (owned_by user_id) (clear_primary now) d.wallets;
}

-- What `create` writes into the wallet that has the purpose already.
abbrev pub relinked : ℕ → CreateWalletDto → Wallet → Wallet
relinked now dto w = record w {
  provider = dto.provider;
  platform = dto.platform;
  address = dto.address;
  label = or_else dto.label w.label;
  purpose = wanted_purpose dto;
  is_active = true;
  is_primary = is_primary_purpose (wanted_purpose dto);
  updated_at = now;
}

abbrev pub new_wallet : Env → ℕ → CreateWalletDto → Wallet
new_wallet env user_id dto = record {
  id = env.uuid 0;
  user_id = user_id;
  provider = dto.provider;
  purpose = wanted_purpose dto;
  address = dto.address;
  label = dto.label;
  is_primary = is_primary_purpose (wanted_purpose dto);
  platform = dto.platform;
  is_active = true;
  created_at = env.now;
  updated_at = env.now;
}

-- The rows that the last statement of `create` leaves.
abbrev pub linked : Env → ℕ → CreateWalletDto → Option Wallet → List Wallet → List Wallet
linked env user_id dto none ws = ws ++ new_wallet env user_id dto ∷ []
linked env user_id dto (some old) ws = update_where (λ w. w.id == old.id) (relinked env.now dto) ws

unfoldable pub write_link : Env → ℕ → CreateWalletDto → Option Wallet → Action (Unit {0})
write_link env user_id dto old d = store_wallets (linked env user_id dto old d.wallets) d

-- The guards of `create` on the request and on the address.
unfoldable pub check_request : ℕ → CreateWalletDto → Action (Unit {0})
check_request user_id dto = do
  throw_if (is_gateway_provider dto.provider)
      (bad_request "Use Tenant Payment Config to manage eSewa/Khalti credentials.")
  throw_if (is_receive_purpose (wanted_purpose dto)) (
      bad_request
        "Receive wallet purposes are deprecated. Configure gateways in Tenant Payment Config.")
  exists ← gets (find_address dto)
  throw_if (is_foreign user_id exists) (bad_request "Wallet address is already linked")

unfoldable pub check_create : ℕ → CreateWalletDto → Action (Unit {0})
check_create user_id dto = do ensure_wallet_management_allowed user_id; check_request user_id dto

unfoldable pub create_wallet : Env → ℕ → CreateWalletDto → Action (Unit {0})
create_wallet env user_id dto = do
  check_create user_id dto
  old ← gets (find_purpose user_id (wanted_purpose dto))
  when (is_primary_purpose (wanted_purpose dto)) (modify (clear_primaries env.now user_id))
  write_link env user_id dto old
