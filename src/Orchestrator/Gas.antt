-- ===== src/Orchestrator/Gas.antt =====
-- gas-resolver.service.ts: the mode in which gas is paid, and the payer.
use coloanex_prod.Common.{Option, arith, none, some, ◌↔◌, ◌≡◌, ◌⊎◌}
use coloanex_prod.Db.{
  GasPaymentMode, user_wallet, platform_wallet, auto, PlatformType, web, app, GasPayer, pays_user,
  pays_platform,
}

pub record Gas : Type 0 where
  pub gas_payment_mode : GasPaymentMode
  pub gas_payer : GasPayer

-- `userMode === 'AUTO' ? 'PLATFORM_WALLET' : userMode`
normalized_user_mode : GasPaymentMode → GasPaymentMode
normalized_user_mode auto = platform_wallet
normalized_user_mode mode = mode

-- `requestedMode && requestedMode !== 'AUTO' ? requestedMode : normalizedUserMode`
normalized_requested_mode : Option GasPaymentMode → GasPaymentMode → GasPaymentMode
unfolding normalized_user_mode
normalized_requested_mode none user_mode = normalized_user_mode user_mode
normalized_requested_mode (some auto) user_mode = normalized_user_mode user_mode
normalized_requested_mode (some mode) user_mode = mode

gas_of_mode : GasPaymentMode → Gas
gas_of_mode platform_wallet = record {
  gas_payment_mode = platform_wallet;
  gas_payer = pays_platform;
}
gas_of_mode user_wallet = record { gas_payment_mode = user_wallet; gas_payer = pays_user }
gas_of_mode auto = record { gas_payment_mode = platform_wallet; gas_payer = pays_platform }

unfoldable pub resolve : PlatformType → Option GasPaymentMode → GasPaymentMode → Gas
unfolding gas_of_mode normalized_requested_mode
resolve app requested user_mode = record {
  gas_payment_mode = platform_wallet;
  gas_payer = pays_platform;
}
resolve web requested user_mode = gas_of_mode (normalized_requested_mode requested user_mode)

-- The user pays exactly when the request is made on the web and asks for USER_WALLET, or asks for
-- nothing definite while the user's stored mode is USER_WALLET.
pub resolve-pays_user :
    (platform : PlatformType) (requested : Option GasPaymentMode) (user_mode : GasPaymentMode)
    → ((resolve platform requested user_mode).gas_payer ≡ pays_user) ↔ (
        (platform ≡ web)
        × ((requested ≡ some user_wallet)
            ⊎ (((requested ≡ none) ⊎ (requested ≡ some auto)) × (user_mode ≡ user_wallet))))
unfolding resolve
resolve-pays_user platform requested user_mode = ground arith

-- The mode that is recorded fits the payer, so it is never AUTO.
pub resolve-mode :
    (platform : PlatformType) (requested : Option GasPaymentMode) (user_mode : GasPaymentMode)
    → let gas = resolve platform requested user_mode in
      ((gas.gas_payer ≡ pays_user) × (gas.gas_payment_mode ≡ user_wallet))
      ⊎ ((gas.gas_payer ≡ pays_platform) × (gas.gas_payment_mode ≡ platform_wallet))
unfolding resolve
resolve-mode platform requested user_mode = ground arith
