-- ===== src/Payments/Configs.antt =====
-- payment-configs.service.ts: `resolveUserGatewayConfig`, `resolveTenantGatewayConfig` and
-- `resolveGatewayConfigForTransaction`. The table of configurations is given by itself, since no
-- handler on Db writes it, and so is the column `ownerUserId` of the tenants.
use coloanex_prod.Common.{Bool, List, Option, is_number, none, not, or_else, some, ℕ, ◌&&◌, ◌==◌}
use coloanex_prod.Db.{
  TransactionType, disbursement, installment_payment, penalty_payment, find_first_desc, Contract,
  Borrower, Db,
}
use coloanex_prod.Service.{find_contract, find_borrower_by_id, JwtPayload}

pub data PaymentGateway : Type 0 where
  gateway_esewa gateway_fonepay gateway_khalti gateway_wallet gateway_bank : PaymentGateway

abbrev pub gateway_code : PaymentGateway → ℕ
gateway_code gateway_esewa = 0
gateway_code gateway_fonepay = 1
gateway_code gateway_khalti = 2
gateway_code gateway_wallet = 3
gateway_code gateway_bank = 4

-- `for_user` is that `ownerScope` is USER and not TENANT; the credentials are opaque.
pub record PaymentConfig : Type 0 where
  pub id : ℕ
  pub for_user : Bool
  pub owner_user_id : Option ℕ
  pub tenant_id : Option ℕ
  pub gateway : PaymentGateway
  pub environment : ℕ
  pub is_active : Bool
  pub updated_at : ℕ

abbrev pub serves : PaymentGateway → PaymentConfig → Bool
serves gateway c = gateway_code c.gateway == gateway_code gateway && c.is_active

abbrev pub of_owner_user : ℕ → PaymentConfig → Bool
of_owner_user user_id c = c.for_user && is_number c.owner_user_id user_id

abbrev pub of_owner_tenant : ℕ → PaymentConfig → Bool
of_owner_tenant tenant_id c = not c.for_user && is_number c.tenant_id tenant_id

unfoldable pub resolve_user_config :
    Option ℕ → PaymentGateway → List PaymentConfig → Option PaymentConfig
resolve_user_config none gateway configs = none
resolve_user_config (some user_id) gateway configs =
    find_first_desc (λ c. c.updated_at) (λ c. of_owner_user user_id c && serves gateway c) configs

unfoldable pub resolve_tenant_config :
    Option ℕ → PaymentGateway → List PaymentConfig → Option PaymentConfig
resolve_tenant_config none gateway configs = none
resolve_tenant_config (some tenant_id) gateway configs =
    find_first_desc (λ c. c.updated_at) (λ c. of_owner_tenant tenant_id c && serves gateway c)
      configs

abbrev pub tenant_of_contract : Option Contract → Option ℕ
tenant_of_contract none = none
tenant_of_contract (some c) = some c.tenant_id

abbrev pub user_of_borrower : Option Borrower → Option ℕ
user_of_borrower none = none
user_of_borrower (some b) = some b.user_id

-- `contract?.borrower?.userId`
unfoldable pub borrower_user : Option Contract → Db → Option ℕ
borrower_user none d = none
borrower_user (some c) d = user_of_borrower (find_borrower_by_id c.borrower_id d)

-- `contract?.tenant?.ownerUserId || undefined`
abbrev pub owner_of_contract : (ℕ → Option ℕ) → Option Contract → Option ℕ
owner_of_contract owner_user none = none
owner_of_contract owner_user (some c) = owner_user c.tenant_id

-- `input.contractId ? await findUnique(…) : null`
unfoldable pub contract_context : Option ℕ → Db → Option Contract
contract_context none d = none
contract_context (some id) d = find_contract id d

-- The payee's configuration first, by the transaction's type.
unfoldable pub config_for :
    TransactionType
    → Option Contract
    → (ℕ → Option ℕ)
    → JwtPayload
    → PaymentGateway
    → List PaymentConfig
    → Db
    → Option PaymentConfig
unfolding resolve_user_config resolve_tenant_config borrower_user
config_for disbursement c owner_user user gateway configs d =
    or_else (resolve_user_config (borrower_user c d) gateway configs)
      (resolve_tenant_config (or_else (tenant_of_contract c) user.tenant_id) gateway configs)
config_for installment_payment c owner_user user gateway configs d =
    or_else (resolve_tenant_config (or_else (tenant_of_contract c) user.tenant_id) gateway configs)
      (resolve_user_config (owner_of_contract owner_user c) gateway configs)
config_for penalty_payment c owner_user user gateway configs d =
    or_else (resolve_tenant_config (or_else (tenant_of_contract c) user.tenant_id) gateway configs)
      (resolve_user_config (owner_of_contract owner_user c) gateway configs)
config_for _ c owner_user user gateway configs d =
    or_else (resolve_tenant_config (or_else (tenant_of_contract c) user.tenant_id) gateway configs)
      (resolve_user_config (some user.sub) gateway configs)
