-- ===== src/Payments/Configuring.antt =====
-- payment-configs.service.ts: `upsert` and `remove`, on the table of configurations.
use coloanex_prod.Common.{
  Bool, List, Option, [], false, find, get_or, if◌then◌else◌, is_number, is_some, none, or_else,
  same_number, some, true, ℕ, ◌&&◌, ◌++◌, ◌==◌, ◌||◌, ◌∷◌,
}
use coloanex_prod.Db.{Result, ok, err, update_where, delete_where, forbidden, Error}
use coloanex_prod.Service.{is_super_admin, Env, JwtPayload}
use coloanex_prod.Payments.Configs.{PaymentGateway, gateway_code, PaymentConfig}

pub record UpsertPaymentConfigDto : Type 0 where
  pub for_user : Bool
  pub user_id : Option ℕ
  pub tenant_id : Option ℕ
  pub gateway : PaymentGateway
  pub environment : ℕ
  pub is_active : Option Bool

abbrev pub can_manage_tenant : JwtPayload → ℕ → Bool
can_manage_tenant user tenant_id = is_super_admin user || is_number user.tenant_id tenant_id

abbrev pub can_manage_user : JwtPayload → ℕ → Bool
can_manage_user user user_id = is_super_admin user || user.sub == user_id

-- For whom the configuration is written: the request's owner, or the caller.
unfoldable pub config_owner : UpsertPaymentConfigDto → JwtPayload → Option ℕ
config_owner dto user =
    if dto.for_user
    then some (get_or dto.user_id user.sub)
    else or_else dto.tenant_id user.tenant_id

abbrev pub can_manage : UpsertPaymentConfigDto → JwtPayload → ℕ → Bool
can_manage dto user owner =
    if dto.for_user then can_manage_user user owner else can_manage_tenant user owner

-- The row of the unique key on the owner, the gateway and the environment.
abbrev pub has_key : UpsertPaymentConfigDto → ℕ → PaymentConfig → Bool
has_key dto owner c =
    (if dto.for_user then is_number c.owner_user_id owner else is_number c.tenant_id owner)
    && (gateway_code c.gateway == gateway_code dto.gateway && c.environment == dto.environment)

-- What `upsert` writes, whether it updates or creates.
abbrev pub written_config : Env → UpsertPaymentConfigDto → ℕ → ℕ → PaymentConfig
written_config env dto owner id = record {
  id = id;
  for_user = dto.for_user;
  owner_user_id = if dto.for_user then some owner else none;
  tenant_id = if dto.for_user then none else some owner;
  gateway = dto.gateway;
  environment = dto.environment;
  is_active = get_or dto.is_active true;
  updated_at = env.now;
}

unfoldable pub store_config :
    Env
    → UpsertPaymentConfigDto
    → ℕ
    → Option PaymentConfig
    → List PaymentConfig
    → PaymentConfig × List PaymentConfig
store_config env dto owner none configs =
    let c = written_config env dto owner (env.uuid 0) in (c, configs ++ c ∷ [])
store_config env dto owner (some s) configs =
    let c = written_config env dto owner s.id in
    (c, update_where (λ x. x.id == s.id) (λ x. c) configs)

abbrev pub no_owner : Bool → Error
no_owner true = forbidden "User scope requires a user id"
no_owner false = forbidden "Tenant scope requires tenantId"

abbrev pub no_access : Bool → Error
no_access true = forbidden "You cannot manage payment config for user"
no_access false = forbidden "You cannot manage payment config for this tenant"

unfoldable pub upsert_for :
    Env
    → UpsertPaymentConfigDto
    → JwtPayload
    → Option ℕ
    → List PaymentConfig
    → Result PaymentConfig × List PaymentConfig
unfolding store_config
upsert_for env dto user none configs = (err (no_owner dto.for_user), configs)
upsert_for env dto user (some owner) configs =
    let (c, configs') = store_config env dto owner (find (has_key dto owner) configs) configs in
    if can_manage dto user owner then (ok c, configs') else (err (no_access dto.for_user), configs)

unfoldable pub upsert_config :
    Env
    → UpsertPaymentConfigDto
    → JwtPayload
    → List PaymentConfig
    → Result PaymentConfig × List PaymentConfig
unfolding config_owner upsert_for
upsert_config env dto user configs = upsert_for env dto user (config_owner dto user) configs

-- `canManageUser(currentUser, existing.ownerUserId || '')`; the empty text is nobody's.
abbrev pub can_remove : JwtPayload → PaymentConfig → Bool
can_remove user c =
    is_super_admin user
    || (if c.for_user
        then is_number c.owner_user_id user.sub
        else is_some c.tenant_id && same_number user.tenant_id c.tenant_id)

unfoldable pub remove_found :
    JwtPayload → Option PaymentConfig → List PaymentConfig → Result (Unit {0}) × List PaymentConfig
remove_found user none configs = (ok tt, configs)
remove_found user (some c) configs =
    if can_remove user c then (ok tt, delete_where (λ x. x.id == c.id) configs) else (
      err (
          forbidden (
            if c.for_user
            then "You cannot delete payment config for this user"
            else "You cannot delete payment config for this tenant")),
      configs,
    )

unfoldable pub remove_config :
    ℕ → JwtPayload → List PaymentConfig → Result (Unit {0}) × List PaymentConfig
unfolding remove_found
remove_config id user configs = remove_found user (find (λ c. c.id == id) configs) configs
