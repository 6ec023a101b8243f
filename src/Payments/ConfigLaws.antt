-- ===== src/Payments/ConfigLaws.antt =====
-- A configuration that `upsert` writes is the one that is resolved (payment-configs.service.ts).
use coloanex_prod.Common.{
  All, Bool, Bool-cases, Elem, List, Option, ap, arith, false, find, if◌then◌else◌, inl, inr, none,
  refl, some, subst, sym, true, ℕ, ◌&&◌, ◌<◌, ◌==◌, ◌∙◌, ◌≡◌, ◌⊎◌,
}
use coloanex_prod.Db.{find_first_desc, update_where, ok}
use coloanex_prod.Service.{Env, JwtPayload}
use coloanex_prod.Db.Membership.{All-Elem, Elem-update_where, Elem-find, update_where-Elem}
use coloanex_prod.Payments.Configuring.{
  UpsertPaymentConfigDto, store_config, written_config, has_key, config_owner, upsert_config,
  upsert_for,
}
use coloanex_prod.Payments.Configs.{
  PaymentGateway, PaymentConfig, resolve_tenant_config, resolve_user_config, of_owner_tenant,
  serves, of_owner_user, gateway_code,
}
use coloanex_prod.Db.Latest.{Elem-snoc, snoc-Elem, find_first_desc-Latest}

-- The configurations of an owner.
abbrev pub resolve_for : Bool → ℕ → PaymentGateway → List PaymentConfig → Option PaymentConfig
resolve_for true owner = resolve_user_config (some owner)
resolve_for false owner = resolve_tenant_config (some owner)

abbrev stamp : PaymentConfig → ℕ
stamp c = c.updated_at

same_id : (n : ℕ) → n == n ≡ true
same_id n = ground arith

-- The stored configuration stands in the table, and every other row was there before.
abbrev IsStored : List PaymentConfig → PaymentConfig × List PaymentConfig → Type 0
IsStored before (c, after) =
    Elem c after × ((y : PaymentConfig) → Elem y after → (y ≡ c) ⊎ Elem y before)

kept_or_written :
    (p : Bool) (y x c : PaymentConfig) (xs : List PaymentConfig)
    → Elem x xs
    → y ≡ (if p then c else x)
    → (y ≡ c) ⊎ Elem y xs
kept_or_written true y x c xs m e = inl e
kept_or_written false y x c xs m e = inr (subst (λ z. Elem z xs) (sym e) m)

store_config-IsStored :
    (env : Env) (dto : UpsertPaymentConfigDto) (owner : ℕ) (configs : List PaymentConfig)
    (s : Option PaymentConfig)
    → find (has_key dto owner) configs ≡ s
    → IsStored configs (store_config env dto owner s configs)
unfolding store_config
store_config-IsStored env dto owner configs none found =
    let c : PaymentConfig = written_config env dto owner (env.uuid 0) in
    (snoc-Elem c configs, λ y m. Elem-snoc y c configs m)
store_config-IsStored env dto owner configs (some s) found =
    let c : PaymentConfig = written_config env dto owner s.id in
    let here : (if s.id == s.id then c else s) ≡ c = rw (same_id s.id) refl in
    (
      subst (λ z. Elem z (update_where (λ x. x.id == s.id) (λ x. c) configs)) here
          (update_where-Elem (λ x. x.id == s.id) (λ x. c) s configs
            (Elem-find (has_key dto owner) s configs found).0),
      λ y m.
          let (x, k, e) = Elem-update_where (λ x. x.id == s.id) (λ x. c) y configs m in
          kept_or_written (x.id == s.id) y x c configs k e,
    )

-- Which row is stored.
store_config-written :
    (env : Env) (dto : UpsertPaymentConfigDto) (owner : ℕ) (s : Option PaymentConfig)
    (configs : List PaymentConfig)
    → (id : ℕ) × ((store_config env dto owner s configs).0 ≡ written_config env dto owner id)
unfolding store_config
store_config-written env dto owner none configs = (env.uuid 0, refl)
store_config-written env dto owner (some s) configs = (s.id, refl)

latest_found :
    (env : Env) (p : PaymentConfig → Bool) (configs : List PaymentConfig)
    (r : PaymentConfig × List PaymentConfig)
    → r.0.updated_at ≡ env.now
    → p r.0 ≡ true
    → All (λ x. x.updated_at < env.now) configs
    → IsStored configs r
    → find_first_desc stamp p r.1 ≡ some r.0
latest_found env p configs (c, after) time fits older (there, rest) =
    find_first_desc-Latest stamp p c after
      (λ y m e. elim (rest y m) [
        | inl same ↦ inl same
        | inr before ↦ inr (
            subst (λ t. y.updated_at < t) (sym time)
              (All-Elem (λ x. x.updated_at < env.now) y configs older before))
      ])
      there fits

written_fits_user :
    (env : Env) (dto : UpsertPaymentConfigDto) (owner id : ℕ)
    → dto.for_user ≡ true
    → (written_config env dto owner id).is_active ≡ true
    → (of_owner_user owner (written_config env dto owner id)
        && serves dto.gateway (written_config env dto owner id))
      ≡ true
written_fits_user env dto owner id u on =
    rw (u, same_id owner, same_id (gateway_code dto.gateway), on) refl

written_fits_tenant :
    (env : Env) (dto : UpsertPaymentConfigDto) (owner id : ℕ)
    → dto.for_user ≡ false
    → (written_config env dto owner id).is_active ≡ true
    → (of_owner_tenant owner (written_config env dto owner id)
        && serves dto.gateway (written_config env dto owner id))
      ≡ true
written_fits_tenant env dto owner id u on =
    rw (u, same_id owner, same_id (gateway_code dto.gateway), on) refl

resolve_written :
    (env : Env) (dto : UpsertPaymentConfigDto) (owner id : ℕ) (configs : List PaymentConfig)
    (r : PaymentConfig × List PaymentConfig)
    → r.0 ≡ written_config env dto owner id
    → r.0.is_active ≡ true
    → All (λ x. x.updated_at < env.now) configs
    → IsStored configs r
    → resolve_for dto.for_user owner dto.gateway r.1 ≡ some r.0
unfolding resolve_user_config resolve_tenant_config
resolve_written env dto owner id configs r w on older stored =
    let on' : (written_config env dto owner id).is_active ≡ true =
      ap (λ (x : PaymentConfig). x.is_active) (sym w) ∙ on in
    let time : r.0.updated_at ≡ env.now = ap (λ (x : PaymentConfig). x.updated_at) w in
    elim (Bool-cases dto.for_user) [
      | inl u ↦ rw u (
          latest_found env (λ c. of_owner_user owner c && serves dto.gateway c) configs r time
            (ap (λ c. of_owner_user owner c && serves dto.gateway c) w
              ∙ written_fits_user env dto owner id u on')
            older stored)
      | inr t ↦ rw t (
          latest_found env (λ c. of_owner_tenant owner c && serves dto.gateway c) configs r time
            (ap (λ c. of_owner_tenant owner c && serves dto.gateway c) w
              ∙ written_fits_tenant env dto owner id t on')
            older stored)
    ]

returned :
    (env : Env) (dto : UpsertPaymentConfigDto) (user : JwtPayload) (owner : ℕ)
    (configs : List PaymentConfig) (c : PaymentConfig) (after : List PaymentConfig)
    → upsert_for env dto user (some owner) configs ≡ (ok c, after)
    → store_config env dto owner (find (has_key dto owner) configs) configs ≡ (c, after)
unfolding upsert_for
returned env dto user owner configs c after h = ground arith

-- A configuration that `upsert` returns is the one that is resolved: where it is active and every
-- other was written earlier, the resolution of a configuration for its owner, a user or a tenant,
-- and its gateway finds exactly it, whatever the environments of the others.
pub upsert_config-resolve :
    (env : Env) (dto : UpsertPaymentConfigDto) (user : JwtPayload) (owner : ℕ) (c : PaymentConfig)
    (configs after : List PaymentConfig)
    → upsert_config env dto user configs ≡ (ok c, after)
    → config_owner dto user ≡ some owner
    → c.is_active ≡ true
    → All (λ x. x.updated_at < env.now) configs
    → resolve_for dto.for_user owner dto.gateway after ≡ some c
unfolding upsert_config
upsert_config-resolve env dto user owner c configs after h o on older =
    let found : Option PaymentConfig = find (has_key dto owner) configs in
    let r : _ ≡ _ =
      returned env dto user owner configs c after
        (ap (λ z. upsert_for env dto user z configs) (sym o) ∙ h) in
    let (id, w) = store_config-written env dto owner found configs in
    resolve_written env dto owner id configs (c, after) (ap (λ z. z.0) (sym r) ∙ w) on older
      (subst (IsStored configs) r (store_config-IsStored env dto owner configs found refl))
