-- ===== src/Payments/WebhookLaws.antt =====
-- A webhook that is delivered again (payments.service.ts, `processWebhook`).
use coloanex_prod.Common.{
  Bool, Bool-cases, Distinct, Elem, List, Option, Option-cases, [], ap, arith, find, if◌then◌else◌,
  inl, inr, is_number, map, none, refl, some, sym, true, ℕ, ◌==◌, ◌∙◌, ◌∷◌, ◌≡◌,
}
use coloanex_prod.Db.{Transaction, Db, update_where}
use coloanex_prod.Service.{Env}
use coloanex_prod.Db.Membership.{Elem-find, Distinct-Elem}
use coloanex_prod.Payments.Webhook.{
  confirm, confirmed, process_webhook, find_paid, WebhookPayload, payload_uuid,
}
use coloanex_prod.Payments.Verify.{find_by_uuid}

update_where_again :
    (k : ℕ) (f g : Transaction → Transaction) (ts : List Transaction)
    → ((t : Transaction) → (f t).id ≡ t.id)
    → ((t : Transaction) → g (f t) ≡ f t)
    → update_where (λ t. t.id == k) g (update_where (λ t. t.id == k) f ts)
      ≡ update_where (λ t. t.id == k) f ts
update_where_again k f g [] h e = refl
update_where_again k f g (t ∷ ts) h e = elim (Bool-cases (t.id == k)) [
  | inl hit ↦
      let still : (f t).id == k ≡ true = ap (λ n. n == k) (h t) ∙ hit in
      rw (hit, still, e t, update_where_again k f g ts h e) refl
  | inr miss ↦ rw (miss, miss, update_where_again k f g ts h e) refl
]

find_first_updated :
    (p q : Transaction → Bool) (f : Transaction → Transaction) (ts : List Transaction)
    (t : Transaction)
    → ((x : Transaction) → Elem x ts → p (if q x then f x else x) ≡ p x)
    → find p ts ≡ some t
    → find p (update_where q f ts) ≡ some (if q t then f t else t)
find_first_updated p q f [] t h e = cc
find_first_updated p q f (x ∷ ts) t h e = elim (Bool-cases (p x)) [
  | inl hit ↦ let same : x ≡ t = ground arith in rw (h x (inl refl), hit, same)
  | inr miss ↦
      rw (h x (inl refl), miss) (find_first_updated p q f ts t (λ y m. h y (inr m)) (ground arith))
]

-- What the second delivery finds.
find_confirmed :
    (env : Env) (uuid : ℕ) (t : Transaction) (d : Db)
    → Distinct (map (λ x. x.id) d.transactions)
    → find_by_uuid uuid d ≡ some t
    → find_by_uuid uuid (confirm env (some uuid) (some t) d) ≡ some (confirmed env (some uuid) t t)
unfolding find_by_uuid confirm
find_confirmed env uuid t d ids found =
    let p : Transaction → Bool = λ x. is_number x.transaction_uuid uuid in
    let (listed, has) = Elem-find p t d.transactions found in
    let self : t.id == t.id ≡ true = ground arith in
    find_first_updated p (λ x. x.id == t.id) (confirmed env (some uuid) t) d.transactions t
      (λ x m. elim (Bool-cases (x.id == t.id)) [
        | inr other ↦ rw other refl
        | inl same ↦
            let e : x ≡ t =
              Distinct-Elem (λ (y : Transaction). y.id) x t d.transactions ids m listed
                (ground arith) in
            let u : uuid == uuid ≡ true = ground arith in rw (same, u) (sym (ap p e ∙ has))
      ])
      found
    ∙ ap (λ b. some (if b then confirmed env (some uuid) t t else t)) self

confirm_again :
    (env env' : Env) (uuid : ℕ) (d : Db) (o : Option Transaction)
    → Distinct (map (λ x. x.id) d.transactions)
    → find_by_uuid uuid d ≡ o
    → confirm env'
        (some uuid)
        (find_by_uuid uuid (confirm env (some uuid) o d))
        (confirm env (some uuid) o d)
      ≡ confirm env (some uuid) o d
unfolding confirm
confirm_again env env' uuid d none ids found = rw found refl
confirm_again env env' uuid d (some t) ids found = rw (find_confirmed env uuid t d ids found) (
    ap (λ ts. record d { transactions = ts })
      (update_where_again t.id (confirmed env (some uuid) t)
        (confirmed env' (some uuid) (confirmed env (some uuid) t t)) d.transactions (λ x. refl)
        (λ x. refl)))

-- A webhook that is delivered twice does what it does once, whatever the instant of the second
-- delivery and whether the payment is known or not, where the transactions' identifiers are unique.
pub process_webhook-idempotent :
    (env env' : Env) (payload : WebhookPayload) (d : Db)
    → Distinct (map (λ x. x.id) d.transactions)
    → (process_webhook env' payload (process_webhook env payload d).1).1
      ≡ (process_webhook env payload d).1
unfolding process_webhook find_paid confirm
process_webhook-idempotent env env' payload d ids = elim (Option-cases (payload_uuid payload)) [
  | inl unnamed ↦ rw unnamed refl
  | inr (uuid, given) ↦ rw given (confirm_again env env' uuid d (find_by_uuid uuid d) ids refl)
]
