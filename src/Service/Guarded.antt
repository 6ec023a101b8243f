-- ===== src/Service/Guarded.antt =====
-- Guards: parts of a handler that throw or return without writing, and what a return shows.
use coloanex_prod.Common.{Bool, ap, false, inl, inr, refl, subst, sym, true, ◌≡◌, ◌⊎◌}
use coloanex_prod.Db.{ok, err, ◌>>◌, Error, Action, throw_if, continue_with, Db}

-- A check that throws and has written nothing, or returns and shows `P`.
abbrev pub IsGuarded : Type 0 → Action (Unit {0}) → Db → Type 0
IsGuarded P m d = ((e : Error) × (m d ≡ (err e, d))) ⊎ ((m d ≡ (ok tt, d)) × P)

pub throw_if-IsGuarded :
    (P : Type 0) (c : Bool) (e : Error) (m : Action (Unit {0})) (d : Db)
    → (c ≡ false → IsGuarded P m d)
    → IsGuarded P (throw_if c e >> m) d
throw_if-IsGuarded P true e m d h = inl (e, refl)
throw_if-IsGuarded P false e m d h = h refl

-- A last guard.
pub throw_if_last-IsGuarded :
    (P : Type 0) (c : Bool) (e : Error) (d : Db) → (c ≡ false → P) → IsGuarded P (throw_if c e) d
throw_if_last-IsGuarded P true e d h = inl (e, refl)
throw_if_last-IsGuarded P false e d h = inr (refl, h refl)

-- A guard in front of further ones.
pub then-IsGuarded :
    (P Q : Type 0) (m k : Action (Unit {0})) (d : Db)
    → IsGuarded P m d
    → (P → IsGuarded Q k d)
    → IsGuarded Q (m >> k) d
then-IsGuarded P Q m k d (inl (e, thrown)) h = inl (e, ap (λ r. continue_with r (λ u. k)) thrown)
then-IsGuarded P Q m k d (inr (passed, p)) h =
    subst
      (λ r.
        ((e : Error) × (continue_with r (λ u. k) ≡ (err e, d)))
        ⊎ ((continue_with r (λ u. k) ≡ (ok tt, d)) × Q))
      (sym passed) (h p)
