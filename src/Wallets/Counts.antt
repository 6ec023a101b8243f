-- ===== src/Wallets/Counts.antt =====
-- Counting the wallets that meet a condition, before and after a statement on their table.
use coloanex_prod.Common.{
  Bool, List, [], arith, false, if◌then◌else◌, refl, suc, ℕ, ◌&&◌, ◌++◌, ◌+◌, ◌==◌, ◌∷◌, ◌≡◌, ◌≤◌,
}
use coloanex_prod.Db.{update_where, Db, Wallet}
use coloanex_prod.Wallets.Service.{owned_by}

abbrev pub count {ℓ} : {A : Type ℓ} → (A → Bool) → List A → ℕ
count p [] = 0
count p (x ∷ xs) = let rest = count p xs in if p x then suc rest else rest

abbrev pub is_primary_of : ℕ → Wallet → Bool
is_primary_of user_id w = w.user_id == user_id && w.is_primary

-- The rows have distinct identifiers (the table's primary key).
abbrev pub HasDistinctIds : Db → Type 0
HasDistinctIds d = (id : ℕ) → count (λ w. w.id == id) d.wallets ≤ 1

-- How an update of the rows that meet `q` can raise a count.
pub count-update_where :
    (p q : Wallet → Bool) (f : Wallet → Wallet) (ws : List Wallet)
    → count p (update_where q f ws) ≤ count p ws + count q ws
count-update_where p q f [] = omega arith
count-update_where p q f (w ∷ ws) = ground (arith, count-update_where p q f ws)

-- No primary wallet is left by an update of all of the user's wallets that clears the flag.
pub count-cleared :
    (user_id : ℕ) (f : Wallet → Wallet) (ws : List Wallet)
    → ((w : Wallet) → (f w).is_primary ≡ false)
    → count (is_primary_of user_id) (update_where (owned_by user_id) f ws) ≡ 0
count-cleared user_id f [] h = refl
count-cleared user_id f (w ∷ ws) h =
    let ih : _ ≡ _ = count-cleared user_id f ws h in let c : _ = h w in ground arith

pub count-append :
    (p : Wallet → Bool) (w : Wallet) (ws : List Wallet) → count p (ws ++ w ∷ []) ≤ suc (count p ws)
count-append p w [] = ground arith
count-append p w (x ∷ xs) = ground (arith, count-append p w xs)

pub count-update_where-stable :
    (p q : Wallet → Bool) (f : Wallet → Wallet) (ws : List Wallet)
    → ((w : Wallet) → p (f w) ≡ p w)
    → count p (update_where q f ws) ≡ count p ws
count-update_where-stable p q f [] h = refl
count-update_where-stable p q f (w ∷ ws) h =
    let ih : _ ≡ _ = count-update_where-stable p q f ws h in let c : _ = h w in ground arith

pub count-update_where-lower :
    (p q : Wallet → Bool) (f : Wallet → Wallet) (ws : List Wallet)
    → ((w : Wallet) → p (f w) ≡ false)
    → count p (update_where q f ws) ≤ count p ws
count-update_where-lower p q f [] h = omega arith
count-update_where-lower p q f (w ∷ ws) h =
    let ih : _ ≤ _ = count-update_where-lower p q f ws h in let c : _ = h w in ground arith

pub count-append-lower :
    (p : Wallet → Bool) (w : Wallet) (ws : List Wallet)
    → p w ≡ false
    → count p (ws ++ w ∷ []) ≤ count p ws
count-append-lower p w [] h = ground arith
count-append-lower p w (x ∷ xs) h = ground (arith, count-append-lower p w xs h)
