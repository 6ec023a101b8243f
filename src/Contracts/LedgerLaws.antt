-- ===== src/Contracts/LedgerLaws.antt =====
-- Ledgers stay sound. The steps that write to a table of contracts, seen in the ledger.
use coloanex_prod.Common.{
  All, Bool, Bool-cases, Distinct, List, [], arith, inl, inr, map, refl, sym, ℕ, ◌++◌, ◌==◌, ◌∙◌,
  ◌∷◌, ◌≡◌, ◌≢◌,
}
use coloanex_prod.Common.Int.{ℤ, pos, eq_of_parts, -ℤ_parts, +ℤ_parts, ◌-ℤ◌, ◌+ℤ◌}
use coloanex_prod.Db.{delete_where}
use coloanex_prod.Contracts.Ledger.{repaid_by, LedgerStep, IsBalanced, Entry, IsSound, Change}
use coloanex_prod.Db.Membership.{All-update_where, map-update_where}

pub moved : (a b : ℤ) (n : ℕ) → (a +ℤ pos n) +ℤ (b -ℤ pos n) ≡ a +ℤ b
moved a b n =
    let p : _ ≡ _ = +ℤ_parts a (pos n) in
    let q : _ ≡ _ = -ℤ_parts b (pos n) in
    let r : _ ≡ _ = +ℤ_parts (a +ℤ pos n) (b -ℤ pos n) in
    let s : _ ≡ _ = +ℤ_parts a b in
    eq_of_parts ((a +ℤ pos n) +ℤ (b -ℤ pos n)) (a +ℤ b) (omega arith)

repaid_by-IsBalanced : (amount : ℕ) (e : Entry) → IsBalanced e → IsBalanced (repaid_by amount e)
repaid_by-IsBalanced amount e h = record {
  amount_fits = h.amount_fits;
  count_fits = h.count_fits;
  due_fits = h.due_fits;
  adds_up = moved e.paid_in e.outstanding amount ∙ h.adds_up;
}

module _ {A : Type 0} where
  pub All-snoc : (P : A → Type 0) (a : A) (xs : List A) → All P xs → P a → All P (xs ++ a ∷ [])
  All-snoc P a [] h p = (p, tt)
  All-snoc P a (x ∷ xs) h p = (h.0, All-snoc P a xs h.1 p)

  pub All-delete_where :
      (P : A → Type 0) (p : A → Bool) (xs : List A) → All P xs → All P (delete_where p xs)
  All-delete_where P p [] h = tt
  All-delete_where P p (x ∷ xs) h = elim (Bool-cases (p x)) [
    | inl e ↦ rw e (All-delete_where P p xs h.1)
    | inr e ↦ rw e (h.0, All-delete_where P p xs h.1)
  ]

  All-map : (P : ℕ → Type 0) (f : A → ℕ) (xs : List A) → All (λ x. P (f x)) xs → All P (map f xs)
  All-map P f [] h = tt
  All-map P f (x ∷ xs) h = (h.0, All-map P f xs h.1)

  All-of_map : (P : ℕ → Type 0) (f : A → ℕ) (xs : List A) → All P (map f xs) → All (λ x. P (f x)) xs
  All-of_map P f [] h = tt
  All-of_map P f (x ∷ xs) h = (h.0, All-of_map P f xs h.1)

  Distinct-snoc :
      (f : A → ℕ) (a : A) (xs : List A)
      → Distinct (map f xs)
      → All (λ x. f x ≢ f a) xs
      → Distinct (map f (xs ++ a ∷ []))
  Distinct-snoc f a [] h n = (tt, tt)
  Distinct-snoc f a (x ∷ xs) h n = (
    All-map (λ y. y ≢ f x) f (xs ++ a ∷ [])
        (All-snoc (λ y. f y ≢ f x) a xs (All-of_map (λ y. y ≢ f x) f xs h.0) (λ q. n.0 (sym q))),
    Distinct-snoc f a xs h.1 n.1,
  )

  Distinct-delete_where :
      (f : A → ℕ) (p : A → Bool) (xs : List A)
      → Distinct (map f xs)
      → Distinct (map f (delete_where p xs))
  Distinct-delete_where f p [] h = tt
  Distinct-delete_where f p (x ∷ xs) h = elim (Bool-cases (p x)) [
    | inl e ↦ rw e (Distinct-delete_where f p xs h.1)
    | inr e ↦ rw e (
      All-map (λ y. y ≢ f x) f (delete_where p xs)
          (All-delete_where (λ y. f y ≢ f x) p xs (All-of_map (λ y. y ≢ f x) f xs h.0)),
      Distinct-delete_where f p xs h.1,
    )
  ]

closed-IsSound : (p : Entry → Bool) (l : List Entry) → IsSound l → IsSound (delete_where p l)
closed-IsSound p l h = record {
  balanced = All-delete_where IsBalanced p l h.balanced;
  ids = Distinct-delete_where (λ x. x.id) p l h.ids;
  loans = Distinct-delete_where (λ x. x.loan_id) p l h.loans;
}

-- Whatever happens to a sound ledger leaves it sound.
pub LedgerStep-IsSound :
    {may : Change → Type 0} {l m : List Entry} → LedgerStep may l m → IsSound l → IsSound m
LedgerStep-IsSound LedgerStep.unchanged h = h
LedgerStep-IsSound {may} {l} (LedgerStep.opened e a b n i j) h = record {
  balanced = All-snoc IsBalanced e l h.balanced b;
  ids = Distinct-snoc (λ x. x.id) e l h.ids i;
  loans = Distinct-snoc (λ x. x.loan_id) e l h.loans j;
}
LedgerStep-IsSound {may} {l} (LedgerStep.repaid id amount a) h = record {
  balanced =
      All-update_where IsBalanced (λ e. e.id == id) (repaid_by amount) l
        (repaid_by-IsBalanced amount) h.balanced;
  ids =
      rw (map-update_where (λ (x : Entry). x.id) (λ e. e.id == id) (repaid_by amount) l (λ x. refl))
        h.ids;
  loans =
      rw
        (map-update_where (λ (x : Entry). x.loan_id) (λ e. e.id == id) (repaid_by amount) l
          (λ x. refl))
        h.loans;
}
LedgerStep-IsSound {may} {l} (LedgerStep.closed id a) h = closed-IsSound (λ e. e.id == id) l h
LedgerStep-IsSound {may} {l} (LedgerStep.closed_of_loan loan_id a) h =
    closed-IsSound (λ e. e.loan_id == loan_id) l h
