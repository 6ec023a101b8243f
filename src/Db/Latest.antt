-- ===== src/Db/Latest.antt =====
-- `findFirst` by a date finds the latest row, and what an insertion leaves.
use coloanex_prod.Common.{
  All, Bool, Bool-cases, Elem, List, Option, Option-cases, [], ap, arith, false, filter, head?,
  if◌then◌else◌, inl, inr, ltb, none, refl, some, sym, true, ℕ, ◌++◌, ◌<◌, ◌∙◌, ◌∷◌, ◌≡◌, ◌⊎◌,
}
use coloanex_prod.Db.Table.{insert_desc, order_desc, find_first_desc}
use coloanex_prod.Db.Membership.{All-of_Elem, All-Elem, Elem-head?, Elem-order_desc, Elem-filter}

-- Every row is the given one or has a smaller key.
abbrev pub Latest : {A : Type 0} → (A → ℕ) → A → List A → Type 0
Latest key x xs = All (λ y. (y ≡ x) ⊎ (key y < key x)) xs

module _ {A : Type 0} (key : A → ℕ) where
  filter-Elem : (p : A → Bool) (a : A) (xs : List A) → Elem a xs → p a ≡ true → Elem a (filter p xs)
  filter-Elem p a [] m e = elim m [ ]
  filter-Elem p a (x ∷ xs) (inl q) e = let hit : p x ≡ true = ap p (sym q) ∙ e in rw hit (inl q)
  filter-Elem p a (x ∷ xs) (inr m) e = elim (Bool-cases (p x)) [
    | inl hit ↦ rw hit (inr (filter-Elem p a xs m e))
    | inr miss ↦ rw miss (filter-Elem p a xs m e)
  ]

  front : A → Option A → A
  front x none = x
  front x (some y) = if ltb (key x) (key y) then y else x

  head-insert_desc :
      (x : A) (ys : List A) → head? (insert_desc key x ys) ≡ some (front x (head? ys))
  unfolding front
  head-insert_desc x [] = refl
  head-insert_desc x (y ∷ ys) = elim (Bool-cases (ltb (key x) (key y))) [
    | inl less ↦ rw less refl
    | inr more_or_same ↦ rw more_or_same refl
  ]

  front-Latest : (x y : A) → (y ≡ x) ⊎ (key y < key x) → front y (some x) ≡ x
  unfolding front
  front-Latest x y (inl e) = rw e (elim (Bool-cases (ltb (key x) (key x))) [
    | inl less ↦ rw less refl
    | inr same ↦ rw same refl
  ])
  front-Latest x y (inr h) = let less : ltb (key y) (key x) ≡ true = ground arith in rw less refl

  front-max : (x z : A) → (z ≡ x) ⊎ (key z < key x) → front x (some z) ≡ x
  unfolding front
  front-max x z (inl e) = rw e (elim (Bool-cases (ltb (key x) (key x))) [
    | inl less ↦ rw less refl
    | inr same ↦ rw same refl
  ])
  front-max x z (inr h) =
      let not_less : ltb (key x) (key z) ≡ false = ground arith in rw not_less refl

  pub order_desc-Latest :
      (x : A) (xs : List A) → Latest key x xs → Elem x xs → head? (order_desc key xs) ≡ some x
  unfolding front
  order_desc-Latest x [] h m = elim m [ ]
  order_desc-Latest x (y ∷ ys) h (inr m) =
      head-insert_desc y (order_desc key ys)
      ∙ ap (λ o. some (front y o)) (order_desc-Latest x ys h.1 m)
      ∙ ap some (front-Latest x y h.0)
  order_desc-Latest x (y ∷ ys) h (inl e) =
      head-insert_desc y (order_desc key ys)
      ∙ ap (λ z. some (front z (head? (order_desc key ys)))) (sym e)
      ∙ elim (Option-cases (head? (order_desc key ys))) [
        | inl empty ↦ rw empty refl
        | inr (z, first) ↦ rw first (
            ap some (
              front-max x z (
                All-Elem (λ w. (w ≡ x) ⊎ (key w < key x)) z ys h.1
                  (Elem-order_desc key z ys (Elem-head? z (order_desc key ys) first)))))
      ]

  pub find_first_desc-Latest :
      (p : A → Bool) (x : A) (xs : List A)
      → ((y : A) → Elem y xs → p y ≡ true → (y ≡ x) ⊎ (key y < key x))
      → Elem x xs
      → p x ≡ true
      → find_first_desc key p xs ≡ some x
  find_first_desc-Latest p x xs h m e =
      order_desc-Latest x (filter p xs)
        (All-of_Elem (λ y. (y ≡ x) ⊎ (key y < key x)) (filter p xs)
          (λ y k. h y (Elem-filter p y xs k).0 (Elem-filter p y xs k).1))
        (filter-Elem p x xs m e)

module _ {A : Type 0} where
  pub snoc-Elem : (a : A) (xs : List A) → Elem a (xs ++ a ∷ [])
  snoc-Elem a [] = inl refl
  snoc-Elem a (x ∷ xs) = inr (snoc-Elem a xs)

  pub Elem-snoc : (y a : A) (xs : List A) → Elem y (xs ++ a ∷ []) → (y ≡ a) ⊎ Elem y xs
  Elem-snoc y a [] (inl e) = inl e
  Elem-snoc y a [] (inr m) = elim m [ ]
  Elem-snoc y a (x ∷ xs) (inl e) = inr (inl e)
  Elem-snoc y a (x ∷ xs) (inr m) = elim (Elem-snoc y a xs m) [ inl e ↦ inl e | inr k ↦ inr (inr k) ]
