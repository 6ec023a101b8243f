-- ===== src/Db/Membership.antt =====
-- What a query returns are rows of its table, and what an update leaves are images of them.
use coloanex_prod.Common.{
  All, Bool, Bool-cases, Distinct, Elem, List, [], ap, arith, false, filter, find, head?,
  if◌then◌else◌, inl, inr, map, refl, some, sym, true, ℕ, ◌∙◌, ◌∷◌, ◌≡◌, ◌≢◌, ◌⊎◌,
}
use coloanex_prod.Db.Table.{delete_where, update_where, insert_desc, order_desc, find_first_desc}

module _ {A : Type 0} where
  pub Elem-filter :
      (p : A → Bool) (a : A) (xs : List A) → Elem a (filter p xs) → Elem a xs × (p a ≡ true)
  Elem-filter p a [] h = elim h [ ]
  Elem-filter p a (x ∷ xs) h = ground (arith, Elem-filter p a xs)

  pub Elem-insert_desc :
      (key : A → ℕ) (a x : A) (xs : List A) → Elem a (insert_desc key x xs) → Elem a (x ∷ xs)
  Elem-insert_desc key a x [] h = h
  Elem-insert_desc key a x (y ∷ ys) h = ground (arith, Elem-insert_desc key a x ys)

  pub Elem-order_desc : (key : A → ℕ) (a : A) (xs : List A) → Elem a (order_desc key xs) → Elem a xs
  Elem-order_desc key a [] h = elim h [ ]
  Elem-order_desc key a (x ∷ xs) h =
      ground (arith, Elem-insert_desc key a x (order_desc key xs), Elem-order_desc key a xs)

  pub Elem-head? : (a : A) (xs : List A) → head? xs ≡ some a → Elem a xs
  Elem-head? a [] h = cc
  Elem-head? a (x ∷ xs) h = ground arith

  pub Elem-find :
      (p : A → Bool) (a : A) (xs : List A) → find p xs ≡ some a → Elem a xs × (p a ≡ true)
  Elem-find p a [] h = cc
  Elem-find p a (x ∷ xs) h = ground (arith, Elem-find p a xs)

  found_first :
      (p : A → Bool) (a x : A) (xs : List A) → p x ≡ true → find p (x ∷ xs) ≡ some a → x ≡ a
  found_first p a x xs h e = ground arith

  found_later :
      (p : A → Bool) (a x : A) (xs : List A)
      → p x ≡ false
      → find p (x ∷ xs) ≡ some a
      → find p xs ≡ some a
  found_later p a x xs h e = ground arith

  -- A row that was found is found after an update that the condition does not see.
  pub find-update_where :
      (p q : A → Bool) (f : A → A) (xs : List A) (a : A)
      → ((x : A) → p (if q x then f x else x) ≡ p x)
      → find p xs ≡ some a
      → find p (update_where q f xs) ≡ some (if q a then f a else a)
  find-update_where p q f [] a h e = cc
  find-update_where p q f (x ∷ xs) a h e = elim (Bool-cases (p x)) [
    | inl hit ↦ let g : x ≡ a = found_first p a x xs hit e in rw (h x, hit, g) refl
    | inr miss ↦ rw (h x, miss) (find-update_where p q f xs a h (found_later p a x xs miss e))
  ]

  -- A row found by `findFirst` stands in the table and meets the condition.
  pub find_first_desc-Elem :
      (key : A → ℕ) (p : A → Bool) (a : A) (xs : List A)
      → find_first_desc key p xs ≡ some a
      → Elem a xs × (p a ≡ true)
  find_first_desc-Elem key p a xs h =
      Elem-filter p a xs (Elem-order_desc key a (filter p xs) (Elem-head? a _ h))

  -- A row after an update is the image of a row before it.
  pub Elem-update_where :
      (p : A → Bool) (f : A → A) (a : A) (xs : List A)
      → Elem a (update_where p f xs)
      → (x : A) × Elem x xs × (a ≡ (if p x then f x else x))
  Elem-update_where p f a [] h = elim h [ ]
  Elem-update_where p f a (x ∷ xs) (inl e) = (x, inl refl, e)
  Elem-update_where p f a (x ∷ xs) (inr h) =
      let (y, m, e) = Elem-update_where p f a xs h in (y, inr m, e)

  -- The image of a row of the table is a row after the update.
  pub update_where-Elem :
      (p : A → Bool) (f : A → A) (a : A) (xs : List A)
      → Elem a xs
      → Elem (if p a then f a else a) (update_where p f xs)
  update_where-Elem p f a [] h = elim h [ ]
  update_where-Elem p f a (x ∷ xs) (inl e) = inl (ap (λ y. if p y then f y else y) e)
  update_where-Elem p f a (x ∷ xs) (inr h) = inr (update_where-Elem p f a xs h)

  pub All-Elem : (P : A → Type 0) (a : A) (xs : List A) → All P xs → Elem a xs → P a
  All-Elem P a [] h m = elim m [ ]
  All-Elem P a (x ∷ xs) h (inl e) = rw e h.0
  All-Elem P a (x ∷ xs) h (inr m) = All-Elem P a xs h.1 m

  pub All-of_Elem : (P : A → Type 0) (xs : List A) → ((a : A) → Elem a xs → P a) → All P xs
  All-of_Elem P [] h = tt
  All-of_Elem P (x ∷ xs) h = (h x (inl refl), All-of_Elem P xs (λ a m. h a (inr m)))

  -- An update keeps what its function keeps.
  pub All-update_where :
      (P : A → Type 0) (p : A → Bool) (f : A → A) (xs : List A)
      → ((x : A) → P x → P (f x))
      → All P xs
      → All P (update_where p f xs)
  All-update_where P p f [] keep h = tt
  All-update_where P p f (x ∷ xs) keep h = (
    elim (Bool-cases (p x)) [ inl e ↦ rw e (keep x h.0) | inr e ↦ rw e h.0 ],
    All-update_where P p f xs keep h.1,
  )

  -- An update that keeps a key keeps the table's list of keys.
  pub map-update_where :
      {B : Type 0} (key : A → B) (p : A → Bool) (f : A → A) (xs : List A)
      → ((x : A) → key (f x) ≡ key x)
      → map key (update_where p f xs) ≡ map key xs
  map-update_where key p f [] keep = refl
  map-update_where key p f (x ∷ xs) keep = elim (Bool-cases (p x)) [
    | inl e ↦ rw (e, map-update_where key p f xs keep, keep x)
    | inr e ↦ rw (e, map-update_where key p f xs keep)
  ]

  -- No row that is left meets the condition of a deletion.
  pub delete_where-All : (p : A → Bool) (xs : List A) → All (λ x. p x ≡ false) (delete_where p xs)
  delete_where-All p [] = tt
  delete_where-All p (x ∷ xs) = elim (Bool-cases (p x)) [
    | inl e ↦ rw e (delete_where-All p xs)
    | inr e ↦ rw e (e, delete_where-All p xs)
  ]

  -- What is not deleted keeps its place in the table.
  pub delete_where-Elem :
      (p : A → Bool) (a : A) (xs : List A) → p a ≡ false → Elem a xs → Elem a (delete_where p xs)
  delete_where-Elem p a [] e m = elim m [ ]
  delete_where-Elem p a (x ∷ xs) e m = ground (arith, delete_where-Elem p a xs e)

  pub delete_where-others :
      (p : A → Bool) (xs : List A) → All (λ x. (p x ≡ true) ⊎ Elem x (delete_where p xs)) xs
  delete_where-others p xs =
      All-of_Elem (λ x. (p x ≡ true) ⊎ Elem x (delete_where p xs)) xs
        λ a m. elim (Bool-cases (p a)) [
          | inl e ↦ inl e
          | inr e ↦ inr (delete_where-Elem p a xs e m)
        ]

  Elem-key_ne :
      (key : A → ℕ) (a x : A) (xs : List A)
      → All (λ y. y ≢ key x) (map key xs)
      → Elem a xs
      → key a ≢ key x
  Elem-key_ne key a x [] h m = elim m [ ]
  Elem-key_ne key a x (y ∷ ys) h (inl e) = λ q. h.0 (ap key (sym e) ∙ q)
  Elem-key_ne key a x (y ∷ ys) h (inr m) = Elem-key_ne key a x ys h.1 m

  -- A primary key: two rows with one key are one row.
  pub Distinct-Elem :
      (key : A → ℕ) (a b : A) (xs : List A)
      → Distinct (map key xs)
      → Elem a xs
      → Elem b xs
      → key a ≡ key b
      → a ≡ b
  Distinct-Elem key a b [] h ma mb e = elim ma [ ]
  Distinct-Elem key a b (x ∷ xs) h (inl p) (inl q) e = p ∙ sym q
  Distinct-Elem key a b (x ∷ xs) h (inl p) (inr q) e =
      absurd (Elem-key_ne key b x xs h.0 q (sym e ∙ ap key p))
  Distinct-Elem key a b (x ∷ xs) h (inr p) (inl q) e =
      absurd (Elem-key_ne key a x xs h.0 p (e ∙ ap key q))
  Distinct-Elem key a b (x ∷ xs) h (inr p) (inr q) e = Distinct-Elem key a b xs h.1 p q e
