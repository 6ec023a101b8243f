-- ===== src/Db/Table.antt =====
-- The Prisma client's calls on one table: `findFirst`, `findMany` with `orderBy`, `updateMany`.
-- Prisma is third-party; the source uses only what its documentation says of these calls. Rows that
-- `orderBy` does not tell apart keep the table's order.
use coloanex_prod.Common.{Bool, List, Option, [], filter, head?, if◌then◌else◌, ltb, ℕ, ◌∷◌}

module _ {ℓ} {A : Type ℓ} where
  -- `updateMany({ where: p, data })`; `update` is the case of a unique `p`.
  abbrev pub update_where : (A → Bool) → (A → A) → List A → List A
  update_where p f [] = []
  update_where p f (x ∷ xs) = (if p x then f x else x) ∷ update_where p f xs

  -- `deleteMany({ where: p })`.
  abbrev pub delete_where : (A → Bool) → List A → List A
  delete_where p [] = []
  delete_where p (x ∷ xs) = let rest = delete_where p xs in if p x then rest else x ∷ rest

  -- Insertion in front of the rows whose key is not greater.
  abbrev pub insert_desc : (A → ℕ) → A → List A → List A
  insert_desc key x [] = x ∷ []
  insert_desc key x (y ∷ ys) =
      let later = insert_desc key x ys in if ltb (key x) (key y) then y ∷ later else x ∷ y ∷ ys

  -- `orderBy: { key: 'desc' }`.
  abbrev pub order_desc : (A → ℕ) → List A → List A
  order_desc key [] = []
  order_desc key (x ∷ xs) = insert_desc key x (order_desc key xs)

  -- `findMany({ where: p, orderBy: { key: 'desc' } })`.
  abbrev pub find_many_desc : (A → ℕ) → (A → Bool) → List A → List A
  find_many_desc key p xs = order_desc key (filter p xs)

  -- `findFirst({ where: p, orderBy: { key: 'desc' } })`.
  abbrev pub find_first_desc : (A → ℕ) → (A → Bool) → List A → Option A
  find_first_desc key p xs = head? (find_many_desc key p xs)
