-- ===== src/Contracts/Posting.antt =====
-- The writes of a handler to the table of contracts, seen in the ledger.
use coloanex_prod.Common.{
  All, Bool, Bool-cases, Distinct, Elem, List, Option, [], any, ap, arith, false, if◌then◌else◌,
  inl, inr, map, none, refl, some, subst, sym, true, ℕ, ◌++◌, ◌==◌, ◌∙◌, ◌∷◌, ◌≡◌, ◌≢◌,
}
use coloanex_prod.Db.{
  Contract, Db, Action, Result, ok, err, update_where, delete_where, when, continue_with, ◌>>=◌,
  find_or_throw, Error, some_or_throw,
}
use coloanex_prod.Service.{write_contract}
use coloanex_prod.Common.Int.{pos}
use coloanex_prod.Contracts.Ledger.{
  IsBalanced, entry_of, Entry, ledger, LedgerStep, IsSound, Change,
}
use coloanex_prod.Contracts.Drafting.{clashes_with, insert_contract}
use coloanex_prod.Db.Membership.{Distinct-Elem, map-update_where}
use coloanex_prod.Service.Quiet.{IsQuiet}
use coloanex_prod.Service.Reading.{IsReading}

-- A part of a handler that takes a sound ledger through at most one change, whether it returns or
-- throws.
abbrev pub Posts : {A : Type 0} → (Change → Type 0) → Action A → Type 0
Posts may m = (d : Db) → IsSound (ledger d) → LedgerStep may (ledger d) (ledger (m d).1)

-- A part of a handler that keeps the ledger.
abbrev pub KeepsLedger : {A : Type 0} → Action A → Type 0
KeepsLedger m = (d : Db) → ledger (m d).1 ≡ ledger d

module _ (may : Change → Type 0) where
  pub same_ledger : (l m : List Entry) → m ≡ l → LedgerStep may l m
  same_ledger l m e = subst (λ x. LedgerStep may l x) (sym e) LedgerStep.unchanged

  pub KeepsLedger-Posts : {A : Type 0} (m : Action A) → KeepsLedger m → Posts may m
  KeepsLedger-Posts m k d h = same_ledger (ledger d) (ledger (m d).1) (k d)

  continue_with-Posts :
      {A B : Type 0} (d : Db) (r : Result A × Db) (f : A → Action B)
      → LedgerStep may (ledger d) (ledger r.1)
      → ((a : A) → KeepsLedger (f a))
      → LedgerStep may (ledger d) (ledger (continue_with r f).1)
  continue_with-Posts d (ok a, d') f s k = subst (λ x. LedgerStep may (ledger d) x) (sym (k a d')) s
  continue_with-Posts d (err e, d') f s k = s

  -- A part that posts, in front of one that keeps the ledger.
  pub bind-Posts :
      {A B : Type 0} (m : Action A) (f : A → Action B)
      → Posts may m
      → ((a : A) → KeepsLedger (f a))
      → Posts may (m >>= f)
  bind-Posts m f p k d h = continue_with-Posts d (m d) f (p d h) k

  continue_known-Posts :
      {A B : Type 0} (Q : A → Type 0) (d : Db) (r : Result A × Db) (f : A → Action B)
      → IsSound (ledger d)
      → ledger r.1 ≡ ledger d
      → ((a : A) (d' : Db) → r ≡ (ok a, d') → Q a)
      → ((a : A) → Q a → Posts may (f a))
      → LedgerStep may (ledger d) (ledger (continue_with r f).1)
  continue_known-Posts Q d (ok a, d') f h same known p =
      subst (λ x. LedgerStep may x (ledger (f a d').1)) same
        (p a (known a d' refl) d' (subst IsSound (sym same) h))
  continue_known-Posts Q d (err e, d') f h same known p = same_ledger (ledger d) (ledger d') same

  -- A part that keeps the ledger and whose answer shows `Q`, in front of one that posts.
  pub then_known-Posts :
      {A B : Type 0} (Q : A → Type 0) (m : Action A) (f : A → Action B)
      → KeepsLedger m
      → ((a : A) (d d' : Db) → m d ≡ (ok a, d') → Q a)
      → ((a : A) → Q a → Posts may (f a))
      → Posts may (m >>= f)
  then_known-Posts Q m f k known p d h =
      continue_known-Posts Q d (m d) f h (k d) (λ a d'. known a d d') p

  pub then-Posts :
      {A B : Type 0} (m : Action A) (f : A → Action B)
      → KeepsLedger m
      → ((a : A) → Posts may (f a))
      → Posts may (m >>= f)
  then-Posts m f k p = then_known-Posts (λ a. Unit {0}) m f k (λ a d d' e. tt) (λ a u. p a)

continue_with-KeepsLedger :
    {A B : Type 0} (d : Db) (r : Result A × Db) (f : A → Action B)
    → ledger r.1 ≡ ledger d
    → ((a : A) → KeepsLedger (f a))
    → ledger (continue_with r f).1 ≡ ledger d
continue_with-KeepsLedger d (ok a, d') f s k = k a d' ∙ s
continue_with-KeepsLedger d (err e, d') f s k = s

pub bind-KeepsLedger :
    {A B : Type 0} (m : Action A) (f : A → Action B)
    → KeepsLedger m
    → ((a : A) → KeepsLedger (f a))
    → KeepsLedger (m >>= f)
bind-KeepsLedger m f p k d = continue_with-KeepsLedger d (m d) f (p d) k

pub quiet-KeepsLedger : {A : Type 0} (m : Action A) → IsQuiet m → KeepsLedger m
quiet-KeepsLedger m q d = ap (λ (x : Db). ledger x) (q d)

pub reading-KeepsLedger : {A : Type 0} (m : Action A) → IsReading m → KeepsLedger m
reading-KeepsLedger m s d = ap (λ (x : Db). ledger x) (s d)

pub if-KeepsLedger :
    {A : Type 0} (c : Bool) (m n : Action A)
    → KeepsLedger m
    → KeepsLedger n
    → KeepsLedger (if c then m else n)
if-KeepsLedger true m n k l d = k d
if-KeepsLedger false m n k l d = l d

pub when-KeepsLedger : (c : Bool) (m : Action (Unit {0})) → KeepsLedger m → KeepsLedger (when c m)
when-KeepsLedger true m k d = k d
when-KeepsLedger false m k d = refl

-- Reading parts.
pub some_or_throw-KeepsLedger :
    {A : Type 0} (o : Option A) (e : Error) → KeepsLedger (some_or_throw o e)
some_or_throw-KeepsLedger none e d = refl
some_or_throw-KeepsLedger (some a) e d = refl

pub find_or_throw-KeepsLedger :
    {A : Type 0} (f : Db → Option A) (e : Error) → KeepsLedger (find_or_throw f e)
find_or_throw-KeepsLedger f e d = some_or_throw-KeepsLedger (f d) e d

-- An update that keeps every entry keeps the ledger.
pub write_contract-ledger :
    (id : ℕ) (f : Contract → Contract) (d : Db)
    → ((c : Contract) → entry_of (f c) ≡ entry_of c)
    → ledger (write_contract id f d) ≡ ledger d
write_contract-ledger id f d keep = map-update_where entry_of (λ c. c.id == id) f d.contracts keep

eq_of_test : (a b : ℕ) → a == b ≡ true → a ≡ b
eq_of_test a b e = ground arith

replace_rows :
    (c c' : Contract) (xs : List Contract)
    → ((x : Contract) → Elem x xs → x.id ≡ c.id → entry_of c' ≡ entry_of x)
    → map entry_of (update_where (λ x. x.id == c.id) (λ x. c') xs) ≡ map entry_of xs
replace_rows c c' [] h = refl
replace_rows c c' (x ∷ xs) h =
    let later : _ ≡ _ = replace_rows c c' xs (λ y m. h y (inr m)) in
    elim (Bool-cases (x.id == c.id)) [
      | inl e ↦ rw (e, later, h x (inl refl) (eq_of_test x.id c.id e)) refl
      | inr e ↦ rw (e, later) refl
    ]

map-id : (xs : List Contract) → map (λ e. e.id) (map entry_of xs) ≡ map (λ c. c.id) xs
map-id [] = refl
map-id (x ∷ xs) = ap (λ r. x.id ∷ r) (map-id xs)

-- A row that is written back with its entry as it was keeps a sound ledger.
pub replace_contract-ledger :
    (c c' : Contract) (d : Db)
    → Elem c d.contracts
    → IsSound (ledger d)
    → entry_of c' ≡ entry_of c
    → ledger (write_contract c.id (λ x. c') d) ≡ ledger d
replace_contract-ledger c c' d listed h e = replace_rows c c' d.contracts λ x m same.
    e
    ∙ ap entry_of (
        Distinct-Elem (λ (y : Contract). y.id) c x d.contracts
          (subst Distinct (map-id d.contracts) h.ids) listed m (sym same))

-- What the refused clashes show.
no_clash-ids :
    (c : Contract) (xs : List Contract)
    → any (clashes_with c) xs ≡ false
    → All (λ x. x.id ≢ c.id) (map entry_of xs)
no_clash-ids c [] h = tt
no_clash-ids c (x ∷ xs) h = (ground arith, no_clash-ids c xs (ground arith))

no_clash-loans :
    (c : Contract) (xs : List Contract)
    → any (clashes_with c) xs ≡ false
    → All (λ x. x.loan_id ≢ c.loan_id) (map entry_of xs)
no_clash-loans c [] h = tt
no_clash-loans c (x ∷ xs) h = (ground arith, no_clash-loans c xs (ground arith))

map-snoc :
    (c : Contract) (xs : List Contract)
    → map entry_of (xs ++ c ∷ []) ≡ map entry_of xs ++ entry_of c ∷ []
map-snoc c [] = refl
map-snoc c (x ∷ xs) = ap (λ r. entry_of x ∷ r) (map-snoc c xs)

-- A balanced contract that is stored is a ledger entry opened.
pub insert_contract-Posts :
    (may : Change → Type 0) (c : Contract)
    → may (Change.opening (entry_of c))
    → IsBalanced (entry_of c)
    → c.total_amount_paid ≡ pos 0
    → Posts may (insert_contract c)
unfolding insert_contract
insert_contract-Posts may c a b n d h = elim (Bool-cases (any (clashes_with c) d.contracts)) [
  | inl clash ↦ rw clash LedgerStep.unchanged
  | inr fresh ↦
      rw (fresh, map-snoc c d.contracts)
        (LedgerStep.opened (entry_of c) a b n (no_clash-ids c d.contracts fresh)
          (no_clash-loans c d.contracts fresh))
]

-- A deletion of contracts that the ledger can tell apart is a deletion of entries.
pub delete_where-ledger :
    (p : Contract → Bool) (q : Entry → Bool) (xs : List Contract)
    → ((c : Contract) → p c ≡ q (entry_of c))
    → map entry_of (delete_where p xs) ≡ delete_where q (map entry_of xs)
delete_where-ledger p q [] h = refl
delete_where-ledger p q (x ∷ xs) h = elim (Bool-cases (p x)) [
  | inl e ↦ rw (e, sym (h x) ∙ e, delete_where-ledger p q xs h) refl
  | inr e ↦ rw (e, sym (h x) ∙ e, delete_where-ledger p q xs h) refl
]
