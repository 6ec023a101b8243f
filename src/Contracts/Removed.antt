-- ===== src/Contracts/Removed.antt =====
-- What the deletion of a contract (contracts.service.ts, `remove`) leaves in the database.
use coloanex_prod.Common.{
  All, Bool, Bool-cases, Elem, List, [], any, ap, arith, false, inl, inr, is_number, map, none,
  refl, subst, sym, true, ℕ, ◌&&◌, ◌==◌, ◌∷◌, ◌≡◌, ◌⊎◌,
}
use coloanex_prod.Contracts.Disbursing.{of_contract}
use coloanex_prod.Contracts.Editing.{
  forget_schedules, forget_contract, delete_contract, delete_schedules,
}
use coloanex_prod.Db.{Db, PaymentSchedule, Transaction}
use coloanex_prod.Db.Membership.{All-of_Elem, delete_where-others, delete_where-All}
use coloanex_prod.Orchestrator.Frame.{OnlySubscriptions}

-- A payment of a schedule of the contract.
abbrev pub pays_schedule_of : ℕ → Db → Transaction → Bool
pays_schedule_of id d t =
    any (λ s. s.contract_id == id && is_number t.payment_schedule_id s.id) d.schedules

-- A transaction without what it refers to.
abbrev pub unlinked : Transaction → Transaction
unlinked t = record t { contract_id = none; payment_schedule_id = none }

-- The contract and its schedules are gone, and every other contract and schedule is there; every
-- transaction is there as it was, but refers to nothing that is gone. No other table but usage
-- windows is touched.
pub record IsRemoved (id : ℕ) (d d' : Db) : Type 0 where
  pub contract_gone : All (λ c. (c.id == id) ≡ false) d'.contracts
  pub contracts_stay : All (λ c. ((c.id == id) ≡ true) ⊎ Elem c d'.contracts) d.contracts
  pub schedules_gone : All (λ s. (s.contract_id == id) ≡ false) d'.schedules
  pub schedules_stay : All (λ s. ((s.contract_id == id) ≡ true) ⊎ Elem s d'.schedules) d.schedules
  pub contract_forgotten : All (λ t. is_number t.contract_id id ≡ false) d'.transactions
  pub schedules_forgotten : All (λ t. pays_schedule_of id d t ≡ false) d'.transactions
  pub transactions_stay : map unlinked d'.transactions ≡ map unlinked d.transactions
  pub links_stay :
      All
        (λ t.
          (is_number t.contract_id id ≡ true)
          ⊎ ((pays_schedule_of id d t ≡ true) ⊎ Elem t d'.transactions))
        d.transactions
  pub nothing_else : d' ≡ record d {
    contracts = d'.contracts;
    schedules = d'.schedules;
    transactions = d'.transactions;
    subscriptions = d'.subscriptions;
  }

-- What a deletion makes of a transaction.
abbrev forgotten : ℕ → Db → Transaction → Transaction
forgotten id d t = forget_contract id (forget_schedules (of_contract id) d.schedules t)

pays_none :
    (id : ℕ) (ss : List PaymentSchedule)
    → any (λ s. s.contract_id == id && is_number none s.id) ss ≡ false
pays_none id [] = refl
pays_none id (s ∷ ss) = ground (arith, pays_none id ss)

forgotten-contract :
    (id : ℕ) (d : Db) (t : Transaction) → is_number (forgotten id d t).contract_id id ≡ false
forgotten-contract id d t = elim (Bool-cases (is_number t.contract_id id)) [
  | inl e ↦ rw e refl
  | inr e ↦ rw (e, e) refl
]

forgotten-schedules :
    (id : ℕ) (d : Db) (t : Transaction) → pays_schedule_of id d (forgotten id d t) ≡ false
forgotten-schedules id d t = elim (Bool-cases (pays_schedule_of id d t)) [
  | inl e ↦ rw e (pays_none id d.schedules)
  | inr e ↦ rw (e, e) refl
]

forgotten-other :
    (id : ℕ) (d : Db) (t : Transaction)
    → is_number t.contract_id id ≡ false
    → pays_schedule_of id d t ≡ false
    → t ≡ forgotten id d t
forgotten-other id d t e e' = rw (e, e') refl

abbrev forgotten_rows : ℕ → Db → List Transaction → List Transaction
forgotten_rows id d ts =
    map (forget_contract id) (map (forget_schedules (of_contract id) d.schedules) ts)

forgotten_rows-contract :
    (id : ℕ) (d : Db) (ts : List Transaction)
    → All (λ t. is_number t.contract_id id ≡ false) (forgotten_rows id d ts)
forgotten_rows-contract id d [] = tt
forgotten_rows-contract id d (t ∷ ts) = (forgotten-contract id d t, forgotten_rows-contract id d ts)

forgotten_rows-schedules :
    (id : ℕ) (d : Db) (ts : List Transaction)
    → All (λ t. pays_schedule_of id d t ≡ false) (forgotten_rows id d ts)
forgotten_rows-schedules id d [] = tt
forgotten_rows-schedules id d (t ∷ ts) =
    (forgotten-schedules id d t, forgotten_rows-schedules id d ts)

forgotten_rows-unlinked :
    (id : ℕ) (d : Db) (ts : List Transaction)
    → map unlinked (forgotten_rows id d ts) ≡ map unlinked ts
forgotten_rows-unlinked id d [] = refl
forgotten_rows-unlinked id d (t ∷ ts) =
    ap (λ rest. unlinked t ∷ rest) (forgotten_rows-unlinked id d ts)

forgotten_rows-Elem :
    (id : ℕ) (d : Db) (t : Transaction) (ts : List Transaction)
    → Elem t ts
    → Elem (forgotten id d t) (forgotten_rows id d ts)
forgotten_rows-Elem id d t [] m = elim m [ ]
forgotten_rows-Elem id d t (x ∷ xs) (inl e) = inl (ap (forgotten id d) e)
forgotten_rows-Elem id d t (x ∷ xs) (inr m) = inr (forgotten_rows-Elem id d t xs m)

forgotten_rows-others :
    (id : ℕ) (d : Db)
    → All
        (λ t.
          (is_number t.contract_id id ≡ true)
          ⊎ ((pays_schedule_of id d t ≡ true) ⊎ Elem t (forgotten_rows id d d.transactions)))
        d.transactions
forgotten_rows-others id d = All-of_Elem _ d.transactions λ t m.
    elim (Bool-cases (is_number t.contract_id id)) [
      | inl e ↦ inl e
      | inr e ↦ elim (Bool-cases (pays_schedule_of id d t)) [
        | inl e' ↦ inr (inl e')
        | inr e' ↦ inr (
            inr (
              subst (λ x. Elem x (forgotten_rows id d d.transactions))
                (sym (forgotten-other id d t e e')) (forgotten_rows-Elem id d t d.transactions m)))
      ]
    ]

delete_contract-IsRemoved : (id : ℕ) (d : Db) → IsRemoved id d (delete_contract id d)
unfolding delete_contract delete_schedules
delete_contract-IsRemoved id d = record {
  contract_gone = delete_where-All (λ c. c.id == id) d.contracts;
  contracts_stay = delete_where-others (λ c. c.id == id) d.contracts;
  schedules_gone = delete_where-All (of_contract id) d.schedules;
  schedules_stay = delete_where-others (of_contract id) d.schedules;
  contract_forgotten = forgotten_rows-contract id d d.transactions;
  schedules_forgotten = forgotten_rows-schedules id d d.transactions;
  transactions_stay = forgotten_rows-unlinked id d d.transactions;
  links_stay = forgotten_rows-others id d;
  nothing_else = refl;
}

-- Usage windows do not matter.
pub IsRemoved-after_quiet :
    (id : ℕ) (d x : Db) → OnlySubscriptions d x → IsRemoved id d (delete_contract id x)
IsRemoved-after_quiet id d x q =
    let g : IsRemoved id (record d { subscriptions = x.subscriptions }) (delete_contract id x) =
      subst (λ z. IsRemoved id z (delete_contract id x)) q (delete_contract-IsRemoved id x) in
    record {
      contract_gone = g.contract_gone;
      contracts_stay = g.contracts_stay;
      schedules_gone = g.schedules_gone;
      schedules_stay = g.schedules_stay;
      contract_forgotten = g.contract_forgotten;
      schedules_forgotten = g.schedules_forgotten;
      transactions_stay = g.transactions_stay;
      links_stay = g.links_stay;
      nothing_else = g.nothing_else;
    }
