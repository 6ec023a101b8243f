-- ===== src/Contracts/ListingLaws.antt =====
-- Who sees which contracts, and which contracts are removed (contracts.service.ts).
use coloanex_prod.Common.{
  All, any, ap, arith, false, filter, none, refl, some, sym, true, ℕ, ◌&&◌, ◌==◌, ◌∙◌, ◌≡◌, ◌⊎◌,
}
use coloanex_prod.Db.{
  Contract, Db, Result, ok, err, when, continue_with, modify, ◌>>◌, ContractStatus,
}
use coloanex_prod.Service.{find_contract, JwtPayload, Env}
use coloanex_prod.Contracts.Listing.{is_listed, is_borrower_record, find_all_contracts}
use coloanex_prod.Contracts.Disbursing.{is_outsider}
use coloanex_prod.Contracts.Edits.{check_remove-same, delete_on_chain-IsQuiet}
use coloanex_prod.Contracts.Editing.{
  check_remove, delete_contract, remove_contract, delete_on_chain, find_managed,
}
use coloanex_prod.Db.Membership.{All-of_Elem, Elem-filter}
use coloanex_prod.Orchestrator.Frame.{OnlySubscriptions}
use coloanex_prod.Service.Quiet.{when-IsQuiet}
use coloanex_prod.Contracts.Removed.{IsRemoved, IsRemoved-after_quiet}

-- A contract that may be listed for a caller.
abbrev pub MayList : JwtPayload → Db → Contract → Type 0
MayList user d c =
    (user.tenant_id ≡ some c.tenant_id)
    ⊎ ((user.tenant_id ≡ none)
        × ((any (λ b. is_borrower_record user b && b.id == c.borrower_id) d.borrowers ≡ true)
            ⊎ (any (is_borrower_record user) d.borrowers ≡ false)))

is_listed-MayList :
    (user : JwtPayload) (d : Db) (c : Contract) → is_listed user d c ≡ true → MayList user d c
unfolding is_listed
is_listed-MayList user d c h = ground arith

-- Every contract that `findAll` lists is of the caller's tenant, or, for a caller without a tenant,
-- of a borrower record of theirs; only a caller with neither is shown any contract.
pub find_all_contracts-MayList :
    (user : JwtPayload) (d : Db) → All (MayList user d) (find_all_contracts user d)
unfolding find_all_contracts
find_all_contracts-MayList user d =
    All-of_Elem (MayList user d) (filter (is_listed user d) d.contracts)
      λ c m. is_listed-MayList user d c (Elem-filter (is_listed user d) c d.contracts m).1

-- A contract that the guards of `remove` let through.
pub record MayRemove (id : ℕ) (user : JwtPayload) (c : Contract) (d : Db) : Type 0 where
  pub found : find_contract id d ≡ some c
  pub insider : is_outsider user c ≡ false
  pub is_unsent : c.status ≡ ContractStatus.draft

check_remove-MayRemove :
    (id : ℕ) (user : JwtPayload) (c : Contract) (d d' : Db)
    → check_remove id user d ≡ (ok c, d')
    → MayRemove id user c d
unfolding check_remove find_managed
check_remove-MayRemove id user c d d' h = record {
  found = ground arith;
  insider = ground arith;
  is_unsent = ground arith;
}

-- How `remove` ends.
abbrev pub RemoveOutcome : ℕ → JwtPayload → Db → Result (Unit {0}) × Db → Type 0
RemoveOutcome id user d (err e, d') = OnlySubscriptions d d'
RemoveOutcome id user d (ok u, d') = (c : Contract) × MayRemove id user c d × IsRemoved id d d'

remove_end :
    (id : ℕ) (user : JwtPayload) (c : Contract) (d : Db) (r : Result (Unit {0}) × Db)
    → MayRemove id user c d
    → OnlySubscriptions d r.1
    → RemoveOutcome id user d (continue_with r (λ u. modify (delete_contract id)))
remove_end id user c d (ok u, m) h q = (c, h, IsRemoved-after_quiet id d m q)
remove_end id user c d (err e, m) h q = q

remove_from :
    (env : Env) (id : ℕ) (user : JwtPayload) (d : Db) (r : Result Contract × Db)
    → check_remove id user d ≡ r
    → RemoveOutcome id user d (
        continue_with r
          (λ c. when env.chain.enabled (delete_on_chain env c user) >> modify (delete_contract id)))
remove_from env id user d (err e, x) h =
    rw (sym (ap (λ z. z.1) h) ∙ check_remove-same id user d) refl
remove_from env id user d (ok c, x) h = rw (sym (ap (λ z. z.1) h) ∙ check_remove-same id user d) (
    remove_end id user c d (when env.chain.enabled (delete_on_chain env c user) d)
      (check_remove-MayRemove id user c d x h)
      (when-IsQuiet env.chain.enabled (delete_on_chain env c user)
        (delete_on_chain-IsQuiet env c user) d))

-- An exception from `remove` of a contract leaves everything but usage windows as it was. A return
-- has found a DRAFT contract of the caller's tenant (of any tenant for the Super Admin), and has
-- deleted it with its schedules, and no other contract or schedule. Every transaction stays and
-- refers to neither any more: one that referred to neither is as it was, and of the others only the
-- reference to the contract or the schedule is changed. Nothing else but usage windows is touched.
pub remove_contract-RemoveOutcome :
    (env : Env) (id : ℕ) (user : JwtPayload) (d : Db)
    → RemoveOutcome id user d (remove_contract env id user d)
unfolding remove_contract
remove_contract-RemoveOutcome env id user d =
    remove_from env id user d (check_remove id user d) refl
