-- ===== src/Contracts/Listing.antt =====
-- contracts.service.ts: `findAll` and `findOne`. The order of the list, by a date of creation that
-- nothing else reads, is left out.
use coloanex_prod.Common.{
  Bool, List, any, filter, if◌then◌else◌, is_number, is_some, not, true, ℕ, ◌&&◌, ◌==◌,
}
use coloanex_prod.Db.{
  Contract, Borrower, Action, pure, Db, throw_if, forbidden, gets, find_or_throw, not_found, ◌>>◌,
  ◌>>=◌,
}
use coloanex_prod.Service.{find_contract, find_borrower, JwtPayload}
use coloanex_prod.Contracts.Disbursing.{is_outsider}
use coloanex_prod.Contracts.Editing.{is_own_borrower}

unfoldable pub find_one : ℕ → JwtPayload → Action Contract
find_one id user = do
  c ← find_or_throw (find_contract id) (not_found "Contract not found")
  own ← gets (find_borrower c.tenant_id user.sub)
  throw_if (is_outsider user c && not (is_own_borrower own c))
      (forbidden "You do not have access to this contract")
  pure c

abbrev pub is_borrower_record : JwtPayload → Borrower → Bool
is_borrower_record user b = b.user_id == user.sub

-- The `where` of the list: no condition for a caller without a tenant and without borrower records.
unfoldable pub is_listed : JwtPayload → Db → Contract → Bool
is_listed user d c =
    if is_some user.tenant_id
    then is_number user.tenant_id c.tenant_id
    else if any (is_borrower_record user) d.borrowers
    then any (λ b. is_borrower_record user b && b.id == c.borrower_id) d.borrowers
    else true

unfoldable pub find_all_contracts : JwtPayload → Db → List Contract
unfolding is_listed
find_all_contracts user d = filter (is_listed user d) d.contracts
