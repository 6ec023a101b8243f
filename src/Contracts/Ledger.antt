-- ===== src/Contracts/Ledger.antt =====
-- What the contracts of contracts.service.ts amount to, apart from signatures, status and texts: a
-- ledger of what each loan owes. Entries are opened, repaid and closed.
use coloanex_prod.Common.{All, Distinct, List, [], map, ℕ, ◌++◌, ◌==◌, ◌∷◌, ◌≡◌, ◌≢◌}
use coloanex_prod.Common.Int.{ℤ, pos, ◌-ℤ◌, ◌+ℤ◌}
use coloanex_prod.Db.{Contract, Db, delete_where, update_where}
use coloanex_prod.Contracts.Disbursing.{terms_of}
use coloanex_prod.Contracts.Installments.{calculate_installments, Terms}

pub record Entry : Type 0 where
  pub id : ℕ
  pub loan_id : ℕ
  pub terms : Terms
  pub installment_amount : ℕ
  pub total_installments : ℕ
  pub due : ℕ
  pub paid_in : ℤ
  pub outstanding : ℤ

abbrev pub entry_of : Contract → Entry
entry_of c = record {
  id = c.id;
  loan_id = c.loan_id;
  terms = terms_of c;
  installment_amount = c.installment_amount;
  total_installments = c.total_installments;
  due = c.total_amount_due;
  paid_in = c.total_amount_paid;
  outstanding = c.outstanding_balance;
}

abbrev pub ledger : Db → List Entry
ledger d = map entry_of d.contracts

-- What is due is what the terms ask for, and is either paid or outstanding.
pub record IsBalanced (e : Entry) : Type 0 where
  pub amount_fits : e.installment_amount ≡ (calculate_installments e.terms).installment_amount
  pub count_fits : e.total_installments ≡ (calculate_installments e.terms).total_installments
  pub due_fits : e.due ≡ (calculate_installments e.terms).total_amount_due
  pub adds_up : e.paid_in +ℤ e.outstanding ≡ pos e.due

abbrev pub repaid_by : ℕ → Entry → Entry
repaid_by amount e = record e {
  paid_in = e.paid_in +ℤ pos amount;
  outstanding = e.outstanding -ℤ pos amount;
}

-- One entry for an identifier, and one for a loan.
pub record IsSound (l : List Entry) : Type 0 where
  pub balanced : All IsBalanced l
  pub ids : Distinct (map (λ e. e.id) l)
  pub loans : Distinct (map (λ e. e.loan_id) l)

-- What may happen to a ledger.
pub data Change : Type 0 where
  opening : Entry → Change
  repayment : ℕ → ℕ → Change
  closing : ℕ → Change
  closing_of_loan : ℕ → Change

-- At most one change, of those that are allowed: a balanced entry of which nothing is paid is opened
-- with an identifier and for a loan that have none, an amount is moved in the entry with an identifier
-- from what is outstanding to what is paid, or the entry with an identifier or for a loan is closed.
pub data LedgerStep (may : Change → Type 0) (l : List Entry) : List Entry → Type 0 where
  unchanged : LedgerStep may l l
  opened :
      (e : Entry)
      → may (Change.opening e)
      → IsBalanced e
      → e.paid_in ≡ pos 0
      → All (λ x. x.id ≢ e.id) l
      → All (λ x. x.loan_id ≢ e.loan_id) l
      → LedgerStep may l (l ++ e ∷ [])
  repaid :
      (id amount : ℕ)
      → may (Change.repayment id amount)
      → LedgerStep may l (update_where (λ e. e.id == id) (repaid_by amount) l)
  closed : (id : ℕ) → may (Change.closing id) → LedgerStep may l (delete_where (λ e. e.id == id) l)
  closed_of_loan :
      (loan_id : ℕ)
      → may (Change.closing_of_loan loan_id)
      → LedgerStep may l (delete_where (λ e. e.loan_id == loan_id) l)
