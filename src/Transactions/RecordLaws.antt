-- ===== src/Transactions/RecordLaws.antt =====
-- What `create` (transactions.service.ts) stores, and what `purchase` makes of it.
use coloanex_prod.Common.{
  Bool, Bool-cases, List, Option, [], ap, arith, false, find, get_or, if◌then◌else◌, inl, inr,
  is_some, ltb, none, not, refl, some, subst, sym, true, ℕ, ◌&&◌, ◌++◌, ◌==◌, ◌∙◌, ◌∷◌, ◌≡◌, ◌≤◌,
  ◌⊎◌,
}
use coloanex_prod.Service.{
  JwtPayload, Env, find_contract, consume, find_transaction, require_decision,
}
use coloanex_prod.Db.{
  update_where, Result, err, ok, Db, Transaction, continue_with, TransactionType, SubscriptionPlan,
}
use coloanex_prod.Orchestrator.Frame.{OnlySubscriptions}
use coloanex_prod.Orchestrator.Decide.{OrchestrationDecision}
use coloanex_prod.Transactions.Record.{
  connects, completed_transaction, insert_transaction, pending_transaction, write_transaction,
  transaction_hash, CreateTransactionDto, transaction_input, store_decided, record_transaction,
}
use coloanex_prod.Db.Membership.{find-update_where}
use coloanex_prod.Service.Quiet.{consume-IsQuiet, require_decision-IsQuiet}
use coloanex_prod.Subscriptions.Purchase.{check_fee, check_payment, is_fee, is_fee_paid}

-- How `create` ends. The row is stored as PENDING before the chain is asked: an exception has written
-- to subscriptions alone, or has left a pending row; a return has completed the row.
abbrev pub RecordOutcome :
    Env → CreateTransactionDto → JwtPayload → Db → Result Transaction × Db → Type 0
RecordOutcome env dto user d (err e, d') =
    OnlySubscriptions d d'
    ⊎ ((dec : OrchestrationDecision) × (env.chain.enabled ≡ true)
        × (d' ≡ record d {
          transactions = d.transactions ++ pending_transaction env dto user dec ∷ [];
          subscriptions = d'.subscriptions;
        }))
RecordOutcome env dto user d (ok t, d') =
    (dec : OrchestrationDecision) × (t ≡ pending_transaction env dto user dec)
    × (connects dto d ≡ true)
    × ((env.chain.enabled ≡ false) ⊎ (is_some (transaction_hash env dto) ≡ true))
    × (d' ≡ record d {
      transactions =
          update_where (λ x. x.id == t.id) (completed_transaction env (transaction_hash env dto))
            (d.transactions ++ t ∷ []);
      subscriptions = d'.subscriptions;
    })

chain_answers :
    (enabled some_hash : Bool)
    → not some_hash && enabled ≡ false
    → (enabled ≡ false) ⊎ (some_hash ≡ true)
chain_answers enabled some_hash e = ground arith

connects_same :
    (dto : CreateTransactionDto) (d x : Db)
    → OnlySubscriptions d x
    → connects dto x ≡ connects dto d
unfolding connects find_contract
connects_same dto d x q = ap (λ (z : Db). connects dto z) q

store_decided-RecordOutcome :
    (env : Env) (dto : CreateTransactionDto) (user : JwtPayload) (dec : OrchestrationDecision)
    (d x : Db)
    → OnlySubscriptions d x
    → RecordOutcome env dto user d (store_decided env dto user dec x)
unfolding store_decided insert_transaction consume
store_decided-RecordOutcome env dto user dec d x q =
    let t : Transaction = pending_transaction env dto user dec in
    let finish : Transaction → Transaction = completed_transaction env (transaction_hash env dto) in
    elim (Bool-cases (connects dto x)) [
      | inr missing ↦ rw missing (inl q)
      | inl there ↦
          let test : Bool = not (is_some (transaction_hash env dto)) && env.chain.enabled in
          elim (Bool-cases test) [
            | inl stuck ↦
                rw (there, stuck)
                  (inr (
                    dec,
                    ground arith,
                    ap (λ (z : Db). record z { transactions = z.transactions ++ t ∷ [] }) q,
                  ))
            | inr works ↦
                rw (there, works)
                  (
                    dec,
                    refl,
                    sym (connects_same dto d x q) ∙ there,
                    chain_answers env.chain.enabled (is_some (transaction_hash env dto)) works,
                    consume-IsQuiet env dec.subscription_id (
                          write_transaction t.id finish
                            (record x { transactions = x.transactions ++ t ∷ [] }))
                        ∙ ap
                            (λ (z : Db). record z {
                              transactions =
                                  update_where (λ y. y.id == t.id) finish
                                    (z.transactions ++ t ∷ []);
                              subscriptions =
                                  (consume env dec.subscription_id (
                                    write_transaction t.id finish (record x {
                                      transactions = x.transactions ++ t ∷ [];
                                    }))).1.subscriptions;
                            })
                            q,
                  )
          ]
    ]

decided-RecordOutcome :
    (env : Env) (dto : CreateTransactionDto) (user : JwtPayload) (d : Db)
    (r : Result OrchestrationDecision × Db)
    → OnlySubscriptions d r.1
    → RecordOutcome env dto user d (continue_with r (store_decided env dto user))
decided-RecordOutcome env dto user d (ok dec, x) q =
    store_decided-RecordOutcome env dto user dec d x q
decided-RecordOutcome env dto user d (err e, x) q = inl q

-- How `create` of a transaction ends on every branch: an exception has written to usage windows
-- alone, or, only with the chain enabled, has left the new row PENDING; a return has stored the one
-- new row as COMPLETED, where its contract and schedule exist and, with the chain enabled, there is
-- a hash. Nothing else has changed.
pub record_transaction-RecordOutcome :
    (env : Env) (dto : CreateTransactionDto) (user : JwtPayload) (d : Db)
    → RecordOutcome env dto user d (record_transaction env dto user d)
unfolding record_transaction
record_transaction-RecordOutcome env dto user d =
    decided-RecordOutcome env dto user d (require_decision env (transaction_input dto user) d)
      (require_decision-IsQuiet env (transaction_input dto user) d)

find-snoc :
    (id : ℕ) (t : Transaction) (ts : List Transaction)
    → find (λ x. x.id == id) ts ≡ none
    → t.id == id ≡ true
    → find (λ x. x.id == id) (ts ++ t ∷ []) ≡ some t
find-snoc id t [] h e = rw e refl
find-snoc id t (x ∷ ts) h e = ground (arith, find-snoc id t ts)

find_recorded :
    (env : Env) (hash : Option ℕ) (t : Transaction) (d d' : Db)
    → find_transaction t.id d ≡ none
    → d'.transactions
      ≡ update_where (λ x. x.id == t.id) (completed_transaction env hash) (d.transactions ++ t ∷ [])
    → find_transaction t.id d' ≡ some (completed_transaction env hash t)
unfolding find_transaction
find_recorded env hash t d d' fresh e =
    let self : t.id == t.id ≡ true = ground arith in
    ap (find (λ x. x.id == t.id)) e
    ∙ find-update_where (λ x. x.id == t.id) (λ x. x.id == t.id) (completed_transaction env hash)
        (d.transactions ++ t ∷ []) t (λ x. ground arith)
        (find-snoc t.id t d.transactions fresh self)
    ∙ ap (λ b. some (if b then completed_transaction env hash t else t)) self

fee_passes :
    (p : SubscriptionPlan) (user_id payment : ℕ) (t : Transaction) (d : Db)
    → find_transaction payment d ≡ some t
    → is_fee_paid (some t) ≡ true
    → t.sent_by ≡ user_id
    → p.price ≤ t.amount
    → check_payment p user_id (some payment) d ≡ (ok tt, d)
unfolding check_payment check_fee
fee_passes p user_id payment t d found is_paid own enough =
    let same : t.sent_by == user_id ≡ true = ground arith in
    let covers : ltb t.amount p.price ≡ false = ground arith in
    elim (Bool-cases (ltb 0 p.price)) [
      | inr free ↦ rw free refl
      | inl costs ↦ rw (costs, found, is_paid, same, covers) refl
    ]

-- No payment gateway stands behind a transaction that `create` returns: where its identifier is new,
-- a FEE whose request names the caller as its sender, or the empty text, of the price of a plan or
-- more, passes the payment check of `purchase` for that plan.
pub record_transaction-check_payment :
    (env : Env) (dto : CreateTransactionDto) (user : JwtPayload) (p : SubscriptionPlan)
    (t : Transaction) (d d' : Db)
    → record_transaction env dto user d ≡ (ok t, d')
    → find_transaction (env.uuid 0) d ≡ none
    → dto.type ≡ TransactionType.fee
    → get_or dto.sent_by user.sub ≡ user.sub
    → p.price ≤ dto.amount
    → check_payment p user.sub (some t.id) d' ≡ (ok tt, d')
record_transaction-check_payment env dto user p t d d' returns fresh is_fee own enough =
    let (dec, made, there, chain, frame) =
      subst (RecordOutcome env dto user d) returns
        (record_transaction-RecordOutcome env dto user d) in
    let hash : Option ℕ = transaction_hash env dto in
    let stored : find_transaction t.id d' ≡ some (completed_transaction env hash t) =
      find_recorded env hash t d d' (ap (λ (x : Transaction). find_transaction x.id d) made ∙ fresh)
        (ap (λ (z : Db). z.transactions) frame) in
    fee_passes p user.sub t.id (completed_transaction env hash t) d' stored
      (ap (λ (x : Transaction). is_fee_paid (some (completed_transaction env hash x))) made
        ∙ rw is_fee refl)
      (ap (λ (x : Transaction). x.sent_by) made ∙ own)
      (subst (λ (x : Transaction). p.price ≤ x.amount) (sym made) enough)
