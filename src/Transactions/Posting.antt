-- ===== src/Transactions/Posting.antt =====
-- The handlers of transactions.service.ts and the webhook leave the ledger of contracts as it was.
use coloanex_prod.Common.{Option-cases, ap, arith, inl, inr, none, refl, some, ℕ, ◌≡◌}
use coloanex_prod.Db.{
  Transaction, Db, Result, ok, err, bad_request, internal, pure, throw_if, some_or_throw,
  TransactionStatus, ◌>>◌, modify,
}
use coloanex_prod.Service.{
  consume, input_of, require_decision, Env, submit, find_transaction, JwtPayload,
}
use coloanex_prod.Contracts.Drafts.{require_decision-KeepsLedger, consume-KeepsLedger}
use coloanex_prod.Contracts.Ledger.{ledger}
use coloanex_prod.Contracts.Posting.{
  some_or_throw-KeepsLedger, KeepsLedger, bind-KeepsLedger, if-KeepsLedger,
}
use coloanex_prod.Orchestrator.Decide.{pays_gas_user}
use coloanex_prod.Payments.Webhook.{WebhookPayload, process_webhook, confirm}
use coloanex_prod.Transactions.Record.{
  update_status_on_chain, CreateTransactionDto, write_transaction, update_status,
  record_transaction, with_status,
}
use coloanex_prod.Transactions.RecordLaws.{record_transaction-RecordOutcome, RecordOutcome}

pub process_webhook-KeepsLedger :
    (env : Env) (payload : WebhookPayload) → KeepsLedger (process_webhook env payload)
unfolding process_webhook confirm
process_webhook-KeepsLedger env payload d = ground arith

RecordOutcome-ledger :
    (env : Env) (dto : CreateTransactionDto) (user : JwtPayload) (d : Db)
    (r : Result Transaction × Db)
    → RecordOutcome env dto user d r
    → ledger r.1 ≡ ledger d
RecordOutcome-ledger env dto user d (err e, d') (inl q) = ap (λ (x : Db). ledger x) q
RecordOutcome-ledger env dto user d (err e, d') (inr (dec, on, q)) = ap (λ (x : Db). ledger x) q
RecordOutcome-ledger env dto user d (ok t, d') (dec, made, there, chain, q) =
    ap (λ (x : Db). ledger x) q

pub record_transaction-KeepsLedger :
    (env : Env) (dto : CreateTransactionDto) (user : JwtPayload)
    → KeepsLedger (record_transaction env dto user)
record_transaction-KeepsLedger env dto user d =
    RecordOutcome-ledger env dto user d (record_transaction env dto user d)
      (record_transaction-RecordOutcome env dto user d)

update_status_on_chain-KeepsLedger :
    (env : Env) (t : Transaction) (status : TransactionStatus) (user : JwtPayload)
    → KeepsLedger (update_status_on_chain env t status user)
unfolding update_status_on_chain
update_status_on_chain-KeepsLedger env t status user =
    bind-KeepsLedger (require_decision env (input_of user user.tenant_id)) _
      (require_decision-KeepsLedger env (input_of user user.tenant_id))
      λ dec.
        bind-KeepsLedger
          (throw_if (pays_gas_user dec.gas_payer)
            (bad_request "Status update in USER_WALLET mode must be signed from web wallet flow."))
          _ (λ d. refl)
          λ u.
            bind-KeepsLedger
              (some_or_throw (submit env.chain) (internal "Blockchain transaction update failed."))
              _ (some_or_throw-KeepsLedger (submit env.chain) _)
              λ hash d.
                bind-KeepsLedger (consume env dec.subscription_id)
                  (λ v. pure (with_status env status (some hash) t))
                  (consume-KeepsLedger env dec.subscription_id) (λ v x. refl)
                  (write_transaction t.id (with_status env status (some hash)) d)

pub update_status-KeepsLedger :
    (env : Env) (id : ℕ) (status : TransactionStatus) (user : JwtPayload)
    → KeepsLedger (update_status env id status user)
unfolding update_status
update_status-KeepsLedger env id status user d = elim (Option-cases (find_transaction id d)) [
  | inl missing ↦ rw missing refl
  | inr (t, found) ↦ rw found (
      if-KeepsLedger env.chain.enabled (update_status_on_chain env t status user)
        (modify (write_transaction id (with_status env status none))
          >> pure (with_status env status none t))
        (update_status_on_chain-KeepsLedger env t status user) (λ x. refl) d)
]
