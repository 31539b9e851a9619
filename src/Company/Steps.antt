-- ===== src/Company/Steps.antt =====
-- Sequences of mutations of the synthetic company, by any callers, that
-- packages/persistence/src/chaosagent_persistence/repository.py lets return.
use chaosagent.Base.{ℕ, ◌≡◌, String, ok}
use chaosagent.Store.Tables.{Db}
use chaosagent.Company.{CompanyEffect, MutationCall, RefundRequest, TicketRequest}
use chaosagent.Company.Mutations.{apply_refund_effect, apply_support_ticket_effect}

module _ (sha256 : String → String) where
  pub data Step (db db' : Db) : Type 0 where
    refund_step :
        (run_id : String) (call : MutationCall) (request : RefundRequest) (now : ℕ)
        (x : CompanyEffect)
        → apply_refund_effect sha256 run_id call request now db ≡ ok (x, db')
        → Step db db'
    ticket_step :
        (run_id : String) (call : MutationCall) (request : TicketRequest) (now : ℕ)
        (x : CompanyEffect)
        → apply_support_ticket_effect sha256 run_id call request now db ≡ ok (x, db')
        → Step db db'

  pub data Reach (db : Db) : Db → Type 0 where
    start : Reach db db
    more : {db' db'' : Db} → Reach db db' → Step db' db'' → Reach db db''
