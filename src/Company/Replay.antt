-- ===== src/Company/Replay.antt =====
-- A repeated mutation in packages/persistence/src/chaosagent_persistence/repository.py gives back the
-- effect of the first one.
use chaosagent.Base.{
  ℕ, ◌≤◌, ◌≡◌, ap, ◌∙◌, String, true, false, inl, inr, some, le→leb, ◌==◌, string_eq, if◌then◌else◌,
  Result, ok, err, arith,
}
use chaosagent.Store.Tables.{Error, idempotency_conflict, Effect, Db}
use chaosagent.Events.{max_safe_integer}
use chaosagent.Company.{
  CompanyEffect, EffectKey, MutationCall, RefundRequest, TicketRequest, find_effect, key_of,
}
use chaosagent.Company.Mutations.{
  lock_company_mutation_run, refund_key, ticket_key, is_valid_effect, company_effect_record,
  replay_effect, apply_refund_effect,
}
use chaosagent.Company.Created.{
  Refunded, Updated, refund_effect-key, ticket_effect-key, apply_refund_effect-cases,
  apply_support_ticket_effect-cases,
}
use chaosagent.Company.Ledger.{find_effect-fresh, find_effect-new}
use chaosagent.Company.Steps.{Step, refund_step, ticket_step, Reach, start, more}

module _ (sha256 : String → String) where
  made_key :
      {run_id : String} {call : MutationCall} {request : RefundRequest} {now : ℕ} {db db' : Db}
      {x : CompanyEffect}
      → Refunded sha256 run_id call request now db db' x
      → key_of x.row ≡ refund_key run_id call
  made_key {run_id} {call} {request} {now} made =
      ap key_of made.row_eq ∙ refund_effect-key sha256 run_id call request made.payment.currency now

  Updated-key :
      {run_id : String} {call : MutationCall} {request : TicketRequest} {now : ℕ} {db db' : Db}
      {x : CompanyEffect}
      → Updated sha256 run_id call request now db db' x
      → key_of x.row ≡ ticket_key run_id call
  Updated-key {run_id} {call} {request} {now} made =
      ap key_of made.row_eq ∙ ticket_effect-key sha256 run_id call request now

  Step-keeps :
      (key : EffectKey) (e : Effect) (db db' : Db)
      → Step sha256 db db'
      → find_effect key db.effects ≡ some e
      → find_effect key db'.effects ≡ some e
  Step-keeps key e db db' (refund_step run_id call request now x h) found =
      elim (apply_refund_effect-cases sha256 run_id call request now db db' x h) [
        | inl made ↦ rw made.after (
            find_effect-fresh key x.row e db.effects
              (ap (λ k. find_effect k db.effects) (made_key made) ∙ made.fresh) found)
        | inr (old, there, again) ↦ rw again.kept found
      ]
  Step-keeps key e db db' (ticket_step run_id call request now x h) found =
      elim (apply_support_ticket_effect-cases sha256 run_id call request now db db' x h) [
        | inl made ↦ rw made.after (
            find_effect-fresh key x.row e db.effects
              (ap (λ k. find_effect k db.effects) (Updated-key made) ∙ made.fresh) found)
        | inr (old, there, again) ↦ rw again.kept found
      ]

  -- No sequence of mutations changes a row of the ledger.
  pub ledger_kept :
      (key : EffectKey) (e : Effect) {db db' : Db}
      → Reach sha256 db db'
      → find_effect key db.effects ≡ some e
      → find_effect key db'.effects ≡ some e
  ledger_kept key e start found = found
  ledger_kept key e (more {db'} {db''} steps step) found =
      Step-keeps key e db' db'' step (ledger_kept key e steps found)

  -- What a mutation answers whose key has the effect `e`.
  abbrev pub repeated : Effect → MutationCall → Db → Result Error (CompanyEffect × Db)
  repeated e call db =
      if e.request_digest == call.request_digest
      then ok (record { row = e; newly_applied = false }, db)
      else err idempotency_conflict

  pub replay_effect-eq :
      (e : Effect) (call : MutationCall) (db : Db)
      → is_valid_effect sha256 e ≡ true
      → replay_effect sha256 call.request_digest e db ≡ repeated e call db
  unfolding replay_effect company_effect_record
  replay_effect-eq e call db valid = rw valid (ground arith)

  -- The row that a returning refund answers with stands in the ledger, and passes the validator.
  refund_stored :
      (run_id : String) (call : MutationCall) (request : RefundRequest) (now : ℕ) (db db1 : Db)
      (x : CompanyEffect)
      → apply_refund_effect sha256 run_id call request now db ≡ ok (x, db1)
      → (find_effect (refund_key run_id call) db1.effects ≡ some x.row)
        × (is_valid_effect sha256 x.row ≡ true)
  refund_stored run_id call request now db db1 x h =
      elim (apply_refund_effect-cases sha256 run_id call request now db db1 x h) [
        | inl made ↦ (
          rw made.after (find_effect-new (refund_key run_id call) x.row db.effects (made_key made)),
          made.valid,
        )
        | inr (e, old, again) ↦ (rw (again.kept, again.row_eq) old, rw again.row_eq again.valid)
      ]

  -- The refund that a call `made` is made once: after any later mutations, every refund of the Run under
  -- the same contract version and idempotency key leaves the database as it is, and returns that same
  -- effect if its request digest is the same, and raises IdempotencyConflictError if not. The later call's
  -- amount is in range, and the Run can be locked.
  pub refund_applied_once :
      (run_id : String) (call : MutationCall) (request : RefundRequest) (now : ℕ) (db db1 db2 : Db)
      (x : CompanyEffect)
      → apply_refund_effect sha256 run_id call request now db ≡ ok (x, db1)
      → Reach sha256 db1 db2
      → (call' : MutationCall) (request' : RefundRequest) (now' : ℕ)
      → refund_key run_id call' ≡ refund_key run_id call
      → lock_company_mutation_run run_id db2 ≡ ok tt
      → 1 ≤ request'.amount_minor
      → request'.amount_minor ≤ max_safe_integer
      → apply_refund_effect sha256 run_id call' request' now' db2 ≡ repeated x.row call' db2
  unfolding apply_refund_effect
  refund_applied_once run_id call request now db db1 db2 x h steps call' request' now' same locked
        low high =
      let (entry, valid) = refund_stored run_id call request now db db1 x h in
      let kept = ledger_kept (refund_key run_id call) x.row steps entry in
      let kept' : find_effect (refund_key run_id call') db2.effects ≡ some x.row =
        ap (λ k. find_effect k db2.effects) same ∙ kept in
      rw (locked, le→leb _ _ low, le→leb _ _ high, kept') (replay_effect-eq x.row call' db2 valid)
