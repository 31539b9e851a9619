-- ===== src/Company/Created.antt =====
-- What the mutations in packages/persistence/src/chaosagent_persistence/repository.py have done when
-- they return.
use chaosagent.Base.{
  ℕ, ◌+◌, ◌≤◌, ◌≡◌, refl, String, Bool, true, false, ◌⊎◌, inl, inr, none, some, ◌∷◌, string_eq, ok,
  Result-cases, Option-cases, arith, eq_iff,
}
use chaosagent.Store.Tables.{Payment, Refund, Effect, Db}
use chaosagent.Company.{
  CompanyEffect, MutationCall, RefundRequest, TicketRequest, find_effect, find_payment,
  set_payment_status, refunded_total, set_ticket, is_refundable, key_of, insert_effect,
  insert_refund,
}
use chaosagent.Company.Mutations.{
  refund_key, ticket_key, refund_row, settled, is_valid_effect, company_effect_record,
  replay_effect, refund_effect, ticket_effect, create_refund, create_ticket_update,
  apply_refund_effect, apply_support_ticket_effect,
}

pub insert_effect-eq-ok :
    (e : Effect) (db db' : Db)
    → insert_effect e db ≡ ok db'
    → (find_effect (key_of e) db.effects ≡ none) × (db' ≡ record db { effects = e ∷ db.effects })
unfolding insert_effect
insert_effect-eq-ok e db db' h = ground arith

pub insert_refund-eq-ok :
    (r : Refund) (db db' : Db)
    → insert_refund r db ≡ ok db'
    → db' ≡ record db { refunds = r ∷ db.refunds }
unfolding insert_refund
insert_refund-eq-ok r db db' h = ground arith

module _ (sha256 : String → String) where
  pub company_effect_record-eq-ok :
      (e : Effect) (newly : Bool) (x : CompanyEffect)
      → company_effect_record sha256 e newly ≡ ok x
      → (is_valid_effect sha256 e ≡ true) × (x ≡ record { row = e; newly_applied = newly })
  unfolding company_effect_record
  company_effect_record-eq-ok e newly x h = ground arith

  -- The call has put its refund and its effect on a payment that had room for it.
  pub record Refunded (run_id : String) (call : MutationCall) (request : RefundRequest) (now : ℕ)
      (db db' : Db) (x : CompanyEffect) : Type 0 where
    pub payment : Payment
    pub found : find_payment run_id request.payment_id db.payments ≡ some payment
    pub in_order : payment.order_id ≡ request.order_id
    pub refundable : is_refundable payment.status ≡ true
    pub room :
        refunded_total run_id request.payment_id db.refunds + request.amount_minor
        ≤ payment.amount_minor
    pub row_eq : x.row ≡ refund_effect sha256 run_id call request payment.currency now
    pub newly : x.newly_applied ≡ true
    pub valid : is_valid_effect sha256 x.row ≡ true
    pub fresh : find_effect (refund_key run_id call) db.effects ≡ none
    pub after : db' ≡ record db {
      payments =
          set_payment_status run_id request.payment_id
            (settled
              (refunded_total run_id request.payment_id db.refunds + request.amount_minor)
              payment)
            db.payments;
      refunds = refund_row run_id request x.row ∷ db.refunds;
      effects = x.row ∷ db.effects;
    }

  pub refund_effect-key :
      (run_id : String) (call : MutationCall) (request : RefundRequest) (currency : String)
      (now : ℕ)
      → key_of (refund_effect sha256 run_id call request currency now) ≡ refund_key run_id call
  unfolding refund_effect
  refund_effect-key run_id call request currency now = refl

  pub create_refund-Refunded :
      (run_id : String) (call : MutationCall) (request : RefundRequest) (now : ℕ) (db db' : Db)
      (x : CompanyEffect)
      → create_refund sha256 run_id call request now db ≡ ok (x, db')
      → Refunded run_id call request now db db' x
  unfolding create_refund
  create_refund-Refunded run_id call request now db db' x h =
      elim (Option-cases (find_payment run_id request.payment_id db.payments)) [
        | inl missing ↦ absurd (ground arith)
        | inr (payment, found) ↦
            let e = refund_effect sha256 run_id call request payment.currency now in
            elim (Result-cases (insert_effect e db)) [
              | inr (raised, e1) ↦ absurd (ground arith)
              | inl (db1, e1) ↦
                  elim (Result-cases (insert_refund (refund_row run_id request e) db1)) [
                    | inr (raised, e2) ↦ absurd (ground arith)
                    | inl (db2, e2) ↦ elim (Result-cases (company_effect_record sha256 e true)) [
                      | inr (raised, e3) ↦ absurd (ground arith)
                      | inl (applied, e3) ↦
                          let ledger = insert_effect-eq-ok e db db1 e1 in
                          let refunds =
                            insert_refund-eq-ok (refund_row run_id request e) db1 db2 e2 in
                          let checked = company_effect_record-eq-ok e true applied e3 in
                          let paid : (x ≡ applied)
                              × (db' ≡ record db2 {
                                payments =
                                    set_payment_status run_id request.payment_id
                                      (settled
                                        (refunded_total run_id request.payment_id db.refunds
                                          + request.amount_minor)
                                        payment)
                                      db2.payments;
                              }) =
                            ground arith in
                          record {
                            payment = payment;
                            found = found;
                            in_order = ground (arith, eq_iff payment.order_id request.order_id);
                            refundable = ground arith;
                            room = ground arith;
                            row_eq = ground (arith, paid, checked);
                            newly = ground (arith, paid, checked);
                            valid = ground (arith, paid, checked);
                            fresh = ledger.0;
                            after = rw (paid.1, paid.0, checked.1, refunds, ledger.1);
                          }
                    ]
                  ]
            ]
      ]

  -- The call has found the effect of an earlier one, and gives it back.
  pub record Replayed (e : Effect) (call : MutationCall) (db db' : Db) (x : CompanyEffect)
      : Type 0 where
    pub valid : is_valid_effect sha256 e ≡ true
    pub same_request : e.request_digest ≡ call.request_digest
    pub kept : db' ≡ db
    pub row_eq : x.row ≡ e
    pub newly : x.newly_applied ≡ false

  pub replay_effect-Replayed :
      (e : Effect) (call : MutationCall) (db db' : Db) (x : CompanyEffect)
      → replay_effect sha256 call.request_digest e db ≡ ok (x, db')
      → Replayed e call db db' x
  unfolding replay_effect
  replay_effect-Replayed e call db db' x h =
      elim (Result-cases (company_effect_record sha256 e false)) [
        | inr (raised, e3) ↦ absurd (ground arith)
        | inl (existing, e3) ↦
            let checked = company_effect_record-eq-ok e false existing e3 in
            record {
              valid = checked.0;
              same_request = ground (arith, eq_iff e.request_digest call.request_digest);
              kept = ground arith;
              row_eq = ground (arith, checked);
              newly = ground (arith, checked);
            }
      ]

  -- A ticket has its new state, and its effect stands in the ledger.
  pub record Updated (run_id : String) (call : MutationCall) (request : TicketRequest) (now : ℕ)
      (db db' : Db) (x : CompanyEffect) : Type 0 where
    pub row_eq : x.row ≡ ticket_effect sha256 run_id call request now
    pub newly : x.newly_applied ≡ true
    pub valid : is_valid_effect sha256 x.row ≡ true
    pub fresh : find_effect (ticket_key run_id call) db.effects ≡ none
    pub after : db' ≡ record db {
      tickets = set_ticket run_id request now x.row.effect_id db.tickets;
      effects = x.row ∷ db.effects;
    }

  pub ticket_effect-key :
      (run_id : String) (call : MutationCall) (request : TicketRequest) (now : ℕ)
      → key_of (ticket_effect sha256 run_id call request now) ≡ ticket_key run_id call
  unfolding ticket_effect
  ticket_effect-key run_id call request now = refl

  pub create_ticket_update-Updated :
      (run_id : String) (call : MutationCall) (request : TicketRequest) (now : ℕ) (db db' : Db)
      (x : CompanyEffect)
      → create_ticket_update sha256 run_id call request now db ≡ ok (x, db')
      → Updated run_id call request now db db' x
  unfolding create_ticket_update
  create_ticket_update-Updated run_id call request now db db' x h =
      let e = ticket_effect sha256 run_id call request now in
      elim (Result-cases (insert_effect e db)) [
        | inr (raised, e1) ↦ absurd (ground arith)
        | inl (db1, e1) ↦ elim (Result-cases (company_effect_record sha256 e true)) [
          | inr (raised, e3) ↦ absurd (ground arith)
          | inl (applied, e3) ↦
              let ledger = insert_effect-eq-ok e db db1 e1 in
              let checked = company_effect_record-eq-ok e true applied e3 in
              let done : (x ≡ applied)
                  × (db' ≡ record db1 {
                    tickets = set_ticket run_id request now e.effect_id db1.tickets;
                  }) =
                ground arith in
              record {
                row_eq = ground (arith, done, checked);
                newly = ground (arith, done, checked);
                valid = ground (arith, done, checked);
                fresh = ledger.0;
                after = rw (done.1, done.0, checked.1, ledger.1);
              }
        ]
      ]

  -- A refund that returns was made now, or was made before under the same key.
  pub apply_refund_effect-cases :
      (run_id : String) (call : MutationCall) (request : RefundRequest) (now : ℕ) (db db' : Db)
      (x : CompanyEffect)
      → apply_refund_effect sha256 run_id call request now db ≡ ok (x, db')
      → Refunded run_id call request now db db' x
        ⊎ ((e : Effect) × (find_effect (refund_key run_id call) db.effects ≡ some e)
            × Replayed e call db db' x)
  unfolding apply_refund_effect
  apply_refund_effect-cases run_id call request now db db' x h =
      elim (Option-cases (find_effect (refund_key run_id call) db.effects)) [
        | inl new ↦ inl (create_refund-Refunded run_id call request now db db' x (ground arith))
        | inr (e, old) ↦ inr (e, old, replay_effect-Replayed e call db db' x (ground arith))
      ]

  pub apply_support_ticket_effect-cases :
      (run_id : String) (call : MutationCall) (request : TicketRequest) (now : ℕ) (db db' : Db)
      (x : CompanyEffect)
      → apply_support_ticket_effect sha256 run_id call request now db ≡ ok (x, db')
      → Updated run_id call request now db db' x
        ⊎ ((e : Effect) × (find_effect (ticket_key run_id call) db.effects ≡ some e)
            × Replayed e call db db' x)
  unfolding apply_support_ticket_effect
  apply_support_ticket_effect-cases run_id call request now db db' x h =
      elim (Option-cases (find_effect (ticket_key run_id call) db.effects)) [
        | inl new ↦
            inl (create_ticket_update-Updated run_id call request now db db' x (ground arith))
        | inr (e, old) ↦ inr (e, old, replay_effect-Replayed e call db db' x (ground arith))
      ]
