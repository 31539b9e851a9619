-- ===== src/Company/Mutations.antt =====
-- `apply_refund_effect` and `apply_support_ticket_effect` of
-- packages/persistence/src/chaosagent_persistence/repository.py, with the validator of stored effects.
-- `now` is the database time at which the mutation is applied.
use chaosagent.Base.{
  ℕ, ◌+◌, String, Bool, true, false, not, ◌&&◌, none, some, [], ◌∷◌, ltb, leb, length, ◌==◌, nat_eq,
  string_eq, contains, Result, ok, ◌>>=◌, ◌>>◌, require, or_raise, if◌then◌else◌,
}
use chaosagent.Store.Tables.{
  Error, value_error, reference_not_found, persistence_integrity, idempotency_conflict,
  business_rule_violation, PaymentStatus, partially_refunded, refunded, succeeded, Payment, Refund,
  EffectResult, refund_created, ticket_updated, Effect, Db,
}
use chaosagent.Store.Identifiers.{codes, is_identifier}
use chaosagent.Store.Rows.{find_run}
use chaosagent.Store.Texts.{concat, join, removeprefix, is_digest, is_currency}
use chaosagent.Events.{max_safe_integer}
use chaosagent.Company.{
  CompanyEffect, EffectKey, MutationCall, RefundRequest, TicketRequest, find_effect, find_payment,
  set_payment_status, refunded_total, ticket_exists, set_ticket, is_refundable, ticket_statuses,
  refund_contract, ticket_contract, key_of, insert_effect, insert_refund,
}

unfoldable pub lock_company_mutation_run : String → Db → Result Error (Unit {0})
lock_company_mutation_run run_id db = do
  require (is_identifier run_id) value_error
  locked ← or_raise (find_run run_id db.runs) reference_not_found
  ok tt

abbrev pub refund_key : String → MutationCall → EffectKey
refund_key run_id call = record {
  run_id = run_id;
  tool_id = "payments.refund";
  contract_version = call.contract_version;
  idempotency_key_digest = call.idempotency_key_digest;
}

abbrev pub ticket_key : String → MutationCall → EffectKey
ticket_key run_id call = record {
  run_id = run_id;
  tool_id = "support.update_ticket";
  contract_version = call.contract_version;
  idempotency_key_digest = call.idempotency_key_digest;
}

unfoldable pub refund_identity : String → String
refund_identity effect_id = concat "RFD-" (removeprefix effect_id "effect-")

abbrev pub is_valid_result : Effect → EffectResult → Bool
unfolding refund_identity
is_valid_result e (refund_created refund_id order_id payment_id amount_minor currency) =
    (e.tool_id == "payments.refund" && e.contract_version == refund_contract)
    && ((refund_id == e.subject_id && e.subject_id == refund_identity e.effect_id)
        && ((leb 1 amount_minor && leb amount_minor max_safe_integer) && is_currency currency))
is_valid_result e (ticket_updated ticket_id status note updated_at) =
    (e.tool_id == "support.update_ticket" && e.contract_version == ticket_contract)
    && ((ticket_id == e.subject_id && contains status ticket_statuses)
        && (leb 1 (length (codes note)) && leb (length (codes note)) 4000))

abbrev pub refund_row : String → RefundRequest → Effect → Refund
refund_row run_id request e = record {
  run_id = run_id;
  refund_id = e.subject_id;
  payment_id = request.payment_id;
  order_id = request.order_id;
  status = succeeded;
  amount_minor = request.amount_minor;
  reason = request.reason;
  created_at = e.created_at;
  effect_id = some e.effect_id;
}

-- the payment's new status
abbrev pub settled : ℕ → Payment → PaymentStatus
settled total_after payment =
    if total_after == payment.amount_minor then refunded else partially_refunded

module _ (sha256 : String → String) where
  unfoldable pub effect_identity : EffectKey → String
  effect_identity key =
      let parts =
        key.run_id ∷ key.tool_id ∷ key.contract_version ∷ key.idempotency_key_digest ∷ [] in
      concat "effect-" (sha256 (join "\u{1f}" parts))

  -- `_validate_company_effect_model`
  unfoldable pub is_valid_effect : Effect → Bool
  unfolding effect_identity
  is_valid_effect e =
      ((is_digest e.idempotency_key_digest && is_digest e.request_digest)
        && (e.effect_id == effect_identity (key_of e) && leb 1 e.lease_attempt))
      && is_valid_result e e.result

  unfoldable pub company_effect_record : Effect → Bool → Result Error CompanyEffect
  company_effect_record e newly_applied = do
    require (is_valid_effect e) persistence_integrity
    ok (record { row = e; newly_applied = newly_applied })

  -- `get_company_effect`, and the branch of both mutations for a key that is taken: a repeated
  -- request gets the stored effect, any other request is refused
  unfoldable pub replay_effect : String → Effect → Db → Result Error (CompanyEffect × Db)
  unfolding company_effect_record
  replay_effect request_digest e db = do
    existing ← company_effect_record e false
    require (e.request_digest == request_digest) idempotency_conflict
    ok (existing, db)

  unfoldable pub refund_effect : String → MutationCall → RefundRequest → String → ℕ → Effect
  unfolding effect_identity refund_identity
  refund_effect run_id call request currency now =
      let effect_id = effect_identity (refund_key run_id call) in
      record {
        run_id = run_id;
        tool_id = "payments.refund";
        contract_version = call.contract_version;
        idempotency_key_digest = call.idempotency_key_digest;
        request_digest = call.request_digest;
        effect_id = effect_id;
        subject_id = refund_identity effect_id;
        result =
            refund_created (refund_identity effect_id) request.order_id request.payment_id
              request.amount_minor currency;
        logical_call_id = call.logical_call_id;
        first_attempt_id = call.attempt_id;
        lease_attempt = call.lease_attempt;
        created_at = now;
      }

  unfoldable pub ticket_effect : String → MutationCall → TicketRequest → ℕ → Effect
  unfolding effect_identity
  ticket_effect run_id call request now = record {
    run_id = run_id;
    tool_id = "support.update_ticket";
    contract_version = call.contract_version;
    idempotency_key_digest = call.idempotency_key_digest;
    request_digest = call.request_digest;
    effect_id = effect_identity (ticket_key run_id call);
    subject_id = request.ticket_id;
    result = ticket_updated request.ticket_id request.status request.note now;
    logical_call_id = call.logical_call_id;
    first_attempt_id = call.attempt_id;
    lease_attempt = call.lease_attempt;
    created_at = now;
  }

  -- The branch of a new refund.
  unfoldable pub create_refund :
      String → MutationCall → RefundRequest → ℕ → Db → Result Error (CompanyEffect × Db)
  unfolding refund_effect company_effect_record
  create_refund run_id call request now db = do
    payment ← or_raise (find_payment run_id request.payment_id db.payments) reference_not_found
    require (payment.order_id == request.order_id) reference_not_found
    require (is_refundable payment.status) business_rule_violation
    let total_after = refunded_total run_id request.payment_id db.refunds + request.amount_minor
    require (not (ltb payment.amount_minor total_after)) business_rule_violation
    let e = refund_effect run_id call request payment.currency now
    db1 ← insert_effect e db
    db2 ← insert_refund (refund_row run_id request e) db1
    applied ← company_effect_record e true
    let status = settled total_after payment
    ok (
      applied,
      record db2 { payments = set_payment_status run_id request.payment_id status db2.payments },
    )

  -- The branch of a new ticket state.
  unfoldable pub create_ticket_update :
      String → MutationCall → TicketRequest → ℕ → Db → Result Error (CompanyEffect × Db)
  unfolding ticket_effect company_effect_record
  create_ticket_update run_id call request now db = do
    require (ticket_exists run_id request.ticket_id db.tickets) reference_not_found
    let e = ticket_effect run_id call request now
    db1 ← insert_effect e db
    require (contains request.status ticket_statuses) persistence_integrity
    applied ← company_effect_record e true
    ok (applied, record db1 { tickets = set_ticket run_id request now e.effect_id db1.tickets })

  unfoldable pub apply_refund_effect :
      String → MutationCall → RefundRequest → ℕ → Db → Result Error (CompanyEffect × Db)
  apply_refund_effect run_id call request now db = do
    locked ← lock_company_mutation_run run_id db
    let positive = leb 1 request.amount_minor
    require (positive && leb request.amount_minor max_safe_integer) value_error
    elim (find_effect (refund_key run_id call) db.effects) [
      | none ↦ create_refund run_id call request now db
      | some e ↦ replay_effect call.request_digest e db
    ]

  unfoldable pub apply_support_ticket_effect :
      String → MutationCall → TicketRequest → ℕ → Db → Result Error (CompanyEffect × Db)
  apply_support_ticket_effect run_id call request now db = do
    locked ← lock_company_mutation_run run_id db
    elim (find_effect (ticket_key run_id call) db.effects) [
      | none ↦ create_ticket_update run_id call request now db
      | some e ↦ replay_effect call.request_digest e db
    ]
