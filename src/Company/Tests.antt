-- ===== src/Company/Tests.antt =====
-- The theorems on the synthetic company at a payment that is refunded in two parts.
use chaosagent.Base.{
  ◌+◌, ◌≡◌, refl, String, true, none, some, [], ◌∷◌, arith, ok, err, nat_eq, string_eq,
}
use chaosagent.Lifecycle.{running}
use chaosagent.Store.Tables.{
  Db, Run, Payment, Effect, captured, partially_refunded, refund_created, idempotency_conflict,
}
use chaosagent.Store.Identifiers.{is_identifier, matches_identifier}
use chaosagent.Store.Rows.{find_run}
use chaosagent.Store.Texts.{is_digest, is_currency}
use chaosagent.Company.{
  MutationCall, RefundRequest, has_key, find_effect, effect_id_exists, is_payment, find_payment,
  set_payment_status, refund_exists, counts, refunded_total, effect_constraints, insert_effect,
  insert_refund,
}
use chaosagent.Company.Mutations.{
  lock_company_mutation_run, effect_identity, refund_identity, is_valid_effect,
  company_effect_record, replay_effect, refund_effect, create_refund, apply_refund_effect,
  refund_row,
}
use chaosagent.Company.Steps.{Reach, start, more, refund_step}
use chaosagent.Company.Conservation.{Conserved, refunds-Conserved, refund_pays_once}
use chaosagent.Company.Replay.{refund_applied_once}

abbrev digest_a : String
digest_a = "sha256:aaaaaaaaaaaaaaaaaaaaaaaaaaaaaaaaaaaaaaaaaaaaaaaaaaaaaaaaaaaaaaaa"

abbrev digest_b : String
digest_b = "sha256:bbbbbbbbbbbbbbbbbbbbbbbbbbbbbbbbbbbbbbbbbbbbbbbbbbbbbbbbbbbbbbbb"

abbrev run1 : Run
run1 = record {
  run_id = "run-1";
  status = running;
  lifecycle_version = 2;
  lease_owner = some "w-1";
  lease_token = some "lease-a";
  lease_expires_at = some 30000100;
  heartbeat_at = some 100;
  attempt = 1;
  created_at = 5;
  fault_seed = none;
}

abbrev payment1 : Payment
payment1 = record {
  run_id = "run-1";
  payment_id = "PAY-1";
  order_id = "ORD-1";
  status = captured;
  currency = "USD";
  amount_minor = 100;
}

abbrev paid : Db
paid = record {
  runs = run1 ∷ [];
  events = [];
  payments = payment1 ∷ [];
  refunds = [];
  tickets = [];
  effects = [];
}

abbrev call1 : MutationCall
call1 = record {
  contract_version = "chaosagent.tool/payments.refund/v0";
  idempotency_key_digest = digest_a;
  request_digest = digest_b;
  logical_call_id = "call-1";
  attempt_id = "attempt-1";
  lease_attempt = 1;
}

abbrev request1 : RefundRequest
request1 = record { order_id = "ORD-1"; payment_id = "PAY-1"; amount_minor = 40; reason = "late" }

abbrev effect1 : Effect
effect1 = record {
  run_id = "run-1";
  tool_id = "payments.refund";
  contract_version = "chaosagent.tool/payments.refund/v0";
  idempotency_key_digest = digest_a;
  request_digest = digest_b;
  effect_id = "effect-x";
  subject_id = "RFD-x";
  result = refund_created "RFD-x" "ORD-1" "PAY-1" 40 "USD";
  logical_call_id = "call-1";
  first_attempt_id = "attempt-1";
  lease_attempt = 1;
  created_at = 9;
}

abbrev sha256_x : String → String
sha256_x s = "x"

abbrev refunded_db : Db
refunded_db = record paid {
  payments = record payment1 { status = partially_refunded } ∷ [];
  refunds = refund_row "run-1" request1 effect1 ∷ [];
  effects = effect1 ∷ [];
}

refund_run1 :
    apply_refund_effect sha256_x "run-1" call1 request1 9 paid
    ≡ ok (record { row = effect1; newly_applied = true }, refunded_db)
unfolding is_identifier matches_identifier find_run is_digest is_currency has_key find_effect
    effect_id_exists is_payment find_payment set_payment_status refund_exists counts refunded_total
    effect_constraints insert_effect insert_refund lock_company_mutation_run effect_identity
    refund_identity is_valid_effect company_effect_record replay_effect refund_effect create_refund
    apply_refund_effect
refund_run1 = refl

steps1 : Reach sha256_x paid refunded_db
steps1 = more start (
    refund_step "run-1" call1 request1 9 (record { row = effect1; newly_applied = true })
      refund_run1)

Conserved-paid : Conserved paid
unfolding find_payment refunded_total
Conserved-paid run_id payment_id p found = ground arith

refunds-Conserved_example : Conserved refunded_db
refunds-Conserved_example = refunds-Conserved sha256_x steps1 Conserved-paid

refund_pays_once_example :
    refunded_total "run-1" "PAY-1" refunded_db.refunds
    ≡ 40 + refunded_total "run-1" "PAY-1" paid.refunds
refund_pays_once_example =
    refund_pays_once sha256_x "run-1" call1 request1 9 paid refunded_db
      (record { row = effect1; newly_applied = true }) refund_run1 "run-1" "PAY-1"

locked1 : lock_company_mutation_run "run-1" refunded_db ≡ ok tt
unfolding lock_company_mutation_run is_identifier matches_identifier find_run
locked1 = refl

-- another request under the same key is refused
refund_applied_once_example :
    apply_refund_effect sha256_x "run-1"
      (record call1 { request_digest = digest_a })
      (record request1 { amount_minor = 50 })
      12
      refunded_db
    ≡ err idempotency_conflict
refund_applied_once_example =
    refund_applied_once sha256_x "run-1" call1 request1 9 paid refunded_db refunded_db
      (record { row = effect1; newly_applied = true }) refund_run1 start
      (record call1 { request_digest = digest_a }) (record request1 { amount_minor = 50 }) 12 refl
      locked1 (omega arith) (omega arith)
