-- ===== src/Approvals/Tests.antt =====
-- An approval that is requested, requested again, and resolved.
use chaosagent.Base.{
  ◌≡◌, ◌≢◌, ◌↔◌, refl, pos, String, true, some, none, List, [], ◌∷◌, ok, nat_eq, string_eq,
}
use chaosagent.Store.Identifiers.{is_identifier, matches_identifier}
use chaosagent.Store.Texts.{is_digest}
use chaosagent.Json.{text, integer, Members, end, member, get}
use chaosagent.Json.Same.{same_value, same_members}
use chaosagent.Checkpoints.{digest_payload, normalize_payload, value_fits_jsonb, members_fit_jsonb}
use chaosagent.Events.{has_nul}
use chaosagent.Faults.Sample.{digest, constant_hash}
use chaosagent.Faults.History.{Producer, AttemptPayload}
use chaosagent.Evaluators.{
  RevisionRef, require_approval, approved, denied, requested, decided, EvidenceEvent, Contracts,
}
use chaosagent.Evaluators.Approvals.{approval_identity}
use chaosagent.Approvals.{
  ApprovalRow, ResolutionRow, ApprovalStore, frozen_run, find_scenario, find_policy, find_event,
  find_request, find_resolution, last_sequence, append_evidence,
}
use chaosagent.Approvals.Integrity.{
  asks_for_approval, is_tool_request, is_request_evidence, is_resolution_evidence, scenario_policy,
  require_policy, require_provenance, require_identity, require_bindings,
  validate_approval_integrity, record_of, approval_record,
}
use chaosagent.Approvals.Calls.{
  ApprovalCall, is_well_formed_call, is_taken, request_constraints, request_event, approval_matches,
  request_of,
}
use chaosagent.Approvals.Requests.{
  check_authority, check_digests, checked_row, insert_request, replay_request,
  create_approval_request, get_approval_request, get_approval_request_for_authorization,
  is_event_taken, human_resolution, resolution_event, resolve_approval_request,
}
use chaosagent.Approvals.Once.{done, retried, IsExact, create_once, resolved_once, resolved_final}

abbrev contracts : Contracts
contracts = record {
  hashing = constant_hash;
  is_run_event = λ e. true;
  is_evaluation_result = λ r. true;
  dumps_input = λ d. some "input";
  dumps_binding = λ b. "binding";
}

abbrev ref : String → RevisionRef
ref id = record { id = id; revision = "1"; digest = digest }

abbrev producer : Producer
producer = record { component = "tool-gateway"; instance_id = none }

abbrev attempt : AttemptPayload
attempt = record {
  logical_call_id = "call";
  attempt_id = "attempt";
  attempt_number = 1;
  tool_id = "payments.refund";
}

abbrev events : List EvidenceEvent
events =
    record {
      event_id = "decision";
      run_id = "run";
      sequence = 2;
      causation_event_id = some "request";
      correlation_id = some "call";
      producer = producer;
      payload = decided (record {
        decision_id = "decided";
        policy = ref "policy";
        decision = require_approval;
        logical_call_id = some "call";
      });
    }
    ∷ record {
      event_id = "request";
      run_id = "run";
      sequence = 1;
      causation_event_id = none;
      correlation_id = some "call";
      producer = producer;
      payload = requested attempt digest (some digest);
    }
    ∷ []

abbrev arguments : Members
arguments = member "order_id" (text "order-1") (
    member "payment_id" (text "payment-1")
      (member "amount_minor" (integer (pos 500)) (member "idempotency_key" (text "key") end)))

abbrev call : ApprovalCall
call = record {
  run_id = "run";
  scenario = ref "scenario";
  policy = ref "policy";
  tool_id = "payments.refund";
  contract_version = "chaosagent.tool/payments.refund/v0";
  request_digest = digest;
  idempotency_key_digest = digest;
  arguments = arguments;
  logical_call_id = "call";
  requested_attempt_id = "attempt";
  lease_attempt = 1;
  decision_id = "decided";
  decision_event_id = "decision";
  request_event_id = "asked";
  producer = producer;
}

abbrev store : ApprovalStore
store = record {
  runs = record { run_id = "run"; is_running = true; attempt = 1; scenario = ref "scenario" } ∷ [];
  scenarios = (ref "scenario", ref "policy") ∷ [];
  policies = ref "policy" ∷ [];
  events = events;
  requests = [];
  resolutions = [];
}

abbrev id : String
id = "approval-0000000000000000000000000000000000000000000000000000000000000000"

abbrev row : ApprovalRow
row = record {
  approval_id = id;
  run_id = "run";
  scenario = ref "scenario";
  policy = ref "policy";
  tool_id = "payments.refund";
  contract_version = "chaosagent.tool/payments.refund/v0";
  request_digest = digest;
  idempotency_key_digest = digest;
  arguments = arguments;
  logical_call_id = "call";
  requested_attempt_id = "attempt";
  lease_attempt = 1;
  decision_id = "decided";
  decision_event_id = "decision";
  request_event_id = "asked";
}

abbrev asked_store : ApprovalStore
asked_store = record store { requests = row ∷ []; events = request_event row producer 3 ∷ events }

creates :
    create_approval_request contracts call store
    ≡ ok (record (record_of row none) { newly_created = true }, asked_store)
unfolding create_approval_request checked_row is_well_formed_call is_identifier matches_identifier
    is_digest members_fit_jsonb value_fits_jsonb has_nul check_authority frozen_run scenario_policy
    find_scenario require_policy find_policy check_digests digest_payload normalize_payload get
    require_provenance find_event asks_for_approval is_tool_request approval_identity find_request
    insert_request request_constraints is_taken append_evidence last_sequence approval_record
    find_resolution validate_approval_integrity require_identity require_bindings
    is_request_evidence
creates = refl

-- the same action, asked for under another event
abbrev fresh_call : ApprovalCall
fresh_call = record call { request_event_id = "asked-again"; producer = producer }

replays :
    create_approval_request contracts (retried contracts call fresh_call) asked_store
    ≡ ok (record_of row none, asked_store)
unfolding create_approval_request checked_row is_well_formed_call is_identifier matches_identifier
    is_digest members_fit_jsonb value_fits_jsonb has_nul check_authority frozen_run scenario_policy
    find_scenario require_policy find_policy check_digests digest_payload normalize_payload get
    require_provenance find_event asks_for_approval is_tool_request approval_identity find_request
    replay_request approval_matches same_value same_members approval_record find_resolution
    validate_approval_integrity require_identity require_bindings is_request_evidence
replays = refl

abbrev resolution_row : ResolutionRow
resolution_row = human_resolution contracts row approved "alice" "answered"

abbrev resolved_store : ApprovalStore
resolved_store = record asked_store {
  resolutions = resolution_row ∷ [];
  events = resolution_event contracts row resolution_row producer 4 ∷ asked_store.events;
}

resolves :
    resolve_approval_request contracts id approved "alice" "answered" producer asked_store
    ≡ ok (record_of row (some resolution_row), resolved_store)
unfolding resolve_approval_request is_identifier matches_identifier find_request find_resolution
    is_event_taken append_evidence last_sequence frozen_run find_event approval_record
    validate_approval_integrity require_identity digest_payload normalize_payload get
    approval_identity require_bindings scenario_policy find_scenario require_policy find_policy
    asks_for_approval is_tool_request is_request_evidence is_resolution_evidence
resolves = refl

gets :
    get_approval_request contracts id resolved_store
    ≡ ok (some (record_of row (some resolution_row)))
unfolding get_approval_request find_request find_resolution frozen_run find_event approval_record
    validate_approval_integrity require_identity digest_payload normalize_payload get
    approval_identity require_bindings scenario_policy find_scenario require_policy find_policy
    asks_for_approval is_tool_request is_request_evidence is_resolution_evidence
gets = refl

create_once_example : (asked_store ≡ asked_store) × (row ≡ row)
create_once_example =
    create_once contracts call fresh_call store asked_store asked_store asked_store
      (record (record_of row none) { newly_created = true }) (record_of row none) creates done
      replays

resolved_once_example :
    resolve_approval_request contracts id denied "bob" "again" producer resolved_store
    ≢ ok (record_of row none, asked_store)
resolved_once_example =
    resolved_once contracts id approved "alice" "answered" producer asked_store resolved_store
      resolved_store (record_of row (some resolution_row)) resolves done denied "bob" "again"
      producer (record_of row none) asked_store

resolved_final_example :
    ((record_of row (some resolution_row)).status ≡ approved)
    × ((record_of row (some resolution_row)).actor_id ≡ some "alice")
    × (find_request id asked_store.requests ≡ some row)
    × ((get_approval_request_for_authorization contracts id (request_of row) resolved_store
          ≡ ok (some (record_of row (some resolution_row))))
        ↔ IsExact row (request_of row))
resolved_final_example =
    resolved_final contracts id approved "alice" "answered" producer asked_store resolved_store
      resolved_store (record_of row (some resolution_row)) (record_of row (some resolution_row))
      (request_of row) resolves done gets
