-- ===== src/Approvals/Integrity.antt =====
-- What an approval is checked against whenever it is loaded (`_validate_approval_integrity`,
-- `_approval_record`), and a decision before its approval is created (`_require_policy_decision_provenance`), in
-- packages/persistence/src/chaosagent_persistence/repository.py. A failed check raises PersistenceIntegrityError.
use chaosagent.Base.{
  String, Bool, true, false, ◌&&◌, Option, none, some, ltb, leb, ◌==◌, nat_eq, string_eq,
  is_some_of, Result, ok, ◌>>=◌, ◌>>◌, require, or_raise,
}
use chaosagent.Json.{text, object, Members, end, member}
use chaosagent.Evaluators.{
  RevisionRef, DecisionKind, require_approval, ApprovalStatus, pending, requested, decided,
  asked_approval, resolved_approval, EvidenceEvent, Contracts,
}
use chaosagent.Evaluators.Lookups.{same_ref, same_status}
use chaosagent.Evaluators.Approvals.{approval_identity}
use chaosagent.Approvals.{
  ApprovalError, reference_not_found, persistence_integrity, evidence_validation, ApprovalRow,
  ResolutionRow, ApprovalStore, ApprovalRecord, frozen_run, find_scenario, find_policy, find_event,
  find_resolution, digest_of_object, digest_of_text, text_member,
}

abbrev pub request_document : String → String → Members → Members
request_document tool_id contract_version arguments =
    member "tool_id" (text tool_id) (
      member "contract_version" (text contract_version) (member "arguments" (object arguments) end))

abbrev pub is_require_approval : DecisionKind → Bool
is_require_approval require_approval = true
is_require_approval _ = false

-- the decision of the policy that asks for an approval
unfoldable pub asks_for_approval :
    (run_id logical_call_id decision_id : String) → RevisionRef → EvidenceEvent → Bool
asks_for_approval run_id logical_call_id decision_id policy e = elim e.payload [
  | decided p ↦
      ((e.run_id == run_id && is_require_approval p.decision)
        && (p.decision_id == decision_id && is_some_of p.logical_call_id logical_call_id))
      && (is_some_of e.correlation_id logical_call_id && same_ref p.policy policy)
  | _ ↦ false
]

-- the tool request that the decision is about
unfoldable pub is_tool_request :
    (run_id logical_call_id attempt_id tool_id arguments_digest key_digest : String)
    → EvidenceEvent
    → EvidenceEvent
    → Bool
is_tool_request run_id logical_call_id attempt_id tool_id arguments_digest key_digest decision e =
    elim e.payload [
      | requested p digest key ↦
          ((e.run_id == run_id && p.logical_call_id == logical_call_id)
            && (p.attempt_id == attempt_id && p.tool_id == tool_id))
          && ((digest == arguments_digest && is_some_of key key_digest)
              && (is_some_of e.correlation_id logical_call_id && ltb e.sequence decision.sequence))
      | _ ↦ false
    ]

-- the evidence of the approval request
unfoldable pub is_request_evidence : ApprovalRow → EvidenceEvent → EvidenceEvent → Bool
is_request_evidence row decision e = elim e.payload [
  | asked_approval p ↦
      ((e.run_id == row.run_id && is_some_of e.causation_event_id row.decision_event_id)
        && (p.approval_id == row.approval_id && p.decision_id == row.decision_id))
      && (p.action_digest == row.request_digest
          && (is_some_of e.correlation_id row.logical_call_id && ltb decision.sequence e.sequence))
  | _ ↦ false
]

abbrev pub is_result_status : ApprovalStatus → Bool
is_result_status pending = false
is_result_status _ = true

-- the evidence of its resolution
unfoldable pub is_resolution_evidence :
    ApprovalRow → ResolutionRow → EvidenceEvent → EvidenceEvent → Bool
is_resolution_evidence row resolution asked e = elim e.payload [
  | resolved_approval p ↦
      (((resolution.run_id == row.run_id && is_result_status resolution.result)
          && (e.run_id == row.run_id && is_some_of e.causation_event_id row.request_event_id))
        && ((p.approval_id == row.approval_id && p.request_event_id == row.request_event_id)
            && (same_status p.result resolution.result
                && p.responder_type == resolution.responder_type)))
      && (is_some_of e.correlation_id row.approval_id && ltb asked.sequence e.sequence)
  | _ ↦ false
]

-- the policy that a stored Scenario names, where its digest and the policy's are the stored ones
unfoldable pub scenario_policy : RevisionRef → ApprovalStore → Result ApprovalError RevisionRef
scenario_policy scenario s = do
  found ← or_raise (find_scenario scenario.id scenario.revision s.scenarios) persistence_integrity
  require (found.0.digest == scenario.digest) persistence_integrity
  ok found.1

unfoldable pub require_policy : RevisionRef → ApprovalStore → Result ApprovalError (Unit {0})
require_policy policy s = do
  found ← or_raise (find_policy policy.id policy.revision s.policies) persistence_integrity
  require (found.digest == policy.digest) persistence_integrity

-- the event that caused another one
abbrev pub cause_of : EvidenceEvent → ApprovalStore → Option EvidenceEvent
cause_of e s = elim e.causation_event_id [ none ↦ none | some id ↦ find_event id s.events ]

-- `_require_policy_decision_provenance`
unfoldable pub require_provenance :
    Contracts
    → ApprovalStore
    → (run_id : String) → RevisionRef
    → (tool_id : String) → Members
    → (logical_call_id attempt_id decision_id decision_event_id key_digest : String)
    → Result ApprovalError (Unit {0})
require_provenance contracts s run_id policy tool_id arguments logical_call_id attempt_id
      decision_id decision_event_id key_digest =
    do
      decision ← or_raise (find_event decision_event_id s.events) persistence_integrity
      require (asks_for_approval run_id logical_call_id decision_id policy decision)
          persistence_integrity
      request ← or_raise (cause_of decision s) persistence_integrity
      arguments_digest ← or_raise (digest_of_object contracts.hashing arguments) evidence_validation
      require
          (is_tool_request run_id logical_call_id attempt_id tool_id arguments_digest key_digest
            decision request)
          persistence_integrity

-- the identity and the digests of a row, recomputed; it gives the digest of the key
unfoldable pub require_identity : Contracts → ApprovalRow → Result ApprovalError String
require_identity contracts row = do
  request_digest ←
      or_raise
        (digest_of_object contracts.hashing
          (request_document row.tool_id row.contract_version row.arguments))
        persistence_integrity
  key ← or_raise (text_member "idempotency_key" row.arguments) persistence_integrity
  key_digest ← or_raise (digest_of_text contracts.hashing key) persistence_integrity
  require
      (row.approval_id
          == approval_identity contracts row.run_id row.scenario row.policy row.tool_id
              row.contract_version request_digest key_digest
        && (row.request_digest == request_digest && row.idempotency_key_digest == key_digest))
      persistence_integrity
  ok key_digest

-- the Run, the Scenario and the policy of a row
unfoldable pub require_bindings : ApprovalStore → ApprovalRow → Result ApprovalError (Unit {0})
require_bindings s row = do
  run ← or_raise (frozen_run row.run_id s.runs) reference_not_found
  require (same_ref row.scenario run.scenario) persistence_integrity
  require (leb row.lease_attempt run.attempt) persistence_integrity
  policy ← scenario_policy row.scenario s
  require (same_ref row.policy policy) persistence_integrity
  require_policy row.policy s

abbrev pub require_resolution :
    ApprovalStore
    → ApprovalRow
    → EvidenceEvent
    → Option ResolutionRow
    → Result ApprovalError (Unit {0})
require_resolution s row asked none = ok tt
require_resolution s row asked (some resolution) = do
  resolved ← or_raise (find_event resolution.resolution_event_id s.events) persistence_integrity
  require (is_resolution_evidence row resolution asked resolved) persistence_integrity

-- `_validate_approval_integrity`
unfoldable pub validate_approval_integrity :
    Contracts → ApprovalStore → ApprovalRow → Option ResolutionRow → Result ApprovalError (Unit {0})
validate_approval_integrity contracts s row resolution = do
  key_digest ← require_identity contracts row
  require_bindings s row
  decision ← or_raise (find_event row.decision_event_id s.events) persistence_integrity
  asked ← or_raise (find_event row.request_event_id s.events) persistence_integrity
  require (asks_for_approval row.run_id row.logical_call_id row.decision_id row.policy decision)
      persistence_integrity
  request ← or_raise (cause_of decision s) persistence_integrity
  arguments_digest ← or_raise (digest_of_object contracts.hashing row.arguments) evidence_validation
  require
      (is_tool_request row.run_id row.logical_call_id row.requested_attempt_id row.tool_id
        arguments_digest key_digest decision request)
      persistence_integrity
  require (is_request_evidence row decision asked) persistence_integrity
  require_resolution s row asked resolution

abbrev pub record_of : ApprovalRow → Option ResolutionRow → ApprovalRecord
record_of row none = record {
  row = row;
  status = pending;
  actor_id = none;
  resolution_event_id = none;
  newly_created = false;
}
record_of row (some r) = record {
  row = row;
  status = r.result;
  actor_id = some r.actor_id;
  resolution_event_id = some r.resolution_event_id;
  newly_created = false;
}

-- `_approval_record`
unfoldable pub approval_record :
    Contracts → ApprovalStore → ApprovalRow → Result ApprovalError ApprovalRecord
approval_record contracts s row = do
  validate_approval_integrity contracts s row (find_resolution row.approval_id s.resolutions)
  ok (record_of row (find_resolution row.approval_id s.resolutions))
