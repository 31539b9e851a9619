-- ===== src/Approvals/Requests.antt =====
-- The methods on approvals (`get_approval_request`, `get_approval_request_for_authorization`,
-- `create_approval_request`, `resolve_approval_request`) in
-- packages/persistence/src/chaosagent_persistence/repository.py.
use chaosagent.Base.{
  ℕ, String, Bool, true, false, not, ◌&&◌, ◌||◌, Option, none, some, List, [], ◌∷◌, ◌==◌, nat_eq,
  string_eq, Result, ok, err, ◌>>=◌, ◌>>◌, require, or_raise,
}
use chaosagent.Store.Identifiers.{is_identifier}
use chaosagent.Checkpoints.{members_fit_jsonb}
use chaosagent.Faults.History.{Producer}
use chaosagent.Evaluators.{ApprovalStatus, resolved_approval, EvidenceEvent, Contracts}
use chaosagent.Evaluators.Lookups.{same_ref}
use chaosagent.Evaluators.Approvals.{approval_identity}
use chaosagent.Approvals.{
  ApprovalError, value_error, reference_not_found, persistence_integrity, persistence_profile,
  evidence_validation, approval_conflict, constraint_violation, already_resolved, ApprovalRow,
  ResolutionRow, ApprovalStore, ApprovalRecord, frozen_run, find_request, find_resolution,
  digest_of_object, digest_of_text, text_member, append_evidence,
}
use chaosagent.Approvals.Integrity.{
  request_document, scenario_policy, require_policy, require_provenance, is_result_status,
  approval_record,
}
use chaosagent.Approvals.Calls.{
  ApprovalCall, is_well_formed_call, request_constraints, row_of, request_event, FrozenRequest,
  request_of, approval_matches, CallDigests,
}

module _ (contracts : Contracts) where
  -- the Run, the Scenario and the policy of a call
  unfoldable pub check_authority : ApprovalCall → ApprovalStore → Result ApprovalError (Unit {0})
  check_authority c s = do
    run ← or_raise (frozen_run c.run_id s.runs) reference_not_found
    require (same_ref run.scenario c.scenario) persistence_integrity
    require (run.is_running && c.lease_attempt == run.attempt) persistence_integrity
    policy ← scenario_policy run.scenario s
    require (same_ref c.policy policy) persistence_integrity
    require_policy policy s

  unfoldable pub check_digests : ApprovalCall → Result ApprovalError CallDigests
  check_digests c = do
    request_digest ←
        or_raise
          (digest_of_object contracts.hashing
            (request_document c.tool_id c.contract_version c.arguments))
          evidence_validation
    key ← or_raise (text_member "idempotency_key" c.arguments) value_error
    key_digest ← or_raise (digest_of_text contracts.hashing key) evidence_validation
    require (c.request_digest == request_digest && c.idempotency_key_digest == key_digest)
        persistence_integrity
    ok (record { request = request_digest; key = key_digest })

  abbrev pub row_for : ApprovalCall → CallDigests → ApprovalRow
  row_for c digests =
      row_of
        (approval_identity contracts c.run_id c.scenario c.policy c.tool_id c.contract_version
          digests.request digests.key)
        digests.request digests.key c

  -- the row that a call asks for, after all its checks
  unfoldable pub checked_row : ApprovalCall → ApprovalStore → Result ApprovalError ApprovalRow
  checked_row c s = do
    require (is_well_formed_call c) value_error
    require (members_fit_jsonb c.arguments) persistence_profile
    check_authority c s
    digests ← check_digests c
    require_provenance contracts s c.run_id c.policy c.tool_id c.arguments c.logical_call_id
        c.requested_attempt_id c.decision_id c.decision_event_id digests.key
    ok (row_for c digests)

  -- a new row, with its event
  unfoldable pub insert_request :
      ApprovalRow → Producer → ApprovalStore → Result ApprovalError (ApprovalRecord × ApprovalStore)
  insert_request row producer s = do
    require (request_constraints row s.requests) constraint_violation
    s' ←
        append_evidence contracts row.run_id (request_event row producer)
          (record s { requests = row ∷ s.requests })
    r ← approval_record contracts s' row
    ok (record r { newly_created = true }, s')

  -- the row that is there already
  unfoldable pub replay_request :
      ApprovalRow
      → ApprovalRow
      → ApprovalStore
      → Result ApprovalError (ApprovalRecord × ApprovalStore)
  replay_request stored asked s = do
    r ← approval_record contracts s stored
    require (approval_matches stored (request_of asked)) approval_conflict
    ok (r, s)

  abbrev pub insert_or_replay :
      Option ApprovalRow
      → ApprovalRow
      → Producer
      → ApprovalStore
      → Result ApprovalError (ApprovalRecord × ApprovalStore)
  insert_or_replay none row producer s = insert_request row producer s
  insert_or_replay (some stored) row producer s = replay_request stored row s

  unfoldable pub create_approval_request :
      ApprovalCall → ApprovalStore → Result ApprovalError (ApprovalRecord × ApprovalStore)
  create_approval_request c s = do
    row ← checked_row c s
    insert_or_replay (find_request row.approval_id s.requests) row c.producer s

  unfoldable pub get_approval_request :
      String → ApprovalStore → Result ApprovalError (Option ApprovalRecord)
  get_approval_request id s = elim (find_request id s.requests) [
    | none ↦ ok none
    | some row ↦ approval_record contracts s row >>= (λ r. ok (some r))
  ]

  unfoldable pub get_approval_request_for_authorization :
      String → FrozenRequest → ApprovalStore → Result ApprovalError (Option ApprovalRecord)
  get_approval_request_for_authorization id asked s = get_approval_request id s >>= (λ found.
      elim found [
        | none ↦ ok none
        | some r ↦ require (approval_matches r.row asked) persistence_integrity >> ok (some r)
      ])

  abbrev pub resolution_event : ApprovalRow → ResolutionRow → Producer → ℕ → EvidenceEvent
  resolution_event row resolution producer sequence = record {
    event_id = resolution.resolution_event_id;
    run_id = row.run_id;
    sequence = sequence;
    causation_event_id = some row.request_event_id;
    correlation_id = some row.approval_id;
    producer = producer;
    payload = resolved_approval (record {
      approval_id = row.approval_id;
      request_event_id = row.request_event_id;
      result = resolution.result;
      responder_type = resolution.responder_type;
    });
  }

  -- an approval is resolved once
  abbrev pub require_unresolved : Option ResolutionRow → Result ApprovalError (Unit {0})
  require_unresolved none = ok tt
  require_unresolved (some r) = err (already_resolved r.result)

  unfoldable pub is_event_taken : String → List ResolutionRow → Bool
  is_event_taken id [] = false
  is_event_taken id (r ∷ rs) = r.resolution_event_id == id || is_event_taken id rs

  abbrev pub human_resolution : ApprovalRow → ApprovalStatus → String → String → ResolutionRow
  human_resolution row result actor_id resolution_event_id = record {
    approval_id = row.approval_id;
    run_id = row.run_id;
    result = result;
    actor_id = actor_id;
    responder_type = "human";
    resolution_event_id = resolution_event_id;
  }

  unfoldable pub resolve_approval_request :
      String
      → ApprovalStatus
      → String
      → String
      → Producer
      → ApprovalStore
      → Result ApprovalError (ApprovalRecord × ApprovalStore)
  resolve_approval_request approval_id result actor_id resolution_event_id producer s = do
    require
        (is_identifier approval_id && (is_identifier actor_id && is_identifier resolution_event_id))
        value_error
    require (is_result_status result) value_error
    row ← or_raise (find_request approval_id s.requests) reference_not_found
    before ← approval_record contracts s row
    require_unresolved (find_resolution approval_id s.resolutions)
    require (not (is_event_taken resolution_event_id s.resolutions)) constraint_violation
    let resolution = human_resolution row result actor_id resolution_event_id
    s' ←
        append_evidence contracts row.run_id (resolution_event row resolution producer)
          (record s { resolutions = resolution ∷ s.resolutions })
    r ← approval_record contracts s' row
    ok (r, s')
