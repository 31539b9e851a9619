-- ===== src/Faults/History/Tests.antt =====
-- The theorem on fault histories at a request that was answered late.
use chaosagent.Base.{
  ℕ, ◌≤◌, ◌≡◌, refl, inl, String, Option, none, some, List, [], ◌∷◌, ok, nat_eq, string_eq,
}
use chaosagent.Json.{end}
use chaosagent.Store.Identifiers.{is_identifier, matches_identifier}
use chaosagent.Store.Texts.{concat, is_digest, text_lt}
use chaosagent.Faults.{is_catalog_id, is_revision}
use chaosagent.Faults.Sample.{constant_hash, zeros, digest, busy, plan}
use chaosagent.Faults.Rules.{
  insert_id, sorted_ids, is_well_formed, digest_canonical, digest_compiled_rule,
  digest_compiled_plan, validate_compiled_rule, validate_rules, validate_plan,
}
use chaosagent.Faults.Matching.{
  selection_material, selection_bucket, activation_identity, expected_activation_id,
}
use chaosagent.Faults.Application.{rule_of}
use chaosagent.Faults.Engine.{count_matches, authenticates_activation}
use chaosagent.Faults.History.{
  FaultPayload, AttemptPayload, Payload, fault_matched, fault_applied, fault_observed,
  tool_requested, tool_result, Document, Scope, Engine, AuthenticatedFaultHistory, lookup, filtered,
  by_id, match_of, latest, bump, note,
}
use chaosagent.Faults.History.Passes.{
  require_arguments, authentic_request, match_entry, match_documents, is_chain, observation_of,
  apply_entry, apply_documents, authenticate_fault_history,
}
use chaosagent.Faults.History.Counts.{applications}
use chaosagent.Faults.History.Caps.{authenticate_fault_history-counts}

abbrev event : ℕ → String → Option String → Payload → Document
event n id cause payload = record {
  event_id = id;
  run_id = "run-1";
  sequence = n;
  causation_event_id = cause;
  correlation_id = some "call-1";
  producer = record { component = "gateway"; instance_id = none };
  payload = payload;
}

abbrev attempt : AttemptPayload
attempt = record {
  logical_call_id = "call-1";
  attempt_id = "attempt-1";
  attempt_number = 1;
  tool_id = "orders.get";
}

abbrev evidence : List String → FaultPayload
evidence ids = record {
  fault_id = "busy";
  activation_id = concat "activation-" zeros;
  related_event_ids = ids;
}

abbrev documents : List Document
documents =
    event 1 "request" none (tool_requested attempt digest)
    ∷ event 2 "match" (some "request") (fault_matched (evidence ("request" ∷ [])))
    ∷ event 3 "application" (some "match") (fault_applied (evidence ("request" ∷ "match" ∷ [])))
    ∷ event 4 "result" (some "application") (tool_result attempt "request")
    ∷ event 5 "observation" (some "result")
        (fault_observed (evidence ("request" ∷ "application" ∷ "result" ∷ [])))
    ∷ []

abbrev engine : Engine
engine = record { plan = plan; run_seed = 7 }

abbrev scope : Scope
scope = record {
  run_id = "run-1";
  scenario_digest = digest;
  producer_component = some "gateway";
  request_arguments = some (("request", end) ∷ []);
  request_ordinals = some (("request", 1) ∷ []);
  ignore_request_event_id = none;
}

abbrev history : AuthenticatedFaultHistory
history = record {
  counts = ("busy", 1) ∷ ("lost", 0) ∷ ("slow", 0) ∷ [];
  observed_event_ids = ("busy", "observation" ∷ []) ∷ ("lost", []) ∷ ("slow", []) ∷ [];
}

authenticates : authenticate_fault_history constant_hash documents engine scope ≡ ok history
unfolding authenticate_fault_history validate_plan validate_rules validate_compiled_rule
    digest_compiled_rule digest_compiled_plan digest_canonical is_well_formed insert_id sorted_ids
    text_lt is_digest is_catalog_id is_revision is_identifier matches_identifier selection_material
    selection_bucket activation_identity expected_activation_id count_matches
    authenticates_activation rule_of lookup filtered by_id match_of latest bump note
    require_arguments authentic_request match_entry match_documents is_chain observation_of
    apply_entry apply_documents
authenticates = refl

authenticate_fault_history-counts_example :
    (lookup "busy" history.counts ≡ some (applications "busy" (filtered none documents)))
    × (applications "busy" (filtered none documents) ≤ 2)
authenticate_fault_history-counts_example =
    authenticate_fault_history-counts constant_hash documents engine scope history busy
      authenticates (inl refl)
