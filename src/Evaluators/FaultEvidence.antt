-- ===== src/Evaluators/FaultEvidence.antt =====
-- The evidence of the faults (`_validate_fault_evidence`) in
-- packages/evaluators/src/chaosagent_evaluators/engine.py, by the history of Faults.History.
use chaosagent.Base.{
  ℕ, String, Bool, true, false, not, ◌&&◌, Option, none, some, List, [], ◌∷◌, map, leb, nat_eq,
  string_eq, ok, err, ◌>>=◌, if◌then◌else◌,
}
use chaosagent.Faults.Rules.{compile_fault_plan, Scenario}
use chaosagent.Faults.History
use chaosagent.Faults.History.{is_unique, is_some}
use chaosagent.Faults.History.Passes.{authenticate_fault_history}
use chaosagent.Events.{max_safe_integer}
use chaosagent.Evaluators.{
  EvidencePayload, requested, resulted, resolved_approval, evidenced, matched, applied, observed,
  not_matched, EvidenceEvent, RequestDetail, ScenarioDocument, EvaluationInput, EventRef,
  IntegrityError, no_run_seed, arguments_unavailable, history_inconsistent, Contracts,
}
use chaosagent.Evaluators.Lookups.{collect, any_of, event_of}
use chaosagent.Evaluators.Chains.{is_nonempty}
use chaosagent.Evaluators.Ledger.{ref_of_event}

-- the payload that Faults.History reads
abbrev pub history_payload : EvidencePayload → History.Payload
history_payload (matched p) = History.Payload.fault_matched p
history_payload (applied p) = History.Payload.fault_applied p
history_payload (observed p) = History.Payload.fault_observed p
history_payload (requested p digest key) = History.Payload.tool_requested p digest
history_payload (resulted p request_event_id) = History.Payload.tool_result p request_event_id
history_payload (evidenced p) = History.Payload.other p.related_event_ids none
history_payload (resolved_approval p) = History.Payload.other [] (some p.request_event_id)
history_payload _ = History.Payload.other [] none

abbrev pub history_document : EvidenceEvent → History.Document
history_document e = record {
  event_id = e.event_id;
  run_id = e.run_id;
  sequence = e.sequence;
  causation_event_id = e.causation_event_id;
  correlation_id = e.correlation_id;
  producer = e.producer;
  payload = history_payload e.payload;
}

abbrev pub is_fault_event : EvidencePayload → Bool
is_fault_event (matched p) = true
is_fault_event (applied p) = true
is_fault_event (observed p) = true
is_fault_event not_matched = true
is_fault_event _ = false

abbrev pub fault_scenario : ScenarioDocument → Scenario
fault_scenario s = record {
  scenario_id = s.scenario_id;
  revision = s.revision;
  digest = s.digest;
  faults = s.faults;
}

-- `{…}` over the requests with the last one of an identity first
unfoldable pub request_entries {ℓ} :
    {A : Type ℓ} → (RequestDetail → A) → List RequestDetail → List (String × A) → List (String × A)
request_entries f [] earlier = earlier
request_entries f (d ∷ ds) earlier = request_entries f ds ((d.request_event_id, f d) ∷ earlier)

abbrev pub FaultRefs : Type 0
FaultRefs = List (String × List EventRef)

abbrev pub refs_of : List EvidenceEvent → List String → List EventRef
refs_of events ids =
    collect (λ id. elim (event_of id events) [ none ↦ none | some e ↦ some (ref_of_event e) ]) ids

-- the history of the faults, authenticated under the plan of the Scenario and the seed of the Run
unfoldable pub fault_history :
    Contracts → EvaluationInput → ℕ → List RequestDetail → List IntegrityError × FaultRefs
fault_history contracts v seed details =
    let plan = compile_fault_plan contracts.hashing (fault_scenario v.scenario) none in
    elim (plan >>= (λ compiled.
      authenticate_fault_history contracts.hashing (map history_document v.events)
        (record { plan = compiled; run_seed = seed })
        (record {
          run_id = v.run_id;
          scenario_digest = v.scenario.digest;
          producer_component = some "tool-gateway";
          request_arguments = some (request_entries (λ d. d.arguments) details []);
          request_ordinals = some (request_entries (λ d. d.call_ordinal) details []);
          ignore_request_event_id = none;
        }))) [
          | err e ↦ (history_inconsistent ∷ [], [])
          | ok history ↦
              ([], map (λ entry. (entry.0, refs_of v.events entry.1)) history.observed_event_ids)
        ]

abbrev pub seeded_history :
    Contracts
    → EvaluationInput
    → Option ℕ
    → Option (List RequestDetail)
    → List IntegrityError × FaultRefs
seeded_history contracts v none details = (no_run_seed ∷ [], [])
seeded_history contracts v (some seed) none = (arguments_unavailable ∷ [], [])
seeded_history contracts v (some seed) (some details) =
    if leb seed max_safe_integer
    then fault_history contracts v seed details
    else (history_inconsistent ∷ [], [])

-- `_validate_fault_evidence`
unfoldable pub validate_fault_evidence :
    Contracts → EvaluationInput → List IntegrityError × FaultRefs
validate_fault_evidence contracts v =
    if not (is_nonempty v.scenario.faults) && not (any_of (λ e. is_fault_event e.payload) v.events)
    then ([], [])
    else seeded_history contracts v v.run_seed v.execution.tool_requests
