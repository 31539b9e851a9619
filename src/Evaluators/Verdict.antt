-- ===== src/Evaluators/Verdict.antt =====
-- `evaluate_critical_gates` in packages/evaluators/src/chaosagent_evaluators/engine.py, after the Scenario and
-- the ground truths have been loaded again from their bytes.
use chaosagent.Base.{
  String, Bool, true, not, ◌&&◌, ◌||◌, Option, none, some, List, [], ◌∷◌, ◌++◌, map, ltb, ◌==◌,
  nat_eq, string_eq, Result, ok, err, ◌>>=◌, if◌then◌else◌,
}
use chaosagent.Store.Texts.{concat, text_lt}
use chaosagent.Json.{all_in}
use chaosagent.Faults.History.{is_unique, is_some}
use chaosagent.Evaluators.{
  RevisionRef, Gate, fault_observed, GroundTruth, EvaluationInput, CompanyState, Authority,
  IntegrityError, state_disagrees, checkpoint_unavailable, Stop, failed, errored, EvaluationClass,
  pass, fail, invalid, detail_code, GateResult, EvaluationResult, Contracts,
}
use chaosagent.Evaluators.Lookups.{each_of, any_of, sort_by, same_ref}
use chaosagent.Evaluators.Streams.{is_event_stream}
use chaosagent.Evaluators.State.{same_relevant_state}
use chaosagent.Evaluators.Chains.{is_nonempty}
use chaosagent.Evaluators.Ledger.{validate_authority}
use chaosagent.Evaluators.Gates.{evaluate_gate}
use chaosagent.Evaluators.Results.{
  at_least_one, evaluation_id, evaluation_result, has_status, invalid_result, id_material, refusal,
}
use chaosagent.Evaluators.Bounds.{
  bounded_input, has_later_evidence, input_document, reaches_boundary,
}
use chaosagent.Evaluators.FaultEvidence.{FaultRefs, validate_fault_evidence}

abbrev pub truth_ref : GroundTruth → RevisionRef
truth_ref t = record { id = t.ground_truth_id; revision = t.revision; digest = t.digest }

abbrev pub has_ref : RevisionRef → List RevisionRef → Bool
has_ref r refs = any_of (same_ref r) refs

-- the two sets of references are equal
abbrev pub are_bound : List RevisionRef → List RevisionRef → Bool
are_bound expected actual =
    each_of (λ r. has_ref r actual) expected && each_of (λ r. has_ref r expected) actual

-- the disagreement of the state that was supplied with the replayed one
unfoldable pub state_agrees : Bool → CompanyState → CompanyState → Result Stop (List IntegrityError)
state_agrees has_later supplied replayed =
    if has_later
    then ok []
    else same_relevant_state supplied replayed
      >>= (λ same. ok (if same then [] else state_disagrees ∷ []))

abbrev pub execution_errors : EvaluationInput → List IntegrityError
execution_errors v =
    if v.execution.is_final && is_some v.execution.final_answer
    then []
    else checkpoint_unavailable ∷ []

unfoldable pub gates_of : List GroundTruth → List Gate
gates_of [] = []
gates_of (t ∷ ts) = t.critical_gates ++ gates_of ts

abbrev pub faults_of_gate : Gate → List String
faults_of_gate g = elim g.kind [ fault_observed ids ↦ ids | _ ↦ [] ]

unfoldable pub referenced_faults : List Gate → List String
referenced_faults [] = []
referenced_faults (g ∷ gs) = faults_of_gate g ++ referenced_faults gs

unfoldable pub evaluate_gates :
    EvaluationInput
    → List (String × Authority)
    → FaultRefs
    → List Gate
    → Result Stop (List GateResult)
evaluate_gates v authorities refs [] = ok []
evaluate_gates v authorities refs (g ∷ gs) = do
  result ← evaluate_gate v authorities refs g
  results ← evaluate_gates v authorities refs gs
  ok (result ∷ results)

abbrev pub inconsistent : GateResult → GateResult
inconsistent g = record g {
  status = errored;
  evidence = [];
  detail = detail_code "authoritative_input_inconsistent";
}

abbrev pub with_integrity : List IntegrityError → List GateResult → List GateResult
with_integrity [] results = results
with_integrity (e ∷ es) results = map inconsistent results

unfoldable pub classify : List IntegrityError → List GateResult → EvaluationClass
classify errors results =
    if has_status errored results || is_nonempty errors
    then invalid
    else if has_status failed results
    then fail
    else pass

abbrev pub error_code_of : EvaluationClass → Option String
error_code_of invalid = some "authoritative_input_inconsistent"
error_code_of _ = none

module _ (contracts : Contracts) where
  -- the errors of the evidence, and what the gates are evaluated from
  unfoldable pub integrity :
      EvaluationInput
      → EvaluationInput
      → Result Stop (List IntegrityError × List (String × Authority) × FaultRefs)
  integrity supplied v = do
    a ← validate_authority contracts v
    let faults = validate_fault_evidence contracts v
    disagreement ← state_agrees (has_later_evidence supplied) supplied.final_state v.final_state
    ok (a.errors ++ (faults.0 ++ (disagreement ++ execution_errors v)), a.by_effect, faults.1)

  -- the document of a verdict on the sorted gates
  unfoldable pub verdict :
      EvaluationInput → String → List IntegrityError → List GateResult → EvaluationResult
  verdict v input_digest errors results = record {
    run_id = v.run_id;
    evaluation_id = evaluation_id contracts v.run_id v.evidence_through_sequence input_digest;
    evidence_through_sequence = v.evidence_through_sequence;
    input_digest = input_digest;
    classification = classify errors (with_integrity errors results);
    critical_gates = with_integrity errors results;
    error_code = error_code_of (classify errors (with_integrity errors results));
  }

  -- from the authority on, for an input whose evidence and ground truths are in order
  unfoldable pub judge : EvaluationInput → EvaluationInput → String → Result Stop EvaluationResult
  judge supplied v input_digest = do
    found ← integrity supplied v
    let gates = gates_of v.ground_truths
    if not (is_unique (map (λ g. g.gate_id) gates))
        then invalid_result contracts v input_digest "duplicate_gate_id"
        else if not (all_in (referenced_faults gates) (map (λ f. f.id) v.scenario.faults))
        then invalid_result contracts v input_digest "ground_truth_fault_reference_invalid"
        else evaluate_gates v found.1 found.2 (sort_by (λ a b. text_lt a.gate_id b.gate_id) gates)
          >>= (λ results. evaluation_result contracts (verdict v input_digest found.0 results))

  -- the tests of the evidence and of the ground truths, each with its code
  unfoldable pub evaluate_bounded :
      EvaluationInput → EvaluationInput → String → Result Stop EvaluationResult
  evaluate_bounded supplied v input_digest =
      if ltb v.evidence_through_sequence 1
      then invalid_result contracts v input_digest "invalid_evidence_boundary"
      else if not (reaches_boundary v)
      then invalid_result contracts v input_digest "missing_evidence_boundary"
      else if not (is_event_stream contracts true v.events)
      then invalid_result contracts v input_digest "invalid_event_stream"
      else if any_of (λ e. not (e.run_id == v.run_id)) v.events
      then invalid_result contracts v input_digest "cross_run_evidence"
      else if not (are_bound v.scenario.expected_outcomes (map truth_ref v.ground_truths))
      then invalid_result contracts v input_digest "ground_truth_binding_invalid"
      else judge supplied v input_digest

  abbrev pub zero_digest : String
  zero_digest = "sha256:0000000000000000000000000000000000000000000000000000000000000000"

  -- from the digest of the bounded input on
  unfoldable pub evaluate_loaded_on :
      EvaluationInput → EvaluationInput → Result Stop EvaluationResult
  evaluate_loaded_on supplied v = elim (contracts.dumps_input (input_document v)) [
    | none ↦ invalid_result contracts v zero_digest "malformed_evaluator_input"
    | some canonical ↦
        evaluate_bounded supplied v (concat "sha256:" (contracts.hashing.hexdigest canonical))
  ]

  -- `_evaluate_critical_gates`
  unfoldable pub evaluate_loaded : EvaluationInput → Result Stop EvaluationResult
  evaluate_loaded supplied = do v ← bounded_input supplied; evaluate_loaded_on supplied v

  -- the result for an input that stops the engine
  unfoldable pub malformed_result : EvaluationInput → Result Stop EvaluationResult
  malformed_result v =
      let boundary = at_least_one v.evidence_through_sequence in
      evaluation_result contracts (
        refusal contracts v.run_id boundary boundary
          (concat "sha256:" (
            contracts.hashing.hexdigest
              (id_material v.run_id v.evidence_through_sequence "malformed")))
          "malformed_evaluator_input")

  -- `evaluate_critical_gates`
  unfoldable pub evaluate_critical_gates : EvaluationInput → Result Stop EvaluationResult
  evaluate_critical_gates v = elim (evaluate_loaded v) [
    | ok result ↦ ok result
    | err e ↦ malformed_result v
  ]
