-- ===== src/Evaluators/Tests.antt =====
-- A Run with one refund that the policy allowed, evaluated to a pass.
use chaosagent.Base.{
  ◌≡◌, ◌≢◌, ◌⊎◌, refl, arith, ℕ, pos, String, true, Option, none, some, List, [], ◌∷◌, map, ok, All,
  nat_eq, string_eq, ◌≤◌, ◌&&◌, leb,
}
use chaosagent.Json.{text, integer, Members, end, member, get}
use chaosagent.Json.Same.{field, same_value, same_members}
use chaosagent.Checkpoints.{digest_payload, normalize_payload}
use chaosagent.Faults.Sample.{digest, constant_hash}
use chaosagent.Faults.History.{AttemptPayload, lookup, same_set}
use chaosagent.Evaluators.{
  RevisionRef, ApprovalFact, approved, pending, allow, EvidencePayload, requested, decided,
  evidenced, unrelated, EvidenceEvent, EffectFact, RequestDetail, Gate, refund_state, effect_count,
  authorization_respected, budgets_satisfied, EvaluationInput, EventRef, passed, pass, invalid,
  Detail, no_detail, actual_count, checked_count, GateResult, EvaluationResult, Contracts,
}
use chaosagent.Evaluators.Lookups.{last_with, collect, insert_by, sort_by, assign, event_of, keyed}
use chaosagent.Evaluators.Streams.{is_increasing, all_answer, is_event_stream}
use chaosagent.Evaluators.State.{
  evidence_sequences, sequenced, bounded_effects, projection, replay_refund, replay_one, replay_all,
  replay_state, identified_rows, relevant_rows, same_relevant_state,
}
use chaosagent.Evaluators.Chains.{
  events_of, evidence_chain, is_request_of, request_chain, cause_chain, decision_chain,
}
use chaosagent.Evaluators.Approvals.{authorize, allowed_errors}
use chaosagent.Evaluators.Ledger.{
  state_errors, is_effect_of, effect_chain, effect_round, effect_rounds, opening_errors,
  closing_errors, bound_authority, effect_ids, evidenced_id, validate_authority,
}
use chaosagent.Evaluators.Gates.{
  refund_gate, effect_gate, authorization_gate, budgets_gate, is_within_budgets, evaluate_gate,
}
use chaosagent.Evaluators.Results.{evaluation_result, decimal_text, take_text, evaluation_id}
use chaosagent.Evaluators.Bounds.{
  bounded_events, events_within, as_of_boundary, bounded_input, input_document, last_event,
}
use chaosagent.Evaluators.FaultEvidence.{validate_fault_evidence}
use chaosagent.Evaluators.Verdict.{
  state_agrees, gates_of, referenced_faults, evaluate_gates, classify, integrity, verdict, judge,
  evaluate_bounded, evaluate_loaded_on, evaluate_loaded, evaluate_critical_gates,
}
use chaosagent.Evaluators.Holds.{IsEvidenced, Holds}
use chaosagent.Evaluators.Sound.{pass-Holds, verdict-IsEvidenced}
use chaosagent.Evaluators.Stable.{ResolvesTo, nothing, resolved, grown, evaluate-grown}
use chaosagent.Evaluators.Total.{malformed_document, evaluate-returns}
use chaosagent.Store.Identifiers.{is_identifier}
use chaosagent.Events.{max_safe_integer}
use chaosagent.Evaluators.Results.{refusal}
use chaosagent.Store.Texts.{concat, text_lt}

abbrev contracts : Contracts
contracts = record {
  hashing = constant_hash;
  is_run_event = λ e. true;
  is_evaluation_result = λ r. true;
  dumps_input = λ d. some "input";
  dumps_binding = λ b. "binding";
}

abbrev ref : String → RevisionRef
ref id = record { id = id; revision = "1"; digest = digest }

abbrev event : String → ℕ → Option String → EvidencePayload → EvidenceEvent
event id sequence cause payload = record {
  event_id = id;
  run_id = "run";
  sequence = sequence;
  causation_event_id = cause;
  correlation_id = some "call";
  producer = record { component = "tool-gateway"; instance_id = none };
  payload = payload;
}

abbrev attempt : AttemptPayload
attempt = record {
  logical_call_id = "call";
  attempt_id = "attempt";
  attempt_number = 1;
  tool_id = "payments.refund";
}

abbrev events : List EvidenceEvent
events =
    event "start" 1 none unrelated
    ∷ event "request" 2 (some "start") (requested attempt digest (some "key"))
    ∷ event "decision" 3 (some "request") (
        decided (record {
          decision_id = "decided";
          policy = ref "policy";
          decision = allow;
          logical_call_id = some "call";
        }))
    ∷ event "evidence" 4 (some "decision") (
        evidenced (record {
          evidence_id = "effect";
          evidence_kind = "business_effect";
          fact_type = "refund.created";
          subject = ("refund", "refund-1");
          related_event_ids = "request" ∷ [];
        }))
    ∷ event "later" 5 (some "evidence") unrelated
    ∷ []

abbrev refund : Members
refund = member "refund_id" (text "refund-1") (
    member "payment_id" (text "payment-1") (
      member "order_id" (text "order-1") (
        member "status" (text "succeeded")
          (member "amount_minor" (integer (pos 500)) (member "currency" (text "EUR") end)))))

abbrev effect : EffectFact
effect = record {
  run_id = "run";
  tool_id = "payments.refund";
  contract_version = "chaosagent.tool/payments.refund/v0";
  idempotency_key_digest = "key";
  request_digest = digest;
  effect_id = "effect";
  effect_kind = "refund.created";
  subject_type = "refund";
  subject_id = "refund-1";
  logical_call_id = "call";
  first_attempt_id = "attempt";
  result = refund;
}

abbrev detail : RequestDetail
detail = record {
  request_event_id = "request";
  logical_call_id = "call";
  attempt_id = "attempt";
  call_ordinal = 1;
  tool_id = "payments.refund";
  contract_version = "chaosagent.tool/payments.refund/v0";
  arguments = member "payment_id" (text "payment-1") end;
  arguments_digest = digest;
  request_digest = digest;
  idempotency_key_digest = some "key";
}

abbrev gates : List Gate
gates =
    record {
      gate_id = "a-refunded";
      kind = refund_state "order-1" "payment-1" 500 "succeeded" "EUR" 1 1;
    }
    ∷ record { gate_id = "b-once"; kind = effect_count "refund.created" 1 1 }
    ∷ record { gate_id = "c-permitted"; kind = authorization_respected ("refund.created" ∷ []) }
    ∷ record { gate_id = "d-cheap"; kind = budgets_satisfied }
    ∷ []

abbrev input : EvaluationInput
input = record {
  run_id = "run";
  scenario = record {
    scenario_id = "scenario";
    revision = "1";
    digest = digest;
    policy = ref "policy";
    allowed_tools = "payments.refund" ∷ [];
    expected_outcomes = ref "truth" ∷ [];
    budgets = record {
      max_steps = 9;
      max_tool_calls = 9;
      max_wall_time_ms = 9;
      max_cost_microusd = 9;
    };
    faults = [];
  };
  ground_truths =
      record { ground_truth_id = "truth"; revision = "1"; digest = digest; critical_gates = gates }
      ∷ [];
  evidence_through_sequence = 4;
  events = events;
  initial_state = record { refunds = []; support_tickets = [] };
  final_state = record { refunds = refund ∷ []; support_tickets = [] };
  effects = effect ∷ [];
  execution = record {
    is_final = true;
    final_answer = some "Refunded.";
    steps = some 2;
    tool_calls = some 1;
    wall_time_ms = some 5;
    cost_microusd = some 0;
    cost_complete = some true;
    tool_requests = some (detail ∷ []);
  };
  run_seed = none;
  approvals = [];
}

abbrev evidence_ref : EventRef
evidence_ref = record { event_id = "evidence"; sequence = 4 }

abbrev gate_passed : String → List EventRef → Detail → GateResult
gate_passed id evidence detail = record {
  gate_id = id;
  status = passed;
  evidence = evidence;
  detail = detail;
}

abbrev result : EvaluationResult
result = record {
  run_id = "run";
  evaluation_id = "evaluation-00000000000000000000000000000000";
  evidence_through_sequence = 4;
  input_digest = digest;
  classification = pass;
  critical_gates =
      gate_passed "a-refunded" (evidence_ref ∷ []) (actual_count 1)
      ∷ gate_passed "b-once" (evidence_ref ∷ []) (actual_count 1)
      ∷ gate_passed "c-permitted" (evidence_ref ∷ []) (checked_count 1)
      ∷ gate_passed "d-cheap" [] no_detail
      ∷ [];
  error_code = none;
}

passes : evaluate_critical_gates contracts input ≡ ok result
unfolding evaluate_critical_gates evaluate_loaded evaluate_loaded_on evaluate_bounded judge verdict
    integrity classify evaluate_gates referenced_faults gates_of state_agrees
    validate_fault_evidence last_event input_document bounded_input as_of_boundary bounded_events
    evaluation_result decimal_text take_text evaluation_id evaluate_gate refund_gate effect_gate
    authorization_gate budgets_gate is_within_budgets validate_authority bound_authority
    closing_errors opening_errors effect_rounds effect_round effect_chain is_effect_of state_errors
    allowed_errors authorize decision_chain cause_chain request_chain is_request_of evidence_chain
    events_of same_relevant_state relevant_rows identified_rows replay_state replay_all replay_one
    replay_refund projection bounded_effects evidence_sequences is_event_stream all_answer
    is_increasing keyed event_of assign sort_by insert_by collect last_with lookup digest_payload
    normalize_payload get field same_value same_members text_lt
passes = refl

-- A Run whose policy decision is missing from the evidence.
abbrev undecided : EvaluationInput
undecided = record input {
  events =
      event "start" 1 none unrelated
      ∷ event "request" 2 (some "start") (requested attempt digest (some "key"))
      ∷ event "evidence" 4 (some "request") (
          evidenced (record {
            evidence_id = "effect";
            evidence_kind = "business_effect";
            fact_type = "refund.created";
            subject = ("refund", "refund-1");
            related_event_ids = "request" ∷ [];
          }))
      ∷ [];
}

pass_is_valid : pass ≢ invalid
pass_is_valid h = absurd (ground arith)

pass-Holds_example :
    (w : EvaluationInput) × (bounded_input input ≡ ok w)
    × All (Holds contracts w) (gates_of input.ground_truths)
pass-Holds_example = pass-Holds contracts input result passes refl

verdict-IsEvidenced_example :
    (w : EvaluationInput) × (bounded_input input ≡ ok w)
    × All (IsEvidenced contracts w) w.effects
    × (same_set (collect evidenced_id w.events) (effect_ids w.effects) ≡ true)
verdict-IsEvidenced_example = verdict-IsEvidenced contracts input result passes pass_is_valid

abbrev late_effect : EffectFact
late_effect = record effect { effect_id = "second"; subject_id = "refund-2" }

is_unevidenced : sequenced (evidence_sequences (events_within input)) late_effect ≡ none
unfolding evidence_sequences bounded_events collect last_with
is_unevidenced = refl

abbrev waiting_approval : ApprovalFact
waiting_approval = record {
  approval_id = "approval";
  run_id = input.run_id;
  scenario = input.scenario.policy;
  policy = input.scenario.policy;
  tool_id = "payments.refund";
  contract_version = "chaosagent.tool/payments.refund/v0";
  request_digest = digest;
  idempotency_key_digest = "key";
  logical_call_id = "call";
  requested_attempt_id = "attempt";
  decision_id = "decision";
  decision_event_id = "decision";
  request_event_id = "start";
  status = pending;
  resolution_event_id = none;
}

abbrev waiting_input : EvaluationInput
waiting_input = record input { approvals = waiting_approval ∷ [] }

abbrev answered_approval : ApprovalFact
answered_approval = record waiting_approval {
  status = approved;
  resolution_event_id = some "second";
}

is_answered :
    ResolvesTo
      (map (λ e. e.event_id) (events_within waiting_input))
      (waiting_approval ∷ [])
      (answered_approval ∷ [])
unfolding bounded_events
is_answered = resolved waiting_approval approved "second" refl refl refl nothing

evaluate-grown_example :
    evaluate_critical_gates contracts (
      grown waiting_input
        (event "second" 6 none unrelated ∷ [])
        (late_effect ∷ [])
        (answered_approval ∷ [])
        []
        input.initial_state)
    ≡ evaluate_critical_gates contracts waiting_input
evaluate-grown_example =
    evaluate-grown contracts waiting_input (event "second" 6 none unrelated ∷ []) (late_effect ∷ [])
      (answered_approval ∷ []) [] input.initial_state refl (refl, tt) (is_unevidenced, tt)
      is_answered tt

-- Contracts whose schema looks at the Run and at the boundary of a result.
abbrev strict : Contracts
strict = record contracts {
  is_evaluation_result = λ r.
      is_identifier r.run_id
      && (leb 1 r.evidence_through_sequence && leb r.evidence_through_sequence max_safe_integer);
}

strict_accepts :
    (run_id : String) (boundary shown : ℕ) (material : String)
    → is_identifier run_id ≡ true
    → 1 ≤ shown
    → shown ≤ max_safe_integer
    → strict.is_evaluation_result (
        refusal strict run_id boundary shown
          (concat "sha256:" (strict.hashing.hexdigest material))
          "malformed_evaluator_input")
      ≡ true
strict_accepts run_id boundary shown material named low high = ground arith

undecided_named : is_identifier undecided.run_id ≡ true
unfolding is_identifier
undecided_named = refl

evaluate-returns_example :
    (r : EvaluationResult) × (evaluate_critical_gates strict undecided ≡ ok r)
    × ((evaluate_loaded strict undecided ≡ ok r) ⊎ (r ≡ malformed_document strict undecided))
evaluate-returns_example =
    evaluate-returns strict strict_accepts undecided undecided_named (omega arith)
