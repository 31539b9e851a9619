-- ===== src/Evaluators/Bounds.antt =====
-- The input of an evaluation as of its boundary, in
-- packages/evaluators/src/chaosagent_evaluators/engine.py.
use chaosagent.Base.{
  ℕ, Bool, true, false, Option, none, some, List, [], ◌∷◌, map, filter, ltb, leb, ◌==◌, nat_eq,
  string_eq, contains, Result, ok, ◌>>=◌, if◌then◌else◌,
}
use chaosagent.Store.Texts.{text_lt}
use chaosagent.Evaluators.{
  EvidenceEvent, EffectFact, ApprovalFact, pending, EvaluationInput, CompanyState, Stop,
  InputDocument,
}
use chaosagent.Evaluators.Lookups.{collect, any_of, sort_by}
use chaosagent.Evaluators.State.{evidence_sequences, bounded_effects, replay_state}

-- the events up to the boundary
unfoldable pub bounded_events : ℕ → List EvidenceEvent → List EvidenceEvent
bounded_events boundary events = filter (λ e. leb e.sequence boundary) events

abbrev pub is_resolved_by : List EvidenceEvent → ApprovalFact → Bool
is_resolved_by events a = elim a.resolution_event_id [
  | none ↦ true
  | some id ↦ contains id (map (λ e. e.event_id) events)
]

-- an approval as it stands at the boundary, if it was requested by then
abbrev pub bounded_approval : List EvidenceEvent → ApprovalFact → Option ApprovalFact
bounded_approval events a =
    if contains a.request_event_id (map (λ e. e.event_id) events)
    then some (
        if is_resolved_by events a
        then a
        else record a { status = pending; resolution_event_id = none })
    else none

abbrev pub events_within : EvaluationInput → List EvidenceEvent
events_within v = bounded_events v.evidence_through_sequence v.events

abbrev pub effects_within : EvaluationInput → List (ℕ × EffectFact)
effects_within v = bounded_effects (evidence_sequences (events_within v)) v.effects

-- everything as of the boundary, with the replayed state
unfoldable pub as_of_boundary : EvaluationInput → CompanyState → EvaluationInput
as_of_boundary v state = record v {
  events = events_within v;
  final_state = state;
  effects = map (λ e. e.1) (effects_within v);
  approvals = collect (bounded_approval (events_within v)) v.approvals;
}

-- the input that the engine goes on with
unfoldable pub bounded_input : EvaluationInput → Result Stop EvaluationInput
bounded_input v = do
  state ← replay_state v.initial_state (effects_within v)
  ok (as_of_boundary v state)

abbrev pub has_later_evidence : EvaluationInput → Bool
has_later_evidence v = any_of (λ e. ltb v.evidence_through_sequence e.sequence) v.events

-- `_input_document`
unfoldable pub input_document : EvaluationInput → InputDocument
input_document v = record {
  run_id = v.run_id;
  scenario_digest = v.scenario.digest;
  ground_truth_digests = sort_by text_lt (map (λ t. t.digest) v.ground_truths);
  evidence_through_sequence = v.evidence_through_sequence;
  events = v.events;
  initial_state = v.initial_state;
  final_state = v.final_state;
  effects = sort_by (λ a b. text_lt a.effect_id b.effect_id) v.effects;
  execution = v.execution;
  run_seed = v.run_seed;
  approvals = sort_by (λ a b. text_lt a.approval_id b.approval_id) v.approvals;
}

unfoldable pub last_event : List EvidenceEvent → Option EvidenceEvent
last_event [] = none
last_event (e ∷ es) = elim (last_event es) [ none ↦ some e | some d ↦ some d ]

abbrev pub reaches_boundary : EvaluationInput → Bool
reaches_boundary v = elim (last_event v.events) [
  | none ↦ false
  | some e ↦ e.sequence == v.evidence_through_sequence
]
