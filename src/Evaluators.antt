-- ===== src/Evaluators.antt =====
-- packages/evaluators/src/chaosagent_evaluators/engine.py: the critical gates of a Run, evaluated over its
-- evidence. The documents that the engine reads and writes.
--
-- Events, requests and gates have the fields that their JSON Schemas give them, so the casts and the tests
-- for a missing field have no counterpart; rows of the company's state and results of effects are JSON
-- objects. Where the engine stops with an exception, `evaluate_critical_gates` catches it.
pub mod Lookups
pub mod Streams
pub mod State
pub mod Chains
pub mod Approvals
pub mod Ledger
pub mod Gates
pub mod Results
pub mod Bounds
pub mod FaultEvidence
pub mod Verdict
pub mod Trails
pub mod Permits
pub mod Settled
pub mod Rounds
pub mod Clean
pub mod Judged
pub mod Holds
pub mod Sound
pub mod Stable
pub mod Total
pub mod Replayed
mod Tests
use chaosagent.Base.{ℕ, String, Option, List, Bool}
use chaosagent.Json.{Value, Members}
use chaosagent.Faults.{Hashing}
use chaosagent.Faults.History.{Producer, AttemptPayload, FaultPayload}
use chaosagent.Faults.Rules

pub record RevisionRef : Type 0 where
  pub id : String
  pub revision : String
  pub digest : String

pub data DecisionKind : Type 0 where
  allow deny require_approval : DecisionKind

pub data ApprovalStatus : Type 0 where
  pending approved denied : ApprovalStatus

pub record DecisionPayload : Type 0 where
  pub decision_id : String
  pub policy : RevisionRef
  pub decision : DecisionKind
  pub logical_call_id : Option String

pub record ApprovalRequested : Type 0 where
  pub approval_id : String
  pub decision_id : String
  pub action_digest : String

pub record ApprovalResolved : Type 0 where
  pub approval_id : String
  pub request_event_id : String
  pub result : ApprovalStatus
  pub responder_type : String

pub record StateEvidence : Type 0 where
  pub evidence_id : String
  pub evidence_kind : String
  pub fact_type : String
  pub subject : String × String
  pub related_event_ids : List String

pub data EvidencePayload : Type 0 where
  requested :
      AttemptPayload
      → (arguments_digest : String) → (idempotency_key_digest : Option String) → EvidencePayload
  resulted : AttemptPayload → (request_event_id : String) → EvidencePayload
  decided : DecisionPayload → EvidencePayload
  asked_approval : ApprovalRequested → EvidencePayload
  resolved_approval : ApprovalResolved → EvidencePayload
  evidenced : StateEvidence → EvidencePayload
  matched applied observed : FaultPayload → EvidencePayload
  not_matched : EvidencePayload
  unrelated : EvidencePayload

pub record EvidenceEvent : Type 0 where
  pub event_id : String
  pub run_id : String
  pub sequence : ℕ
  pub causation_event_id : Option String
  pub correlation_id : Option String
  pub producer : Producer
  pub payload : EvidencePayload

pub record EffectFact : Type 0 where
  pub run_id : String
  pub tool_id : String
  pub contract_version : String
  pub idempotency_key_digest : String
  pub request_digest : String
  pub effect_id : String
  pub effect_kind : String
  pub subject_type : String
  pub subject_id : String
  pub logical_call_id : String
  pub first_attempt_id : String
  pub result : Members

pub record ApprovalFact : Type 0 where
  pub approval_id : String
  pub run_id : String
  pub scenario : RevisionRef
  pub policy : RevisionRef
  pub tool_id : String
  pub contract_version : String
  pub request_digest : String
  pub idempotency_key_digest : String
  pub logical_call_id : String
  pub requested_attempt_id : String
  pub decision_id : String
  pub decision_event_id : String
  pub request_event_id : String
  pub status : ApprovalStatus
  pub resolution_event_id : Option String

-- an item of `execution["tool_requests"]`
pub record RequestDetail : Type 0 where
  pub request_event_id : String
  pub logical_call_id : String
  pub attempt_id : String
  pub call_ordinal : ℕ
  pub tool_id : String
  pub contract_version : String
  pub arguments : Members
  pub arguments_digest : String
  pub request_digest : String
  pub idempotency_key_digest : Option String

-- what a final execution checkpoint gives, in a loaded form; `none` for a member that is missing
pub record Execution : Type 0 where
  pub is_final : Bool
  pub final_answer : Option String
  pub steps : Option ℕ
  pub tool_calls : Option ℕ
  pub wall_time_ms : Option ℕ
  pub cost_microusd : Option ℕ
  pub cost_complete : Option Bool
  pub tool_requests : Option (List RequestDetail)

pub record Budgets : Type 0 where
  pub max_steps : ℕ
  pub max_tool_calls : ℕ
  pub max_wall_time_ms : ℕ
  pub max_cost_microusd : ℕ

pub record ScenarioDocument : Type 0 where
  pub scenario_id : String
  pub revision : String
  pub digest : String
  pub policy : RevisionRef
  pub allowed_tools : List String
  pub expected_outcomes : List RevisionRef
  pub budgets : Budgets
  pub faults : List Rules.FaultDeclaration

pub record SupportingEffect : Type 0 where
  pub effect_kind : String
  pub subject_type : String
  pub subject_id : Option String
  pub result_equals : Members

pub data GateKind : Type 0 where
  refund_state :
      (order_id payment_id : String)
      → (amount_minor : ℕ) → (status currency : String) → (min_count max_count : ℕ) → GateKind
  support_ticket_state :
      (ticket_id order_id status : String) → (note_contains : Option String) → GateKind
  effect_count : (effect_kind : String) → (min_count max_count : ℕ) → GateKind
  authorization_respected required_approval : (effect_kinds : List String) → GateKind
  claim_supported : (claim_text : String) → SupportingEffect → GateKind
  fault_observed : (fault_ids : List String) → GateKind
  budgets_satisfied : GateKind
  unknown_kind : GateKind

pub record Gate : Type 0 where
  pub gate_id : String
  pub kind : GateKind

pub record GroundTruth : Type 0 where
  pub ground_truth_id : String
  pub revision : String
  pub digest : String
  pub critical_gates : List Gate

pub record CompanyState : Type 0 where
  pub refunds : List Members
  pub support_tickets : List Members

pub record EvaluationInput : Type 0 where
  pub run_id : String
  pub scenario : ScenarioDocument
  pub ground_truths : List GroundTruth
  pub evidence_through_sequence : ℕ
  pub events : List EvidenceEvent
  pub initial_state : CompanyState
  pub final_state : CompanyState
  pub effects : List EffectFact
  pub execution : Execution
  pub run_seed : Option ℕ
  pub approvals : List ApprovalFact

pub data Authorization : Type 0 where
  allowed_by_policy unauthorized approved_by_person : Authorization

pub record EventRef : Type 0 where
  pub event_id : String
  pub sequence : ℕ

pub record Authority : Type 0 where
  pub event_ref : EventRef
  pub authorization : Authorization

-- the texts of the integrity errors
pub data IntegrityError : Type 0 where
  duplicate_event duplicate_effect bindings_unavailable bindings_malformed : IntegrityError
  approval_duplicated effect_inconsistent refund_disagrees ticket_disagrees : IntegrityError
  unknown_effect_kind lacks_evidence contradicts_ledger missing_related : IntegrityError
  no_unique_request request_inconsistent causation_missing result_inconsistent : IntegrityError
  wrong_causation no_unique_decision decision_inconsistent contradictory_approval : IntegrityError
  unrelated_decision unrelated_result approval_inconsistent approval_incomplete : IntegrityError
  refunds_disagree identities_disagree no_run_seed arguments_unavailable : IntegrityError
  history_inconsistent state_disagrees checkpoint_unavailable : IntegrityError

-- A part of the engine ends early with an exception, or by noting an integrity error.
pub data Stop : Type 0 where
  malformed : Stop
  noted : IntegrityError → Stop

pub data GateStatus : Type 0 where
  passed failed errored : GateStatus

pub data EvaluationClass : Type 0 where
  pass fail invalid : EvaluationClass

pub data Detail : Type 0 where
  no_detail : Detail
  actual_count checked_count : ℕ → Detail
  detail_code : String → Detail

pub record GateResult : Type 0 where
  pub gate_id : String
  pub status : GateStatus
  pub evidence : List EventRef
  pub detail : Detail

pub record EvaluationResult : Type 0 where
  pub run_id : String
  pub evaluation_id : String
  pub evidence_through_sequence : ℕ
  pub input_digest : String
  pub classification : EvaluationClass
  pub critical_gates : List GateResult
  pub error_code : Option String

-- the document of `_input_document`
pub record InputDocument : Type 0 where
  pub run_id : String
  pub scenario_digest : String
  pub ground_truth_digests : List String
  pub evidence_through_sequence : ℕ
  pub events : List EvidenceEvent
  pub initial_state : CompanyState
  pub final_state : CompanyState
  pub effects : List EffectFact
  pub execution : Execution
  pub run_seed : Option ℕ
  pub approvals : List ApprovalFact

-- The JSON Schemas of events and of evaluation results, rfc8785 and hashlib.
pub record Contracts : Type 0 where
  pub hashing : Hashing
  pub is_run_event : EvidenceEvent → Bool
  pub is_evaluation_result : EvaluationResult → Bool
  pub dumps_input : InputDocument → Option String
  pub dumps_binding : List (String × String) → String
