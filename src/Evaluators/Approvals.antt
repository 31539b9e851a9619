-- ===== src/Evaluators/Approvals.antt =====
-- How an effect was authorised, by the policy or by a person's approval, in `_validate_authority` of
-- packages/evaluators/src/chaosagent_evaluators/engine.py.
use chaosagent.Base.{
  String, Bool, not, ◌&&◌, ◌||◌, Option, none, some, List, [], ◌∷◌, ltb, ◌==◌, nat_eq, string_eq,
  is_some_of, if◌then◌else◌,
}
use chaosagent.Store.Texts.{concat}
use chaosagent.Faults.History.{only, is_some}
use chaosagent.Evaluators.{
  RevisionRef, allow, deny, require_approval, pending, approved, DecisionPayload, ApprovalRequested,
  ApprovalResolved, EvidenceEvent, EffectFact, ApprovalFact, ScenarioDocument, EvaluationInput,
  Authorization, allowed_by_policy, unauthorized, approved_by_person, IntegrityError,
  contradictory_approval, unrelated_decision, unrelated_result, approval_inconsistent,
  approval_incomplete, Contracts,
}
use chaosagent.Evaluators.Lookups.{last_with, collect, same_ref, same_status}
use chaosagent.Evaluators.Chains.{
  result_cites_authority, approval_request_of, resolution_of, is_result, is_resolution, is_decision,
}

-- `approval_identity` in packages/persistence/src/chaosagent_persistence/repository.py, where `json` writes
-- the binding with its keys in order
unfoldable pub approval_identity :
    Contracts
    → (run_id : String) → (scenario policy : RevisionRef)
    → (tool_id contract_version request_digest key_digest : String) → String
approval_identity contracts run_id scenario policy tool_id contract_version request_digest
      key_digest =
    concat "approval-" (
      contracts.hashing.hexdigest (
        contracts.dumps_binding (
          ("run_id", run_id)
          ∷ ("scenario_id", scenario.id)
          ∷ ("scenario_revision", scenario.revision)
          ∷ ("scenario_digest", scenario.digest)
          ∷ ("policy_id", policy.id)
          ∷ ("policy_revision", policy.revision)
          ∷ ("policy_digest", policy.digest)
          ∷ ("tool_id", tool_id)
          ∷ ("contract_version", contract_version)
          ∷ ("request_digest", request_digest)
          ∷ ("idempotency_key_digest", key_digest)
          ∷ [])))

abbrev pub scenario_identity : ScenarioDocument → RevisionRef
scenario_identity s = record { id = s.scenario_id; revision = s.revision; digest = s.digest }

-- the identity that an effect's approval must have
unfoldable pub expected_approval_id : Contracts → EvaluationInput → EffectFact → String
expected_approval_id contracts v e =
    approval_identity contracts v.run_id (scenario_identity v.scenario) v.scenario.policy e.tool_id
      e.contract_version e.request_digest e.idempotency_key_digest

-- `persisted_coherent`, for an approval that is stored
unfoldable pub is_coherent_record :
    Contracts
    → EvaluationInput
    → EffectFact
    → EvidenceEvent × DecisionPayload
    → EvidenceEvent
    → ApprovalFact
    → Bool
is_coherent_record contracts v e decision request a =
    (((a.run_id == v.run_id && same_ref a.scenario (scenario_identity v.scenario))
        && (same_ref a.policy v.scenario.policy && a.tool_id == e.tool_id))
      && ((a.contract_version == e.contract_version && a.request_digest == e.request_digest)
          && (a.idempotency_key_digest == e.idempotency_key_digest
              && a.logical_call_id == e.logical_call_id)))
    && (((a.requested_attempt_id == e.first_attempt_id && a.decision_id == decision.1.decision_id)
          && (a.decision_event_id == decision.0.event_id && a.request_event_id == request.event_id))
        && a.approval_id == expected_approval_id contracts v e)

-- the tests of an approval request that do not look at its resolution
unfoldable pub is_coherent_request :
    EffectFact → EvidenceEvent × DecisionPayload → EvidenceEvent × ApprovalRequested → Bool
is_coherent_request e decision request =
    (is_some_of request.0.correlation_id e.logical_call_id
      && request.1.decision_id == decision.1.decision_id)
    && (request.1.action_digest == e.request_digest && ltb decision.0.sequence request.0.sequence)

-- the tests of the only resolution
unfoldable pub is_coherent_resolution :
    String
    → List EvidenceEvent
    → EvidenceEvent
    → EvidenceEvent
    → EvidenceEvent
    → EvidenceEvent × ApprovalRequested
    → ApprovalFact
    → EvidenceEvent × ApprovalResolved
    → Bool
is_coherent_resolution expected_id events evidence request cause asked a resolution =
    (((is_some_of resolution.0.correlation_id resolution.1.approval_id
          && asked.1.approval_id == resolution.1.approval_id)
        && (resolution.1.approval_id == expected_id
            && resolution.1.request_event_id == asked.0.event_id))
      && ((is_some_of a.resolution_event_id resolution.0.event_id
            && same_status a.status resolution.1.result)
          && (ltb asked.0.sequence resolution.0.sequence
              && ltb resolution.0.sequence evidence.sequence)))
    && ((is_result cause.payload
          && result_cites_authority cause resolution.0.event_id request.event_id events)
        || cause.event_id == resolution.0.event_id)

-- without a single resolution the approval is pending
abbrev pub is_pending : ApprovalFact → Bool
is_pending a = same_status a.status pending && not (is_some a.resolution_event_id)

-- the authorization by an approval request; `none` where the evidence is not coherent
unfoldable pub approval_outcome :
    Contracts
    → EvaluationInput
    → EffectFact
    → EvidenceEvent
    → EvidenceEvent
    → EvidenceEvent
    → EvidenceEvent × DecisionPayload
    → EvidenceEvent × ApprovalRequested
    → Option Authorization
approval_outcome contracts v e evidence request cause decision asked =
    elim (last_with (λ a. a.approval_id == asked.1.approval_id) v.approvals) [
      | none ↦ none
      | some a ↦
          if is_coherent_record contracts v e decision asked.0 a
            && is_coherent_request e decision asked
          then elim (only (collect (resolution_of asked.0) v.events)) [
            | none ↦ if is_pending a then some unauthorized else none
            | some resolution ↦
                if is_coherent_resolution (expected_approval_id contracts v e) v.events evidence
                  request cause asked a resolution
                then some (
                    if same_status resolution.1.result approved
                    then approved_by_person
                    else unauthorized)
                else none
          ]
          else none
    ]

-- the authorization of an effect, with the errors that it notes
abbrev pub Outcome : Type 0
Outcome = List IntegrityError × Authorization

abbrev pub of_approval : Option Authorization → Outcome
of_approval none = (approval_inconsistent ∷ [], unauthorized)
of_approval (some a) = ([], a)

unfoldable pub authorized_by_approval :
    Contracts
    → EvaluationInput
    → EffectFact
    → EvidenceEvent
    → EvidenceEvent
    → EvidenceEvent
    → EvidenceEvent × DecisionPayload
    → Outcome
authorized_by_approval contracts v e evidence request cause decision =
    elim (collect (approval_request_of decision.0) v.events) [
      | [] ↦ ([], unauthorized)
      | asked ∷ more ↦ elim more [
        | [] ↦ of_approval (approval_outcome contracts v e evidence request cause decision asked)
        | _ ∷ _ ↦ (approval_incomplete ∷ [], unauthorized)
      ]
    ]

-- the errors of an effect that the policy allowed
unfoldable pub allowed_errors :
    List EvidenceEvent → EvidenceEvent → EvidenceEvent → EvidenceEvent → List IntegrityError
allowed_errors events request cause decision =
    if is_resolution cause.payload
    then contradictory_approval ∷ []
    else if is_decision cause.payload && not (cause.event_id == decision.event_id)
    then unrelated_decision ∷ []
    else if is_result cause.payload
        && not (result_cites_authority cause decision.event_id request.event_id events)
    then unrelated_result ∷ []
    else []

unfoldable pub authorize :
    Contracts
    → EvaluationInput
    → EffectFact
    → EvidenceEvent
    → EvidenceEvent
    → EvidenceEvent
    → EvidenceEvent × DecisionPayload
    → Outcome
authorize contracts v e evidence request cause decision = elim decision.1.decision [
  | allow ↦ (allowed_errors v.events request cause decision.0, allowed_by_policy)
  | deny ↦ ([], unauthorized)
  | require_approval ↦ authorized_by_approval contracts v e evidence request cause decision
]
