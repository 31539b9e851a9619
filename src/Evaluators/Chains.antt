-- ===== src/Evaluators/Chains.antt =====
-- What authorised each effect (`_validate_authority`) in
-- packages/evaluators/src/chaosagent_evaluators/engine.py: the chain of events from an effect's evidence to the
-- tool request, the policy's decision and the person's resolution. One round of the loop over the effects ends
-- early where the source notes an error and continues.
use chaosagent.Base.{
  String, Bool, true, false, not, ◌&&◌, ◌||◌, Option, none, some, List, [], ◌∷◌, ltb, ◌==◌, nat_eq,
  string_eq, contains, is_some_of, Result, ok, err, ◌>>=◌, ◌>>◌, require, or_raise, if◌then◌else◌,
}
use chaosagent.Json.{text, object, Members, end, member}
use chaosagent.Checkpoints.{digest_payload}
use chaosagent.Faults.History.{AttemptPayload, only}
use chaosagent.Evaluators.{
  RevisionRef, DecisionPayload, ApprovalRequested, ApprovalResolved, StateEvidence, EvidencePayload,
  requested, resulted, decided, asked_approval, resolved_approval, evidenced, applied,
  EvidenceEvent, EffectFact, RequestDetail, lacks_evidence, contradicts_ledger, missing_related,
  no_unique_request, request_inconsistent, causation_missing, result_inconsistent, wrong_causation,
  no_unique_decision, decision_inconsistent, Stop, malformed, noted, Contracts,
}
use chaosagent.Evaluators.Lookups.{last_with, collect, event_of, same_ref}

-- the events of a type, each with its payload
abbrev pub evidence_of : String → EvidenceEvent → Option (EvidenceEvent × StateEvidence)
evidence_of id e = elim e.payload [
  | evidenced p ↦ if p.evidence_id == id then some (e, p) else none
  | _ ↦ none
]

abbrev pub Asked : Type 0
Asked = AttemptPayload × String × Option String

abbrev pub request_entry : EvidenceEvent → Option (EvidenceEvent × Asked)
request_entry e = elim e.payload [ requested p digest key ↦ some (e, (p, digest, key)) | _ ↦ none ]

abbrev pub result_entry : EvidenceEvent → Option EvidenceEvent
result_entry e = elim e.payload [ resulted p request ↦ some e | _ ↦ none ]

abbrev pub is_caused_by : EvidenceEvent → EvidenceEvent → Bool
is_caused_by e cause = is_some_of e.causation_event_id cause.event_id

abbrev pub decision_of : EvidenceEvent → EvidenceEvent → Option (EvidenceEvent × DecisionPayload)
decision_of request e = elim e.payload [
  | decided p ↦ if is_caused_by e request then some (e, p) else none
  | _ ↦ none
]

abbrev pub approval_request_of :
    EvidenceEvent → EvidenceEvent → Option (EvidenceEvent × ApprovalRequested)
approval_request_of decision e = elim e.payload [
  | asked_approval p ↦ if is_caused_by e decision then some (e, p) else none
  | _ ↦ none
]

abbrev pub resolution_of : EvidenceEvent → EvidenceEvent → Option (EvidenceEvent × ApprovalResolved)
resolution_of request e = elim e.payload [
  | resolved_approval p ↦ if is_caused_by e request then some (e, p) else none
  | _ ↦ none
]

-- the events that a list of identities names, if all of them are there
unfoldable pub events_of : List String → List EvidenceEvent → Option (List EvidenceEvent)
events_of [] events = some []
events_of (id ∷ ids) events =
    let rest = events_of ids events in
    elim (event_of id events) [
      | none ↦ none
      | some e ↦ elim rest [ none ↦ none | some es ↦ some (e ∷ es) ]
    ]

-- `_result_cites_authority`
unfoldable pub result_cites_authority : EvidenceEvent → String → String → List EvidenceEvent → Bool
result_cites_authority result authority_id request_id events =
    is_some_of result.causation_event_id authority_id || elim result.causation_event_id [
      | none ↦ false
      | some id ↦ elim (event_of id events) [
        | none ↦ false
        | some cause ↦ elim cause.payload [
          | applied p ↦ contains request_id p.related_event_ids
          | _ ↦ false
        ]
      ]
    ]

abbrev pub is_evidence_for : EffectFact → StateEvidence → Bool
is_evidence_for e p =
    p.evidence_kind == "business_effect"
    && (p.fact_type == e.effect_kind
        && (p.subject.0 == e.subject_type && p.subject.1 == e.subject_id))

-- the only evidence of an effect, and the events that it names
unfoldable pub evidence_chain :
    List EvidenceEvent
    → EffectFact
    → Result Stop (EvidenceEvent × StateEvidence × List EvidenceEvent)
evidence_chain events e = do
  found ← or_raise (only (collect (evidence_of e.effect_id) events)) (noted lacks_evidence)
  require (is_evidence_for e found.1) (noted contradicts_ledger)
  named ← or_raise (events_of found.1.related_event_ids events) (noted missing_related)
  ok (found.0, found.1, named)

-- `digest_payload_v0`, which raises for what RFC 8785 has no form for
abbrev pub digest_of : Contracts → Members → Result Stop String
digest_of contracts d = elim (digest_payload contracts.hashing d) [
  | ok digest ↦ ok digest
  | err e ↦ err malformed
]

abbrev pub request_document : EffectFact → Members → Members
request_document e arguments = member "tool_id" (text e.tool_id) (
    member "contract_version" (text e.contract_version) (member "arguments" (object arguments) end))

-- the tests of a request that need no digest
unfoldable pub is_request_of : EffectFact → Asked → RequestDetail → Bool
is_request_of e asked detail =
    (((asked.0.logical_call_id == e.logical_call_id && asked.0.attempt_id == e.first_attempt_id)
        && (asked.0.tool_id == e.tool_id && is_some_of asked.2 e.idempotency_key_digest))
      && ((asked.1 == detail.arguments_digest && detail.logical_call_id == e.logical_call_id)
          && (detail.attempt_id == e.first_attempt_id && detail.tool_id == e.tool_id)))
    && (detail.contract_version == e.contract_version
        && (detail.request_digest == e.request_digest
            && is_some_of detail.idempotency_key_digest e.idempotency_key_digest))

-- the only tool request that the evidence names, bound to the effect
unfoldable pub request_chain :
    Contracts
    → List RequestDetail
    → EffectFact
    → EvidenceEvent
    → List EvidenceEvent
    → Result Stop EvidenceEvent
request_chain contracts details e evidence named = do
  request ← or_raise (only (collect request_entry named)) (noted no_unique_request)
  detail ←
      or_raise (last_with (λ d. d.request_event_id == request.0.event_id) details)
        (noted request_inconsistent)
  require (is_request_of e request.1 detail) (noted request_inconsistent)
  arguments_digest ← digest_of contracts detail.arguments
  require (arguments_digest == detail.arguments_digest) (noted request_inconsistent)
  request_digest ← digest_of contracts (request_document e detail.arguments)
  require (request_digest == e.request_digest) (noted request_inconsistent)
  require
      (is_some_of evidence.correlation_id e.logical_call_id
        && ltb request.0.sequence evidence.sequence)
      (noted request_inconsistent)
  ok request.0

-- the tests where the cause of the evidence is the result of the request
unfoldable pub is_result_for :
    EffectFact → EvidenceEvent → EvidenceEvent → EvidenceEvent → List EvidenceEvent → Bool
is_result_for e evidence request cause results = elim (only results) [
  | none ↦ false
  | some result ↦ elim cause.payload [
    | resulted p request_event_id ↦
        ((result.event_id == cause.event_id && request_event_id == request.event_id)
          && (p.logical_call_id == e.logical_call_id && p.attempt_id == e.first_attempt_id))
        && (p.tool_id == e.tool_id && ltb cause.sequence evidence.sequence)
    | _ ↦ false
  ]
]

abbrev pub is_result : EvidencePayload → Bool
is_result (resulted p request) = true
is_result _ = false

abbrev pub is_resolution : EvidencePayload → Bool
is_resolution (resolved_approval p) = true
is_resolution _ = false

abbrev pub is_decision : EvidencePayload → Bool
is_decision (decided p) = true
is_decision _ = false

abbrev pub is_nonempty {ℓ} : {A : Type ℓ} → List A → Bool
is_nonempty [] = false
is_nonempty (x ∷ xs) = true

-- the event that caused the evidence
unfoldable pub cause_chain :
    List EvidenceEvent
    → EffectFact
    → EvidenceEvent
    → EvidenceEvent
    → List EvidenceEvent
    → Result Stop EvidenceEvent
cause_chain events e evidence request named = do
  id ← or_raise evidence.causation_event_id (noted causation_missing)
  cause ← or_raise (event_of id events) (noted causation_missing)
  require
      (not (is_result cause.payload)
        || is_result_for e evidence request cause (collect result_entry named))
      (noted result_inconsistent)
  require
      (is_result cause.payload
        || (not (is_nonempty (collect result_entry named))
            && (is_decision cause.payload || is_resolution cause.payload)))
      (noted wrong_causation)
  ok cause

abbrev pub is_decision_for :
    RevisionRef
    → EffectFact
    → EvidenceEvent
    → EvidenceEvent
    → EvidenceEvent × DecisionPayload
    → Bool
is_decision_for policy e evidence request decision =
    (is_some_of decision.0.correlation_id e.logical_call_id && same_ref decision.1.policy policy)
    && (is_some_of decision.1.logical_call_id e.logical_call_id
        && (ltb request.sequence decision.0.sequence && ltb decision.0.sequence evidence.sequence))

-- the only decision of the policy on the request
unfoldable pub decision_chain :
    RevisionRef
    → List EvidenceEvent
    → EffectFact
    → EvidenceEvent
    → EvidenceEvent
    → Result Stop (EvidenceEvent × DecisionPayload)
decision_chain policy events e evidence request = do
  decision ← or_raise (only (collect (decision_of request) events)) (noted no_unique_decision)
  require (is_decision_for policy e evidence request decision) (noted decision_inconsistent)
  ok decision
