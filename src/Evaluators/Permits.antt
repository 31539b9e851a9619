-- ===== src/Evaluators/Permits.antt =====
-- What permitted an effect that a round of the loop over the effects finds authorised.
use chaosagent.Base.{
  ◌<◌, ◌≡◌, refl, ◌⊎◌, inl, inr, true, some, List, [], ◌∷◌, ltb→lt, ◌==◌, ==→≡, nat_eq, string_eq,
  arith, and_true, Option-cases,
}
use chaosagent.Faults.History.{only}
use chaosagent.Evaluators.{
  DecisionKind, allow, deny, require_approval, ApprovalStatus, pending, approved, denied,
  DecisionPayload, ApprovalRequested, ApprovalResolved, EvidenceEvent, EffectFact, ApprovalFact,
  EvaluationInput, Contracts,
}
use chaosagent.Evaluators.Lookups.{last_with, collect, same_status}
use chaosagent.Evaluators.Chains.{approval_request_of, resolution_of}
use chaosagent.Evaluators.Approvals.{
  expected_approval_id, is_coherent_record, is_coherent_request, is_coherent_resolution,
  approval_outcome, of_approval, authorized_by_approval, authorize,
}
use chaosagent.Evaluators.Gates.{is_allowed}
use chaosagent.Evaluators.Trails.{Trail, only-some}

-- A person's approval: the only request and its only resolution, in order, on the stored approval.
pub record IsApproval (contracts : Contracts) (v : EvaluationInput) (e : EffectFact)
    (evidence : EvidenceEvent) (decision : EvidenceEvent × DecisionPayload)
    (asked : EvidenceEvent × ApprovalRequested) (resolution : EvidenceEvent × ApprovalResolved)
    (a : ApprovalFact) : Type 0 where
  pub only_resolution : collect (resolution_of asked.0) v.events ≡ resolution ∷ []
  pub stored : last_with (λ x. x.approval_id == asked.1.approval_id) v.approvals ≡ some a
  pub identity : a.approval_id ≡ expected_approval_id contracts v e
  pub digest : asked.1.action_digest ≡ e.request_digest
  pub result : resolution.1.result ≡ approved
  pub asked_after : decision.0.sequence < asked.0.sequence
  pub resolved_after : asked.0.sequence < resolution.0.sequence
  pub evidence_after : resolution.0.sequence < evidence.sequence

DecisionKind-cases : (d : DecisionKind) → (d ≡ allow) ⊎ (d ≡ deny) ⊎ (d ≡ require_approval)
DecisionKind-cases allow = inl refl
DecisionKind-cases deny = inr (inl refl)
DecisionKind-cases require_approval = inr (inr refl)

same_status-approved : (s : ApprovalStatus) → same_status s approved ≡ true → s ≡ approved
same_status-approved pending h = absurd (ground arith)
same_status-approved approved h = refl
same_status-approved denied h = absurd (ground arith)

module _ (contracts : Contracts) (v : EvaluationInput) (e : EffectFact)
    (evidence request cause : EvidenceEvent) (decision : EvidenceEvent × DecisionPayload) where
  identified_rows :
      (asked : EvidenceEvent) (a : ApprovalFact)
      → is_coherent_record contracts v e decision asked a ≡ true
      → a.approval_id ≡ expected_approval_id contracts v e
  unfolding is_coherent_record
  identified_rows asked a h = ==→≡ _ _ (and_true _ _ (and_true _ _ h).1).1

  asked_in_order :
      (asked : EvidenceEvent × ApprovalRequested)
      → is_coherent_request e decision asked ≡ true
      → (asked.1.action_digest ≡ e.request_digest) × (decision.0.sequence < asked.0.sequence)
  unfolding is_coherent_request
  asked_in_order asked h =
      let (digest, later) = and_true _ _ (and_true _ _ h).1 in (==→≡ _ _ digest, ltb→lt _ _ later)

  resolved_in_order :
      (asked : EvidenceEvent × ApprovalRequested) (a : ApprovalFact)
      (resolution : EvidenceEvent × ApprovalResolved)
      → is_coherent_resolution
          (expected_approval_id contracts v e)
          v.events
          evidence
          request
          cause
          asked
          a
          resolution
        ≡ true
      → (asked.0.sequence < resolution.0.sequence) × (resolution.0.sequence < evidence.sequence)
  unfolding is_coherent_resolution
  resolved_in_order asked a resolution h =
      let (tests, cites) = and_true _ _ h in
      let (ids, rest) = and_true _ _ tests in
      let (record_fits, order) = and_true _ _ rest in
      let (after, before) = and_true _ _ order in (ltb→lt _ _ after, ltb→lt _ _ before)

  resolved :
      (asked : EvidenceEvent × ApprovalRequested) (a : ApprovalFact)
      → last_with (λ x. x.approval_id == asked.1.approval_id) v.approvals ≡ some a
      → is_coherent_record contracts v e decision asked.0 a ≡ true
      → is_coherent_request e decision asked ≡ true
      → (resolution : EvidenceEvent × ApprovalResolved)
      → only (collect (resolution_of asked.0) v.events) ≡ some resolution
      → is_coherent_resolution
          (expected_approval_id contracts v e)
          v.events
          evidence
          request
          cause
          asked
          a
          resolution
        ≡ true
      → resolution.1.result ≡ approved
      → IsApproval contracts v e evidence decision asked resolution a
  resolved asked a stored coherent asked_fits resolution single fits result = record {
    only_resolution = only-some _ _ single;
    stored = stored;
    identity = identified_rows asked.0 a coherent;
    digest = (asked_in_order asked asked_fits).0;
    result = result;
    asked_after = (asked_in_order asked asked_fits).1;
    resolved_after = (resolved_in_order asked a resolution fits).0;
    evidence_after = (resolved_in_order asked a resolution fits).1;
  }

  approval_outcome-approved :
      (asked : EvidenceEvent × ApprovalRequested)
      → is_allowed
          (of_approval (approval_outcome contracts v e evidence request cause decision asked)).1
        ≡ true
      → (resolution : EvidenceEvent × ApprovalResolved) × (a : ApprovalFact) × IsApproval contracts
          v e evidence decision asked resolution a
  unfolding approval_outcome
  approval_outcome-approved asked h =
      elim (Option-cases (last_with (λ x. x.approval_id == asked.1.approval_id) v.approvals)) [
        | inl nothing ↦ absurd (ground arith)
        | inr (a, stored) ↦ elim (Option-cases (only (collect (resolution_of asked.0) v.events))) [
          | inl nothing ↦ absurd (ground arith)
          | inr (resolution, single) ↦
              let coherent : is_coherent_record contracts v e decision asked.0 a ≡ true =
                ground arith in
              let asked_fits : is_coherent_request e decision asked ≡ true = ground arith in
              let fits : is_coherent_resolution (expected_approval_id contracts v e) v.events
                    evidence request cause asked a resolution
                  ≡ true =
                ground arith in
              let result : same_status resolution.1.result approved ≡ true = ground arith in
              (
                resolution,
                a,
                resolved asked a stored coherent asked_fits resolution single fits
                    (same_status-approved resolution.1.result result),
              )
        ]
      ]

-- The policy allowed the effect, or a person approved it.
pub data IsPermitted (contracts : Contracts) (v : EvaluationInput) (e : EffectFact) (t : Trail)
    : Type 0 where
  by_policy : t.decision.1.decision ≡ allow → IsPermitted contracts v e t
  by_person :
      t.decision.1.decision ≡ require_approval
      → (asked : EvidenceEvent × ApprovalRequested)
      → (resolution : EvidenceEvent × ApprovalResolved) → (a : ApprovalFact)
      → collect (approval_request_of t.decision.0) v.events ≡ asked ∷ []
      → IsApproval contracts v e t.evidence.0 t.decision asked resolution a
      → IsPermitted contracts v e t

module _ (contracts : Contracts) (v : EvaluationInput) (e : EffectFact) (t : Trail) where
  approval-IsPermitted :
      (asks : List (EvidenceEvent × ApprovalRequested))
      → collect (approval_request_of t.decision.0) v.events ≡ asks
      → t.decision.1.decision ≡ require_approval
      → is_allowed
          (authorized_by_approval contracts v e t.evidence.0 t.request.0 t.cause t.decision).1
        ≡ true
      → IsPermitted contracts v e t
  unfolding authorized_by_approval
  approval-IsPermitted [] asks kind h = absurd (ground arith)
  approval-IsPermitted (asked ∷ []) asks kind h =
      let (resolution, a, approval) =
        approval_outcome-approved contracts v e t.evidence.0 t.request.0 t.cause t.decision asked
          (ground arith) in
      by_person kind asked resolution a asks approval
  approval-IsPermitted (asked ∷ other ∷ more) asks kind h = absurd (ground arith)

  pub authorize-IsPermitted :
      is_allowed (authorize contracts v e t.evidence.0 t.request.0 t.cause t.decision).1 ≡ true
      → IsPermitted contracts v e t
  unfolding authorize
  authorize-IsPermitted h = elim (DecisionKind-cases t.decision.1.decision) [
    | inl permitted ↦ by_policy permitted
    | inr (inl denied_by_policy) ↦ absurd (ground arith)
    | inr (inr asks) ↦ approval-IsPermitted _ refl asks (ground arith)
  ]
