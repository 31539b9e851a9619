-- ===== src/Evaluators/Trails.antt =====
-- The trail of events that an effect has when a round of the loop over the effects comes to its end.
use chaosagent.Base.{
  ◌≡◌, refl, sym, ap, subst, ◌∙◌, true, ◌&&◌, some, List, [], ◌∷◌, ltb, ◌==◌, nat_eq, string_eq,
  is_some_of, ok, or_raise, arith, bind_ok, require_ok, ok_injective, or_raise-some, ==→≡, and_true,
}
use chaosagent.Faults.History.{only}
use chaosagent.Evaluators.{
  DecisionPayload, StateEvidence, EvidenceEvent, EffectFact, RequestDetail, EvaluationInput,
  lacks_evidence, contradicts_ledger, missing_related, no_unique_request, request_inconsistent,
  no_unique_decision, decision_inconsistent, noted, Contracts,
}
use chaosagent.Evaluators.Lookups.{last_with, collect}
use chaosagent.Evaluators.Chains.{
  Asked, evidence_of, request_entry, decision_of, events_of, digest_of, request_document,
  is_request_of, is_evidence_for, is_decision_for, evidence_chain, request_chain, decision_chain,
}

pub only-some {ℓ} : {A : Type ℓ} (xs : List A) (a : A) → only xs ≡ some a → xs ≡ a ∷ []
only-some [] a h = absurd (ground arith)
only-some (x ∷ []) a h = ground arith
only-some (x ∷ y ∷ ys) a h = absurd (ground arith)

-- The events that a round has found for an effect.
pub record Trail : Type 0 where
  pub evidence : EvidenceEvent × StateEvidence
  pub named : List EvidenceEvent
  pub request : EvidenceEvent × Asked
  pub detail : RequestDetail
  pub cause : EvidenceEvent
  pub decision : EvidenceEvent × DecisionPayload

pub record IsTrail (contracts : Contracts) (v : EvaluationInput) (details : List RequestDetail)
    (e : EffectFact) (t : Trail) : Type 0 where
  pub only_evidence : collect (evidence_of e.effect_id) v.events ≡ t.evidence ∷ []
  pub evidence_fits : is_evidence_for e t.evidence.1 ≡ true
  pub related : events_of t.evidence.1.related_event_ids v.events ≡ some t.named
  pub only_request : collect request_entry t.named ≡ t.request ∷ []
  pub described :
      last_with (λ d. d.request_event_id == t.request.0.event_id) details ≡ some t.detail
  pub request_fits : is_request_of e t.request.1 t.detail ≡ true
  pub arguments_fit : digest_of contracts t.detail.arguments ≡ ok t.request.1.1
  pub digest_fits :
      digest_of contracts (request_document e t.detail.arguments) ≡ ok e.request_digest
  pub only_decision : collect (decision_of t.request.0) v.events ≡ t.decision ∷ []
  pub decision_fits : is_decision_for v.scenario.policy e t.evidence.0 t.request.0 t.decision ≡ true

pub evidence_chain-ok :
    (events : List EvidenceEvent) (e : EffectFact)
    (c : EvidenceEvent × StateEvidence × List EvidenceEvent)
    → evidence_chain events e ≡ ok c
    → (collect (evidence_of e.effect_id) events ≡ (c.0, c.1) ∷ [])
      × (is_evidence_for e c.1 ≡ true)
      × (events_of c.1.related_event_ids events ≡ some c.2)
unfolding evidence_chain
evidence_chain-ok events e c h =
    let (found, single, on) =
      bind_ok (or_raise (only (collect (evidence_of e.effect_id) events)) (noted lacks_evidence)) _
        c h in
    let (fits, on2) = require_ok (is_evidence_for e found.1) (noted contradicts_ledger) _ c on in
    let (named, there, returned) =
      bind_ok (or_raise (events_of found.1.related_event_ids events) (noted missing_related)) _ c
        on2 in
    let made = ok_injective (found.0, found.1, named) c _ refl returned in
    (
      only-some _ _ (or_raise-some (noted lacks_evidence) _ single)
          ∙ ap (λ (x : EvidenceEvent × StateEvidence × List EvidenceEvent). (x.0, x.1) ∷ []) made,
      ap (λ (x : EvidenceEvent × StateEvidence × List EvidenceEvent). is_evidence_for e x.1)
            (sym made)
          ∙ fits,
      subst
          (λ (x : EvidenceEvent × StateEvidence × List EvidenceEvent).
            events_of x.1.related_event_ids events ≡ some x.2)
          made (or_raise-some (noted missing_related) _ there),
    )

-- The request that a chain returns, with its description.
pub record IsRequest (contracts : Contracts) (details : List RequestDetail) (e : EffectFact)
    (named : List EvidenceEvent) (request : EvidenceEvent × Asked) (detail : RequestDetail)
    : Type 0 where
  pub only_request : collect request_entry named ≡ request ∷ []
  pub described : last_with (λ d. d.request_event_id == request.0.event_id) details ≡ some detail
  pub request_fits : is_request_of e request.1 detail ≡ true
  pub arguments_fit : digest_of contracts detail.arguments ≡ ok request.1.1
  pub digest_fits : digest_of contracts (request_document e detail.arguments) ≡ ok e.request_digest

recorded_arguments :
    (e : EffectFact) (asked : Asked) (detail : RequestDetail)
    → is_request_of e asked detail ≡ true
    → asked.1 ≡ detail.arguments_digest
unfolding is_request_of
recorded_arguments e asked detail h =
    ==→≡ _ _ (and_true _ _ (and_true _ _ (and_true _ _ (and_true _ _ h).0).1).0).0

pub request_chain-ok :
    (contracts : Contracts) (details : List RequestDetail) (e : EffectFact)
    (evidence : EvidenceEvent) (named : List EvidenceEvent) (r : EvidenceEvent)
    → request_chain contracts details e evidence named ≡ ok r
    → (request : EvidenceEvent × Asked) × (detail : RequestDetail) × (r ≡ request.0)
      × IsRequest contracts details e named request detail
unfolding request_chain
request_chain-ok contracts details e evidence named r h =
    let (request, single, on) =
      bind_ok (or_raise (only (collect request_entry named)) (noted no_unique_request)) _ r h in
    let (detail, described, on2) =
      bind_ok
        (or_raise (last_with (λ d. d.request_event_id == request.0.event_id) details)
          (noted request_inconsistent))
        _ r on in
    let (fits, on3) =
      require_ok (is_request_of e request.1 detail) (noted request_inconsistent) _ r on2 in
    let (arguments_digest, digested, on4) =
      bind_ok (digest_of contracts detail.arguments) _ r on3 in
    let (same, on5) =
      require_ok (arguments_digest == detail.arguments_digest) (noted request_inconsistent) _ r
        on4 in
    let (request_digest, digested2, on6) =
      bind_ok (digest_of contracts (request_document e detail.arguments)) _ r on5 in
    let (same2, on7) =
      require_ok (request_digest == e.request_digest) (noted request_inconsistent) _ r on6 in
    let (timely, returned) =
      require_ok
        (is_some_of evidence.correlation_id e.logical_call_id
          && ltb request.0.sequence evidence.sequence)
        (noted request_inconsistent) _ r on7 in
    (
      request,
      detail,
      sym (ok_injective request.0 r _ refl returned),
      record {
        only_request = only-some _ _ (or_raise-some (noted no_unique_request) _ single);
        described = or_raise-some (noted request_inconsistent) _ described;
        request_fits = fits;
        arguments_fit =
            digested
            ∙ ap ok (
                ==→≡ arguments_digest detail.arguments_digest same
                ∙ sym (recorded_arguments e request.1 detail fits));
        digest_fits = digested2 ∙ ap ok (==→≡ request_digest e.request_digest same2);
      },
    )

pub decision_chain-ok :
    (v : EvaluationInput) (e : EffectFact) (evidence request : EvidenceEvent)
    (c : EvidenceEvent × DecisionPayload)
    → decision_chain v.scenario.policy v.events e evidence request ≡ ok c
    → (collect (decision_of request) v.events ≡ c ∷ [])
      × (is_decision_for v.scenario.policy e evidence request c ≡ true)
unfolding decision_chain
decision_chain-ok v e evidence request c h =
    let (decision, single, on) =
      bind_ok (or_raise (only (collect (decision_of request) v.events)) (noted no_unique_decision))
        _ c h in
    let (fits, returned) =
      require_ok (is_decision_for v.scenario.policy e evidence request decision)
        (noted decision_inconsistent) _ c on in
    let made = ok_injective decision c _ refl returned in
    (
      only-some _ _ (or_raise-some (noted no_unique_decision) _ single)
          ∙ ap (λ (x : EvidenceEvent × DecisionPayload). x ∷ []) made,
      ap (is_decision_for v.scenario.policy e evidence request) (sym made) ∙ fits,
    )
