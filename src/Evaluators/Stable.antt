-- ===== src/Evaluators/Stable.antt =====
-- A verdict does not depend on what happened after its boundary, and the engine always returns one.
use chaosagent.Base.{
  ◌≡◌, refl, sym, ap, ◌∙◌, ℕ, String, Bool, true, false, Option, none, some, List, [], ◌∷◌, ◌++◌,
  map, filter, leb, string_eq, contains, Result, ok, err, ◌>>=◌, arith, All, All-map, Bool-cases,
  inl, inr,
}
use mathlib.Core.Path.{fun_ext}
use chaosagent.Store.Texts.{concat}
use chaosagent.Evaluators.{
  EvidenceEvent, EffectFact, ApprovalStatus, pending, ApprovalFact, EvaluationInput, CompanyState,
  Stop, EvaluationResult, Contracts,
}
use chaosagent.Evaluators.Lookups.{collect, any_of}
use chaosagent.Evaluators.State.{evidence_sequences, sequenced, bounded_effects, replay_state}
use chaosagent.Evaluators.Results.{invalid_result}
use chaosagent.Evaluators.Bounds.{
  bounded_events, is_resolved_by, bounded_approval, events_within, effects_within, as_of_boundary,
  bounded_input, has_later_evidence, input_document,
}
use chaosagent.Evaluators.Verdict.{
  state_agrees, integrity, judge, evaluate_bounded, evaluate_loaded_on, evaluate_loaded,
  malformed_result, zero_digest, evaluate_critical_gates,
}

filter-later {ℓ} :
    {A : Type ℓ} (p : A → Bool) (xs later : List A)
    → All (λ x. p x ≡ false) later
    → filter p (xs ++ later) ≡ filter p xs
filter-later p [] [] h = refl
filter-later p [] (y ∷ ys) h = rw h.0 (filter-later p [] ys h.1)
filter-later p (x ∷ xs) later h = rw (filter-later p xs later h)

collect-later {ℓ κ} :
    {A : Type ℓ} {B : Type κ} (f : A → Option B) (xs later : List A)
    → All (λ x. f x ≡ none) later
    → collect f (xs ++ later) ≡ collect f xs
unfolding collect
collect-later f [] [] h = refl
collect-later f [] (y ∷ ys) h = rw (h.0, collect) (collect-later f [] ys h.1)
collect-later {B} f (x ∷ xs) later h =
    ap (λ (rest : List B). let all : List B = elim (f x) [ none ↦ rest | some y ↦ y ∷ rest ] in all)
      (collect-later f xs later h)

any_of-later {ℓ} :
    {A : Type ℓ} (p : A → Bool) (xs later : List A)
    → any_of p xs ≡ true
    → any_of p (xs ++ later) ≡ true
any_of-later p [] later h = absurd (ground arith)
any_of-later p (x ∷ xs) later h = elim (Bool-cases (p x)) [
  | inl here ↦ rw here
  | inr there ↦ rw there (any_of-later p xs later (ground arith))
]

-- Approvals that a Run has later: some of the pending ones are resolved, by events that are not among the known.
pub data ResolvesTo (known : List String) : List ApprovalFact → List ApprovalFact → Type 0 where
  nothing : ResolvesTo known [] []
  same :
      (a : ApprovalFact) {old new : List ApprovalFact}
      → ResolvesTo known old new
      → ResolvesTo known (a ∷ old) (a ∷ new)
  resolved :
      (a : ApprovalFact) (status : ApprovalStatus) (id : String) {old new : List ApprovalFact}
      → a.status ≡ pending
      → a.resolution_event_id ≡ none
      → contains id known ≡ false
      → ResolvesTo known old new
      → ResolvesTo known
          (a ∷ old)
          (record a { status = status; resolution_event_id = some id } ∷ new)

later_resolution :
    (known : List EvidenceEvent) (a : ApprovalFact) (status : ApprovalStatus) (id : String)
    → a.status ≡ pending
    → a.resolution_event_id ≡ none
    → contains id (map (λ e. e.event_id) known) ≡ false
    → bounded_approval known (record a { status = status; resolution_event_id = some id })
      ≡ bounded_approval known a
later_resolution known a status id waiting unanswered unknown =
    elim (Bool-cases (contains a.request_event_id (map (λ e. e.event_id) known))) [
      | inr unasked ↦ rw unasked refl
      | inl asked ↦
          let reset : record a { status = pending; resolution_event_id = none } ≡ a =
            (λ i. record a { status = sym waiting i; resolution_event_id = sym unanswered i }) in
          let current : is_resolved_by known a ≡ true = rw unanswered refl in
          let kept : bounded_approval known a ≡ some a = rw (asked, current) refl in
          rw (asked, unknown) (ap some reset) ∙ sym kept
    ]

-- As of the boundary a later resolution has not happened.
bounded-ResolvesTo :
    (known : List EvidenceEvent) {old new : List ApprovalFact}
    → ResolvesTo (map (λ e. e.event_id) known) old new
    → collect (bounded_approval known) new ≡ collect (bounded_approval known) old
unfolding collect
bounded-ResolvesTo known nothing = refl
bounded-ResolvesTo known (same a rest) = λ i. elim (bounded_approval known a) [
  | none ↦ bounded-ResolvesTo known rest i
  | some y ↦ y ∷ bounded-ResolvesTo known rest i
]
bounded-ResolvesTo known (resolved a status id waiting unanswered unknown rest) = λ i.
    elim (later_resolution known a status id waiting unanswered unknown i) [
      | none ↦ bounded-ResolvesTo known rest i
      | some y ↦ y ∷ bounded-ResolvesTo known rest i
    ]

-- The input after more events, effects and approvals, with other approvals in the place of those there were, and
-- another state of the company.
abbrev pub grown :
    EvaluationInput
    → List EvidenceEvent
    → List EffectFact
    → List ApprovalFact
    → List ApprovalFact
    → CompanyState
    → EvaluationInput
grown v events effects resolutions approvals state = record v {
  events = v.events ++ events;
  effects = v.effects ++ effects;
  approvals = resolutions ++ approvals;
  final_state = state;
}

module _ (contracts : Contracts) where
  integrity-later :
      (s s' w : EvaluationInput)
      → has_later_evidence s ≡ true
      → has_later_evidence s' ≡ true
      → integrity contracts s w ≡ integrity contracts s' w
  unfolding integrity state_agrees
  integrity-later s s' w h h' = rw (h, h')

  judge-later :
      (s s' w : EvaluationInput) (digest : String)
      → has_later_evidence s ≡ true
      → has_later_evidence s' ≡ true
      → judge contracts s w digest ≡ judge contracts s' w digest
  unfolding judge
  judge-later s s' w digest h h' = rw (integrity-later s s' w h h')

  evaluate_bounded-later :
      (s s' w : EvaluationInput) (digest : String)
      → has_later_evidence s ≡ true
      → has_later_evidence s' ≡ true
      → evaluate_bounded contracts s w digest ≡ evaluate_bounded contracts s' w digest
  unfolding evaluate_bounded
  evaluate_bounded-later s s' w digest h h' = rw (judge-later s s' w digest h h')

  onward-later :
      (s s' : EvaluationInput)
      → has_later_evidence s ≡ true
      → has_later_evidence s' ≡ true
      → (w : EvaluationInput) → evaluate_loaded_on contracts s w ≡ evaluate_loaded_on contracts s' w
  unfolding evaluate_loaded_on
  onward-later s s' h h' w = λ i. elim (contracts.dumps_input (input_document w)) [
    | none ↦ invalid_result contracts w (zero_digest contracts) "malformed_evaluator_input"
    | some canonical ↦
        evaluate_bounded-later s s' w (concat "sha256:" (contracts.hashing.hexdigest canonical)) h
          h' i
  ]

  module _ (v : EvaluationInput) (events : List EvidenceEvent) (effects : List EffectFact)
      (resolutions approvals : List ApprovalFact) (state : CompanyState)
      (after : All (λ e. leb e.sequence v.evidence_through_sequence ≡ false) events)
      (unevidenced : All (λ e. sequenced (evidence_sequences (events_within v)) e ≡ none) effects)
      (answered : ResolvesTo (map (λ e. e.event_id) (events_within v)) v.approvals resolutions)
      (unasked : All
        (λ a. contains a.request_event_id (map (λ e. e.event_id) (events_within v)) ≡ false)
        approvals) where
    events-grown :
        events_within (grown v events effects resolutions approvals state) ≡ events_within v
    unfolding bounded_events
    events-grown = filter-later _ v.events events after

    effects-grown :
        effects_within (grown v events effects resolutions approvals state) ≡ effects_within v
    unfolding bounded_effects
    effects-grown =
        ap
          (λ (x : List EvidenceEvent).
            bounded_effects (evidence_sequences x) (v.effects ++ effects))
          events-grown
        ∙ collect-later _ v.effects effects unevidenced

    approvals-grown :
        collect
          (bounded_approval (events_within (grown v events effects resolutions approvals state)))
          (resolutions ++ approvals)
        ≡ collect (bounded_approval (events_within v)) v.approvals
    approvals-grown =
        ap (λ (x : List EvidenceEvent). collect (bounded_approval x) (resolutions ++ approvals))
          events-grown
        ∙ collect-later _ resolutions approvals
            (All-map _ _ approvals (λ a asked. rw asked) unasked)
        ∙ bounded-ResolvesTo (events_within v) answered

    as_of_boundary-grown :
        (s : CompanyState)
        → as_of_boundary (grown v events effects resolutions approvals state) s ≡ as_of_boundary v s
    unfolding as_of_boundary
    as_of_boundary-grown s = λ i. record v {
      events = events-grown i;
      final_state = s;
      effects = map (λ e. e.1) (effects-grown i);
      approvals = approvals-grown i;
    }

    bounded_input-grown :
        bounded_input (grown v events effects resolutions approvals state) ≡ bounded_input v
    unfolding bounded_input
    bounded_input-grown =
        ap
          (λ (x : List (ℕ × EffectFact)).
            replay_state v.initial_state x
            >>= (λ s. ok (as_of_boundary (grown v events effects resolutions approvals state) s)))
          effects-grown
        ∙ ap
            (λ (f : CompanyState → EvaluationInput).
              replay_state v.initial_state (effects_within v) >>= (λ s. ok (f s)))
            (fun_ext as_of_boundary-grown)

    evaluate_loaded-grown :
        has_later_evidence v ≡ true
        → evaluate_loaded contracts (grown v events effects resolutions approvals state)
          ≡ evaluate_loaded contracts v
    unfolding evaluate_loaded
    evaluate_loaded-grown later =
        ap
          (λ (m : Result Stop EvaluationInput).
            m >>= evaluate_loaded_on contracts (grown v events effects resolutions approvals state))
          bounded_input-grown
        ∙ ap (λ (f : EvaluationInput → Result Stop EvaluationResult). bounded_input v >>= f)
            (fun_ext (
              onward-later (grown v events effects resolutions approvals state) v
                (any_of-later _ v.events events later) later))

  -- Events after the boundary, effects without evidence within it, approvals that were not requested within it,
  -- resolutions of pending approvals by events that are not within it, and another final state leave the evaluation of an input that already has a later event as it is.
  pub evaluate-grown :
      (v : EvaluationInput) (events : List EvidenceEvent) (effects : List EffectFact)
      (resolutions approvals : List ApprovalFact) (state : CompanyState)
      → has_later_evidence v ≡ true
      → All (λ e. leb e.sequence v.evidence_through_sequence ≡ false) events
      → All (λ e. sequenced (evidence_sequences (events_within v)) e ≡ none) effects
      → ResolvesTo (map (λ e. e.event_id) (events_within v)) v.approvals resolutions
      → All
          (λ a. contains a.request_event_id (map (λ e. e.event_id) (events_within v)) ≡ false)
          approvals
      → evaluate_critical_gates contracts (grown v events effects resolutions approvals state)
        ≡ evaluate_critical_gates contracts v
  unfolding evaluate_critical_gates malformed_result
  evaluate-grown v events effects resolutions approvals state later after unevidenced answered
        unasked =
      ap
        (λ (m : Result Stop EvaluationResult).
          let r : Result Stop EvaluationResult = elim m [
            | ok result ↦ ok result
            | err e ↦ malformed_result contracts v
          ] in
          r)
        (evaluate_loaded-grown v events effects resolutions approvals state after unevidenced
          answered unasked later)
