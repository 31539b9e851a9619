-- ===== src/Evaluators/Judged.antt =====
-- A verdict other than invalid, taken apart from `evaluate_critical_gates` down.
use chaosagent.Base.{
  ◌≡◌, ◌≢◌, refl, sym, ap, ◌∙◌, String, true, List, [], ◌∷◌, map, ok, arith, bind_ok, ok_injective,
  Bool-cases, Option-cases, Result-cases, inl, inr,
}
use chaosagent.Store.Texts.{concat, text_lt}
use chaosagent.Json.{all_in}
use chaosagent.Faults.History.{is_unique}
use chaosagent.Evaluators.{
  Gate, EvaluationInput, Authority, IntegrityError, invalid, GateResult, EvaluationResult,
  Contracts,
}
use chaosagent.Evaluators.Lookups.{sort_by}
use chaosagent.Evaluators.Ledger.{Authorities, validate_authority}
use chaosagent.Evaluators.Results.{evaluation_result, invalid_result}
use chaosagent.Evaluators.Bounds.{bounded_input, input_document}
use chaosagent.Evaluators.FaultEvidence.{FaultRefs, validate_fault_evidence}
use chaosagent.Evaluators.Verdict.{
  state_agrees, referenced_faults, zero_digest, gates_of, evaluate_gates, with_integrity, classify,
  integrity, verdict, judge, evaluate_bounded, evaluate_loaded_on, evaluate_loaded,
  evaluate_critical_gates,
}
use chaosagent.Evaluators.Streams.{is_event_stream}
use chaosagent.Evaluators.Settled.{append-nil}
use chaosagent.Evaluators.Clean.{
  CleanAuthority, validate_authority-clean, evaluation_result-classification,
  invalid_result-classification, malformed_result-classification,
}

classify-errors :
    (errors : List IntegrityError) (results : List GateResult)
    → classify errors (with_integrity errors results) ≢ invalid
    → errors ≡ []
unfolding classify
classify-errors [] results h = refl
classify-errors (e ∷ es) results h = absurd (h (ground arith))

-- what `integrity` returns
abbrev Findings : Type 0
Findings = List IntegrityError × List (String × Authority) × FaultRefs

abbrev pub sorted_gates : EvaluationInput → List Gate
sorted_gates v = sort_by (λ a b. text_lt a.gate_id b.gate_id) (gates_of v.ground_truths)

-- What lies behind a verdict: the input as of its boundary, its authorities and the results of its gates.
pub record IsJudged (contracts : Contracts) (v w : EvaluationInput) (r : EvaluationResult)
    (a : Authorities) (results : List GateResult) : Type 0 where
  pub bounded : bounded_input v ≡ ok w
  pub stream : is_event_stream contracts true w.events ≡ true
  pub clean : CleanAuthority contracts w a
  pub refs : FaultRefs
  pub observed : validate_fault_evidence contracts w ≡ ([], refs)
  pub evaluated : evaluate_gates w a.by_effect refs (sorted_gates w) ≡ ok results
  pub classified : classify [] results ≡ r.classification

module _ (contracts : Contracts) where
  -- what `judge` gives
  record Judgement (v w : EvaluationInput) (r : EvaluationResult) : Type 0 where
    a : Authorities
    clean : CleanAuthority contracts w a
    refs : FaultRefs
    observed : validate_fault_evidence contracts w ≡ ([], refs)
    results : List GateResult
    evaluated : evaluate_gates w a.by_effect refs (sorted_gates w) ≡ ok results
    classified : classify [] results ≡ r.classification

  not_invalid :
      (v : EvaluationInput) (digest code : String) (r : EvaluationResult)
      → r.classification ≢ invalid
      → invalid_result contracts v digest code ≢ ok r
  not_invalid v digest code r valid h =
      valid (sym (invalid_result-classification contracts v digest code r h))

  integrity-clean :
      (v w : EvaluationInput) (found : Findings)
      → integrity contracts v w ≡ ok found
      → found.0 ≡ []
      → (a : Authorities) × CleanAuthority contracts w a
        × (a.by_effect ≡ found.1)
        × (validate_fault_evidence contracts w ≡ ([], found.2))
  unfolding integrity
  integrity-clean v w found h none_found =
      let (a, validated, on) = bind_ok (validate_authority contracts w) _ found h in
      let (disagreement, compared, returned) = bind_ok (state_agrees _ _ _) _ found on in
      let same = ok_injective _ found _ refl returned in
      let errors = append-nil a.errors _ (ap (λ (x : Findings). x.0) same ∙ none_found) in
      let faults = append-nil (validate_fault_evidence contracts w).0 _ errors.1 in
      (
        a,
        validate_authority-clean contracts w a validated errors.0,
        ap (λ (x : Findings). x.1) same,
        λ i. (faults.0 i, ap (λ (x : Findings). x.2) same i),
      )

  judge-Judgement :
      (v w : EvaluationInput) (digest : String) (r : EvaluationResult)
      → judge contracts v w digest ≡ ok r
      → r.classification ≢ invalid
      → Judgement v w r
  unfolding judge verdict
  judge-Judgement v w digest r h valid =
      let (found, sound, on) = bind_ok (integrity contracts v w) _ r h in
      elim (Bool-cases (is_unique (map (λ g. g.gate_id) (gates_of w.ground_truths)))) [
        | inr repeated ↦ absurd (not_invalid w digest "duplicate_gate_id" r valid (ground arith))
        | inl unique ↦
            elim (Bool-cases (
              all_in (referenced_faults (gates_of w.ground_truths))
                (map (λ f. f.id) w.scenario.faults))) [
                  | inr unknown ↦ absurd (
                      not_invalid w digest "ground_truth_fault_reference_invalid" r valid
                        (ground arith))
                  | inl known ↦
                      let (results, evaluated, last) =
                        bind_ok (evaluate_gates w found.1 found.2 (sorted_gates w))
                          (λ results.
                            evaluation_result contracts
                              (verdict contracts w digest found.0 results))
                          r (ground arith) in
                      let classified =
                        evaluation_result-classification contracts
                          (verdict contracts w digest found.0 results) r last in
                      let errors =
                        classify-errors found.0 results (λ wrong. valid (sym classified ∙ wrong)) in
                      let (a, clean, same, observed) = integrity-clean v w found sound errors in
                      record {
                        a = a;
                        clean = clean;
                        refs = found.2;
                        observed = observed;
                        results = results;
                        evaluated =
                            ap
                              (λ (x : List (String × Authority)).
                                evaluate_gates w x found.2 (sorted_gates w))
                              same
                            ∙ evaluated;
                        classified =
                            ap (λ (x : List IntegrityError). classify x (with_integrity x results))
                              (sym errors)
                            ∙ classified;
                      }
                ]
      ]

  evaluate_bounded-Judgement :
      (v w : EvaluationInput) (digest : String) (r : EvaluationResult)
      → evaluate_bounded contracts v w digest ≡ ok r
      → r.classification ≢ invalid
      → (is_event_stream contracts true w.events ≡ true) × (judge contracts v w digest ≡ ok r)
  unfolding evaluate_bounded
  evaluate_bounded-Judgement v w digest r h valid = ground (
    arith,
    not_invalid w digest "invalid_evidence_boundary" r valid,
    not_invalid w digest "missing_evidence_boundary" r valid,
    not_invalid w digest "invalid_event_stream" r valid,
    not_invalid w digest "cross_run_evidence" r valid,
    not_invalid w digest "ground_truth_binding_invalid" r valid,
  )

  evaluate_loaded-IsJudged :
      (v : EvaluationInput) (r : EvaluationResult)
      → evaluate_loaded contracts v ≡ ok r
      → r.classification ≢ invalid
      → (w : EvaluationInput) × (a : Authorities) × (results : List GateResult) × IsJudged contracts
          v w r a results
  unfolding evaluate_loaded evaluate_loaded_on
  evaluate_loaded-IsJudged v r h valid =
      let (w, bounded, on) = bind_ok (bounded_input v) _ r h in
      elim (Option-cases (contracts.dumps_input (input_document w))) [
        | inl nothing ↦ absurd (
            not_invalid w (zero_digest contracts) "malformed_evaluator_input" r valid
              (ground arith))
        | inr (canonical, dumped) ↦
            let digest = concat "sha256:" (contracts.hashing.hexdigest canonical) in
            let (stream, judged) = evaluate_bounded-Judgement v w digest r (ground arith) valid in
            let j = judge-Judgement v w digest r judged valid in
            (
              w,
              j.a,
              j.results,
              record {
                bounded = bounded;
                stream = stream;
                clean = j.clean;
                refs = j.refs;
                observed = j.observed;
                evaluated = j.evaluated;
                classified = j.classified;
              },
            )
      ]

  pub evaluate-IsJudged :
      (v : EvaluationInput) (r : EvaluationResult)
      → evaluate_critical_gates contracts v ≡ ok r
      → r.classification ≢ invalid
      → (w : EvaluationInput) × (a : Authorities) × (results : List GateResult) × IsJudged contracts
          v w r a results
  unfolding evaluate_critical_gates
  evaluate-IsJudged v r h valid = elim (Result-cases (evaluate_loaded contracts v)) [
    | inl (x, loaded) ↦ evaluate_loaded-IsJudged v r (ground arith) valid
    | inr (e, stopped) ↦
        absurd (valid (sym (malformed_result-classification contracts v r (ground arith))))
  ]
