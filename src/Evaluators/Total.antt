-- ===== src/Evaluators/Total.antt =====
-- The engine returns a result for every input of a well-named Run.
use chaosagent.Base.{
  ℕ, String, ◌≤◌, arith, ◌≡◌, ◌⊎◌, refl, ◌∙◌, true, Result, ok, err, Result-cases, inl, inr,
}
use chaosagent.Store.Identifiers.{is_identifier}
use chaosagent.Events.{max_safe_integer}
use chaosagent.Store.Texts.{concat}
use chaosagent.Evaluators.{EvaluationInput, Stop, EvaluationResult, Contracts}
use chaosagent.Evaluators.Lookups.{sort_by}
use chaosagent.Evaluators.Results.{evaluation_result, refusal, at_least_one, id_material}
use chaosagent.Evaluators.Verdict.{evaluate_loaded, malformed_result, evaluate_critical_gates}

-- the result for a malformed input
abbrev pub malformed_document : Contracts → EvaluationInput → EvaluationResult
malformed_document contracts v =
    refusal contracts v.run_id (at_least_one v.evidence_through_sequence)
      (at_least_one v.evidence_through_sequence)
      (concat "sha256:" (
        contracts.hashing.hexdigest (id_material v.run_id v.evidence_through_sequence "malformed")))
      "malformed_evaluator_input"

-- `accepts` is what the schema of results says of the engine's refusals: that name a Run by an identifier, a
-- sequence in its bounds, a digest and an evaluation as the engine writes them, and the code, without gates.
module _ (contracts : Contracts)
    (accepts : (run_id : String) (boundary shown : ℕ) (material : String)
      → is_identifier run_id ≡ true
      → 1 ≤ shown
      → shown ≤ max_safe_integer
      → contracts.is_evaluation_result (
          refusal contracts run_id boundary shown
            (concat "sha256:" (contracts.hashing.hexdigest material))
            "malformed_evaluator_input")
        ≡ true)
    (v : EvaluationInput) (identified : is_identifier v.run_id ≡ true)
    (bounded : v.evidence_through_sequence ≤ max_safe_integer) where
  malformed_result-ok : malformed_result contracts v ≡ ok (malformed_document contracts v)
  unfolding malformed_result evaluation_result sort_by
  malformed_result-ok =
      let boundary = at_least_one v.evidence_through_sequence in
      rw (
        accepts v.run_id boundary boundary
          (id_material v.run_id v.evidence_through_sequence "malformed") identified (ground arith)
          (ground arith))

  caught :
      (m : Result Stop EvaluationResult)
      → evaluate_loaded contracts v ≡ m
      → evaluate_critical_gates contracts v
        ≡ elim m [ ok result ↦ ok result | err e ↦ malformed_result contracts v ]
  unfolding evaluate_critical_gates
  caught m h = λ i. elim (h i) [ ok result ↦ ok result | err e ↦ malformed_result contracts v ]

  -- Where the schema accepts refusals of the engine's form, the evaluation of every input whose Run is named by an
  -- identifier and whose boundary is a safe integer returns: what the engine gives, or, where it stops with an
  -- exception, an invalid result without gates and with the code of a malformed input.
  pub evaluate-returns :
      (r : EvaluationResult) × (evaluate_critical_gates contracts v ≡ ok r)
      × ((evaluate_loaded contracts v ≡ ok r) ⊎ (r ≡ malformed_document contracts v))
  unfolding evaluate_critical_gates
  evaluate-returns = elim (Result-cases (evaluate_loaded contracts v)) [
    | inl (r, loaded) ↦ (r, caught (ok r) loaded, inl loaded)
    | inr (e, stopped) ↦
        (malformed_document contracts v, caught (err e) stopped ∙ malformed_result-ok, inr refl)
  ]
