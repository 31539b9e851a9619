-- ===== src/Evaluators/Sound.antt =====
-- What a verdict of the evaluator stands for.
use chaosagent.Base.{
  ◌≡◌, ◌≢◌, refl, sym, ap, subst, ◌∙◌, true, false, List, [], ◌∷◌, nat_eq, string_eq, ok, arith,
  All, All-map, bind_ok, ok_injective, Bool-cases, inl, inr,
}
use chaosagent.Faults.History.{same_set}
use chaosagent.Evaluators.{
  Gate, EvaluationInput, GroundTruth, identities_disagree, passed, failed, errored, pass, invalid,
  GateStatus, GateResult, EvaluationResult, Contracts,
}
use chaosagent.Evaluators.Lookups.{collect}
use chaosagent.Evaluators.Ledger.{
  Tables, Authorities, closing_errors, effect_ids, evidenced_id, error_unless,
}
use chaosagent.Evaluators.Gates.{evaluate_gate}
use chaosagent.Evaluators.Results.{gate_status_beq, has_status}
use chaosagent.Evaluators.Bounds.{bounded_input, as_of_boundary, effects_within}
use chaosagent.Evaluators.State.{replay_state}
use chaosagent.Evaluators.FaultEvidence.{FaultRefs, validate_fault_evidence}
use chaosagent.Evaluators.Verdict.{gates_of, evaluate_gates, classify, evaluate_critical_gates}
use chaosagent.Evaluators.Settled.{append-nil}
use chaosagent.Evaluators.Rounds.{IsSettled}
use chaosagent.Evaluators.Clean.{CleanAuthority}
use chaosagent.Evaluators.Judged.{sorted_gates, evaluate-IsJudged}
use chaosagent.Evaluators.Holds.{IsEvidenced, Holds, All-sort_by, settled-IsEvidenced, gate-Holds}

bounded_input-truths :
    (v w : EvaluationInput) → bounded_input v ≡ ok w → w.ground_truths ≡ v.ground_truths
unfolding bounded_input as_of_boundary
bounded_input-truths v w h =
    let (state, replayed, returned) =
      bind_ok (replay_state v.initial_state (effects_within v)) (λ s. ok (as_of_boundary v s)) w
        h in
    let same =
      ok_injective (as_of_boundary v state) w (ok (as_of_boundary v state)) refl returned in
    sym (ap (λ (x : EvaluationInput). x.ground_truths) same)

status-passed :
    (s : GateStatus)
    → gate_status_beq s errored ≡ false
    → gate_status_beq s failed ≡ false
    → s ≡ passed
status-passed passed h k = refl
status-passed failed h k = absurd (ground arith)
status-passed errored h k = absurd (ground arith)

no_status :
    (s : GateStatus) (g : GateResult) (results : List GateResult)
    → has_status s (g ∷ results) ≡ false
    → (gate_status_beq g.status s ≡ false) × (has_status s results ≡ false)
no_status s g results h = elim (Bool-cases (gate_status_beq g.status s)) [
  | inl same ↦ absurd (ground arith)
  | inr other ↦ (other, ground arith)
]

classify-pass :
    (results : List GateResult)
    → classify [] results ≡ pass
    → (has_status errored results ≡ false) × (has_status failed results ≡ false)
unfolding classify
classify-pass results h = elim (Bool-cases (has_status errored results)) [
  | inl wrong ↦ absurd (ground arith)
  | inr right ↦ elim (Bool-cases (has_status failed results)) [
    | inl wrong ↦ absurd (ground arith)
    | inr good ↦ (right, good)
  ]
]

module _ (contracts : Contracts) (w : EvaluationInput) (b : Authorities) (refs : FaultRefs)
    (clean : CleanAuthority contracts w b)
    (seen : validate_fault_evidence contracts w ≡ ([], refs)) where
  gates-Hold :
      (gates : List Gate) (results : List GateResult)
      → evaluate_gates w b.by_effect refs gates ≡ ok results
      → has_status errored results ≡ false
      → has_status failed results ≡ false
      → All (Holds contracts w) gates
  unfolding evaluate_gates
  gates-Hold [] results h fine good = tt
  gates-Hold (g ∷ gs) results h fine good =
      let (r, evaluated, on) = bind_ok (evaluate_gate w b.by_effect refs g) _ results h in
      let (rs, rest, returned) = bind_ok (evaluate_gates w b.by_effect refs gs) _ results on in
      let made = ok_injective (r ∷ rs) results _ refl returned in
      let (fine_here, fine_there) = no_status errored r rs (ap (has_status errored) made ∙ fine) in
      let (good_here, good_there) = no_status failed r rs (ap (has_status failed) made ∙ good) in
      (
        gate-Holds contracts w b clean g.gate_id g.kind refs r seen evaluated
            (status-passed r.status fine_here good_here),
        gates-Hold gs rs rest fine_there good_there,
      )

closing-identities :
    (w : EvaluationInput) (t : Tables)
    → closing_errors w t ≡ []
    → same_set (collect evidenced_id w.events) (effect_ids w.effects) ≡ true
unfolding closing_errors
closing-identities w t h =
    elim (Bool-cases (same_set (collect evidenced_id w.events) (effect_ids w.effects))) [
      | inl same ↦ same
      | inr other ↦
          let parts =
            append-nil _
              (error_unless (same_set (collect evidenced_id w.events) (effect_ids w.effects))
                identities_disagree)
              h in
          absurd (ground (arith, parts.1))
    ]

pass-ne-invalid : pass ≢ invalid
pass-ne-invalid h = absurd (ground arith)

module _ (contracts : Contracts) (v : EvaluationInput) (r : EvaluationResult) where
  -- Where the evaluation of an input returns a pass, every gate of its ground truths holds of the input as of
  -- its boundary: refunds, tickets and effects are as many as it asks, every effect of the kinds that it
  -- guards has a trail of events that permitted it, the final answer is the claim and an effect supports it,
  -- its faults were observed, and the costs are complete and within the budgets.
  pub pass-Holds :
      evaluate_critical_gates contracts v ≡ ok r
      → r.classification ≡ pass
      → (w : EvaluationInput) × (bounded_input v ≡ ok w)
        × All (Holds contracts w) (gates_of v.ground_truths)
  pass-Holds h passes =
      let (w, a, results, j) =
        evaluate-IsJudged contracts v r h
          (λ wrong. absurd (pass-ne-invalid (sym passes ∙ wrong))) in
      let (fine, good) = classify-pass results (j.classified ∙ passes) in
      (
        w,
        j.bounded,
        subst (λ (x : List GroundTruth). All (Holds contracts w) (gates_of x))
            (bounded_input-truths v w j.bounded)
            (All-sort_by (Holds contracts w) _ (gates_of w.ground_truths) (
              gates-Hold contracts w a j.refs j.clean j.observed (sorted_gates w) results
                j.evaluated fine good)),
      )

  -- Where the evaluation of an input returns a verdict other than invalid, every effect of the input as of its
  -- boundary has its trail: exactly one evidence event, which names exactly one tool request; the one
  -- description that the execution recorded of that request, whose arguments have the digest that the request
  -- gives, and with the tool and its contract the digest of the effect; and exactly one decision of the policy
  -- between the request and the evidence. And these effects are exactly those that the evidence of business
  -- effects within the boundary names.
  pub verdict-IsEvidenced :
      evaluate_critical_gates contracts v ≡ ok r
      → r.classification ≢ invalid
      → (w : EvaluationInput) × (bounded_input v ≡ ok w)
        × All (IsEvidenced contracts w) w.effects
        × (same_set (collect evidenced_id w.events) (effect_ids w.effects) ≡ true)
  verdict-IsEvidenced h valid =
      let (w, a, results, j) = evaluate-IsJudged contracts v r h valid in
      (
        w,
        j.bounded,
        All-map (IsSettled contracts w j.clean.tables a) (IsEvidenced contracts w) w.effects
            (settled-IsEvidenced contracts w a j.clean) j.clean.settled,
        closing-identities w j.clean.tables j.clean.closing,
      )
