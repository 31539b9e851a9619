-- ===== src/Faults/Directives.antt =====
-- The checks that a matched rule passes in a round of the engine
-- (packages/faults/src/chaosagent_faults/application.py), and what the round of such rules returns.
use chaosagent.Base.{
  ◌≡◌, ◌⊎◌, refl, ◌∙◌, String, Bool, true, false, Option, none, some, List, [], ◌∷◌, ◌==◌, nat_eq,
  string_eq, contains, Result, ok, err, ◌>>=◌, Result-cases, Bool-cases, Option-cases, inl, inr,
  arith, if◌then◌else◌, All,
}
use chaosagent.Json.{Members}
use chaosagent.Faults.{
  FaultPhase, before_tool, phase_eq, kinds_by_phase, FaultKind, delay, kind_eq, FaultError,
  CompiledFaultRule, FaultDecision,
}
use chaosagent.Faults.Application.{FaultFailureCode, activation_of, has_parameters}
use chaosagent.Faults.Engine.{
  Progress, applying, slept, is_failing, failure_code, before_directive, transform, after_directive,
  run_rules,
}
use chaosagent.Faults.Effects.{is_delay}

-- A matched rule that passes the checks that a round makes first.
abbrev pub IsChecked : List FaultDecision → CompiledFaultRule → Type 0
IsChecked decisions rule =
    ((a : String) × (activation_of decisions rule ≡ ok a))
    × (has_parameters rule.kind rule.parameters ≡ true)

-- One that also belongs to the phase.
abbrev pub IsReady : List FaultDecision → FaultPhase → CompiledFaultRule → Type 0
IsReady decisions phase rule =
    IsChecked decisions rule
    × ((rule.phase ≡ phase) × (contains rule.kind (kinds_by_phase phase) ≡ true))

unfoldable pub first_effect : List CompiledFaultRule → Option CompiledFaultRule
first_effect [] = none
first_effect (rule ∷ rules) =
    let rest = first_effect rules in if is_delay rule then rest else some rule

unfoldable pub before_outcome :
    Option FaultFailureCode → Option CompiledFaultRule → Result FaultError (Option FaultFailureCode)
before_outcome (some code) effect = ok (some code)
before_outcome none none = ok none
before_outcome none (some rule) = do code ← failure_code rule; ok (some code)

unfoldable pub after_outcome :
    Bool
    → Option Members
    → Option FaultFailureCode
    → Option CompiledFaultRule
    → Result FaultError (Option Members × Option FaultFailureCode)
after_outcome true observed code effect = ok (observed, code)
after_outcome false observed code none = ok (observed, code)
after_outcome false observed code (some rule) = transform rule observed

failing_kinds :
    (kind : FaultKind)
    → contains kind (kinds_by_phase before_tool) ≡ true
    → (kind == delay) ≡ false
    → is_failing kind ≡ true
failing_kinds kind fits not_d = ground arith

failing_code :
    (rule : CompiledFaultRule)
    → is_failing rule.kind ≡ true
    → (code : FaultFailureCode) × (failure_code rule ≡ ok code)
unfolding failure_code
failing_code rule fails = elim (Result-cases (failure_code rule)) [
  | inl found ↦ found
  | inr (e, raised) ↦ absurd (ground arith)
]

module _ (rule : CompiledFaultRule) (a : String) (p : Progress)
    (rest : List CompiledFaultRule) where
  before_step :
      contains rule.kind (kinds_by_phase before_tool) ≡ true
      → (q : Progress) × (before_directive rule a p ≡ ok q)
        × (q.observed ≡ p.observed)
        × (before_outcome p.failure (first_effect (rule ∷ rest))
            ≡ before_outcome q.failure (first_effect rest))
  unfolding before_directive before_outcome first_effect
  before_step fits = elim (Bool-cases (is_delay rule)) [
    | inl is_d ↦ (slept rule a p, ground arith, refl, rw (is_d) refl)
    | inr not_d ↦
        let fails = failing_kinds rule.kind fits not_d in
        let (code, found) = failing_code rule fails in
        elim (Option-cases p.failure) [
          | inr (f, failed) ↦ (p, ground arith, refl, rw (failed) refl)
          | inl fresh ↦ (
            record p { failure = some code; applied = applying rule a p },
            ground arith,
            refl,
            rw (fresh, not_d, found) refl,
          )
        ]
  ]

  after_step :
      (change : Option Members × Option FaultFailureCode)
      → after_outcome p.transformed p.observed p.failure (first_effect (rule ∷ rest)) ≡ ok change
      → (q : Progress) × (after_directive rule a p ≡ ok q)
        × (after_outcome q.transformed q.observed q.failure (first_effect rest) ≡ ok change)
  unfolding after_directive after_outcome first_effect
  after_step change h = elim (Bool-cases (is_delay rule)) [
    | inl is_d ↦ (slept rule a p, ground arith, ground arith)
    | inr not_d ↦ elim (Bool-cases p.transformed) [
      | inl was_done ↦ (p, ground arith, ground arith)
      | inr fresh ↦
          let code : transform rule p.observed ≡ ok change = ground arith in
          (
            record p {
              observed = change.0;
              failure = change.1;
              transformed = true;
              applied = applying rule a p;
            },
            rw (fresh, not_d, code) refl,
            refl,
          )
    ]
  ]

  after_raises :
      (e : FaultError)
      → after_outcome p.transformed p.observed p.failure (first_effect (rule ∷ rest)) ≡ err e
      → (after_directive rule a p ≡ err e)
        ⊎ ((q : Progress) × (after_directive rule a p ≡ ok q)
            × (after_outcome q.transformed q.observed q.failure (first_effect rest) ≡ err e))
  unfolding after_directive after_outcome first_effect
  after_raises e h = elim (Bool-cases (is_delay rule)) [
    | inl is_d ↦ inr (slept rule a p, ground arith, ground arith)
    | inr not_d ↦ elim (Bool-cases p.transformed) [
      | inl was_done ↦ absurd (ground arith)
      | inr fresh ↦
          let raised : transform rule p.observed ≡ err e = ground arith in
          inl (rw (fresh, not_d, raised) refl)
    ]
  ]

module _ (decisions : List FaultDecision) where
  pub before_returns :
      (rules : List CompiledFaultRule) (p : Progress)
      → All (IsReady decisions before_tool) rules
      → (p' : Progress) × (run_rules before_directive decisions rules p ≡ ok p')
        × (p'.observed ≡ p.observed)
        × (before_outcome p.failure (first_effect rules) ≡ ok p'.failure)
  unfolding run_rules first_effect before_outcome
  before_returns [] p ready = (p, refl, refl, ground arith)
  before_returns (rule ∷ rules) p ((((a, bound), valid), (in_phase, fits)), ready) =
      let (q, went, seen, step) = before_step rule a p rules fits in
      let (p', ran, seen_too, outcome) = before_returns rules q ready in
      (p', rw (bound, valid, went) ran, seen_too ∙ seen, step ∙ outcome)

  pub after_returns :
      (rules : List CompiledFaultRule) (p : Progress)
      → All (IsChecked decisions) rules
      → (change : Option Members × Option FaultFailureCode)
      → after_outcome p.transformed p.observed p.failure (first_effect rules) ≡ ok change
      → (p' : Progress) × (run_rules after_directive decisions rules p ≡ ok p')
        × ((p'.observed, p'.failure) ≡ change)
  unfolding run_rules first_effect after_outcome
  after_returns [] p ready change h = (p, refl, ground arith)
  after_returns (rule ∷ rules) p (((a, bound), valid), ready) change h =
      let (q, went, step) = after_step rule a p rules change h in
      let (p', ran, outcome) = after_returns rules q ready change step in
      (p', rw (bound, valid, went) ran, outcome)

  pub after_fails :
      (rules : List CompiledFaultRule) (p : Progress)
      → All (IsChecked decisions) rules
      → (e : FaultError)
      → after_outcome p.transformed p.observed p.failure (first_effect rules) ≡ err e
      → run_rules after_directive decisions rules p ≡ err e
  unfolding run_rules first_effect after_outcome
  after_fails [] p ready e h = absurd (ground arith)
  after_fails (rule ∷ rules) p (((a, bound), valid), ready) e h =
      elim (after_raises rule a p rules e h) [
        | inl raised ↦ rw (bound, valid, raised) refl
        | inr (q, went, step) ↦ rw (bound, valid, went) (after_fails rules q ready e step)
      ]
