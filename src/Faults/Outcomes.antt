-- ===== src/Faults/Outcomes.antt =====
-- What a phase of the engine in packages/faults/src/chaosagent_faults/application.py returns: the outcome of
-- its first directive other than a delay.
use chaosagent.Base.{
  ℕ, ◌≡◌, refl, true, false, Option, none, some, List, [], ◌∷◌, ◌==◌, nat_eq, string_eq, contains,
  ok, err, arith, All, ◌⊎◌, inl, inr, Bool-cases, if◌then◌else◌,
}
use chaosagent.Json.{Value, Members, get, holds_object}
use chaosagent.Json.Pointers.{replace_json_pointer}
use chaosagent.Faults.{
  before_tool, after_commit, phase_eq, ambiguous_post_commit_timeout, kinds_by_phase, FaultKind,
  stale_field, kind_eq, application, type_error, CompiledFaultRule, FaultDecision,
}
use chaosagent.Faults.Application.{
  FaultFailureCode, fault_timeout, AppliedFault, FaultSelection, FaultApplicationResult, text_of,
  value_of,
}
use chaosagent.Faults.Engine.{
  before_directive, stale, transform, after_directive, start_with, result_of, apply_before,
  apply_after, post_commit_rules, post_commit_failure, apply_post_commit,
}
use chaosagent.Faults.Effects.{
  effective, delays, rules_of, has_failed, before-Round, after-Round, run_rules_effects,
}
use chaosagent.Faults.Directives.{
  IsChecked, IsReady, first_effect, before_outcome, after_outcome, before_returns, after_returns,
  after_fails,
}

-- Where every matched rule passes the checks of a round and belongs to the phase before the tool,
-- `apply_before` returns. It applies each delay and of the other rules the first one, sleeps for each delay
-- in turn, gives no output, and fails with the code of that first rule, or not at all when there is none.
pub apply_before-effects :
    (s : FaultSelection)
    → All (IsReady s.decisions before_tool) s.matched_rules
    → (result : FaultApplicationResult) × (sleeps : List ℕ) × (apply_before s ≡ ok (result, sleeps))
      × (rules_of result.applied ≡ effective false s.matched_rules)
      × (sleeps ≡ delays s.matched_rules)
      × (result.output ≡ none)
      × (before_outcome none (first_effect s.matched_rules) ≡ ok result.failure_code)
unfolding apply_before
apply_before-effects s ready =
    let (p, ran, seen, outcome) =
      before_returns s.decisions s.matched_rules (start_with none) ready in
    let (applied, slept_for) =
      run_rules_effects before_directive has_failed before-Round s.decisions s.matched_rules
        (start_with none) p ran in
    ((result_of p).0, (result_of p).1, rw (ran) refl, applied, slept_for, seen, outcome)

-- Where every matched rule passes the checks of a round and the first rule other than a delay gives an
-- output and a failure code from the tool's output, `apply_after` returns these two. It applies each delay
-- and that rule, in the order of the rules, and sleeps for each delay in turn.
pub apply_after-effects :
    (s : FaultSelection) (output : Members) (change : Option Members × Option FaultFailureCode)
    → All (IsChecked s.decisions) s.matched_rules
    → after_outcome false (some output) none (first_effect s.matched_rules) ≡ ok change
    → (result : FaultApplicationResult) × (sleeps : List ℕ) × (apply_after s output
        ≡ ok (result, sleeps))
      × (rules_of result.applied ≡ effective false s.matched_rules)
      × (sleeps ≡ delays s.matched_rules)
      × ((result.output, result.failure_code) ≡ change)
unfolding apply_after
apply_after-effects s output change ready h =
    let (p, ran, outcome) =
      after_returns s.decisions s.matched_rules (start_with (some output)) ready change h in
    let (applied, slept_for) =
      run_rules_effects after_directive (λ q. q.transformed) after-Round s.decisions s.matched_rules
        (start_with (some output)) p ran in
    ((result_of p).0, (result_of p).1, rw (ran) refl, applied, slept_for, outcome)

-- Where every matched rule passes the checks of a round, and the first rule other than a delay is a stale
-- field, `apply_after` raises TypeError if an object stands in the new value, and else FaultApplicationError
-- if the pointer leads to nothing in the tool's output.
pub apply_after-err :
    (s : FaultSelection) (output : Members) (rule : CompiledFaultRule) (value : Value)
    → All (IsChecked s.decisions) s.matched_rules
    → first_effect s.matched_rules ≡ some rule
    → rule.kind ≡ stale_field
    → value_of (get "value" rule.parameters) ≡ value
    → (holds_object value ≡ true)
      ⊎ (replace_json_pointer output (text_of (get "json_pointer" rule.parameters)) value ≡ none)
    → apply_after s output ≡ err (if holds_object value then type_error else application)
unfolding apply_after after_outcome transform stale
apply_after-err s output rule value ready first is_stale new lost =
    let raised =
      after_fails s.decisions s.matched_rules (start_with (some output)) ready
        (if holds_object value then type_error else application)
        (rw (first, is_stale, new)
          (elim lost [
            | inl frozen ↦ rw frozen refl
            | inr missing ↦ elim (Bool-cases (holds_object value)) [
              | inl frozen ↦ rw frozen refl
              | inr plain ↦ rw (plain, missing) refl
            ]
          ])) in
    rw (raised) refl

abbrev pub first_only : List CompiledFaultRule → List CompiledFaultRule
first_only [] = []
first_only (rule ∷ rules) = rule ∷ []

abbrev pub timeout_of : List CompiledFaultRule → Option FaultFailureCode
timeout_of [] = none
timeout_of (rule ∷ rules) = some fault_timeout

only_kind :
    (kind : FaultKind)
    → contains kind (kinds_by_phase after_commit) ≡ true
    → (kind == ambiguous_post_commit_timeout) ≡ true
only_kind kind fits = ground arith

post_commit_kept :
    (decisions : List FaultDecision) (rules : List CompiledFaultRule) (first : AppliedFault)
    → All (IsReady decisions after_commit) rules
    → post_commit_rules decisions rules (first ∷ []) ≡ ok (first ∷ [])
unfolding post_commit_rules
post_commit_kept decisions [] first ready = refl
post_commit_kept decisions (rule ∷ rules) first ((((a, bound), valid), (in_phase, fits)), ready) =
    rw (valid, only_kind rule.kind fits, (phase_eq.same_iff rule.phase after_commit).1 in_phase)
      (post_commit_kept decisions rules first ready)

post_commit_returns :
    (decisions : List FaultDecision) (rules : List CompiledFaultRule)
    → All (IsReady decisions after_commit) rules
    → (applied : List AppliedFault) × (post_commit_rules decisions rules [] ≡ ok applied)
      × (rules_of applied ≡ first_only rules)
      × (post_commit_failure applied ≡ timeout_of rules)
unfolding post_commit_rules
post_commit_returns decisions [] ready = ([], refl, refl, refl)
post_commit_returns decisions (rule ∷ rules) ((((a, bound), valid), (in_phase, fits)), ready) =
    let first : AppliedFault = record { rule = rule; activation_id = a } in
    (
      first ∷ [],
      rw
          (
            valid,
            only_kind rule.kind fits,
            (phase_eq.same_iff rule.phase after_commit).1 in_phase,
            bound,
          )
          (post_commit_kept decisions rules first ready),
      refl,
      refl,
    )

-- Where every matched rule passes the checks and belongs to the phase after the commit, `apply_post_commit`
-- returns: it applies the first matched rule alone and fails with a timeout, or does neither when there is none.
pub apply_post_commit-effects :
    (s : FaultSelection)
    → All (IsReady s.decisions after_commit) s.matched_rules
    → (result : FaultApplicationResult) × (apply_post_commit s ≡ ok result)
      × (rules_of result.applied ≡ first_only s.matched_rules)
      × (result.output ≡ none)
      × (result.failure_code ≡ timeout_of s.matched_rules)
unfolding apply_post_commit
apply_post_commit-effects s ready =
    let (applied, ran, first, failure) = post_commit_returns s.decisions s.matched_rules ready in
    (
      record { applied = applied; output = none; failure_code = post_commit_failure applied },
      rw (ran) refl,
      first,
      refl,
      failure,
    )
