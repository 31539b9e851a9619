-- ===== src/Faults/Effects.antt =====
-- Which directives a phase applies, in packages/faults/src/chaosagent_faults/application.py.
use mathlib.Core.List.{append-nil, append_assoc, map-append}
use chaosagent.Base.{
  ℕ, ◌≡◌, refl, sym, ap, subst, ◌∙◌, String, Bool, true, false, not, ◌||◌, List, [], ◌∷◌, ◌++◌, map,
  ◌==◌, nat_eq, string_eq, Result, ok, Result-cases, Bool-cases, Option-cases, inl, inr, arith,
  if◌then◌else◌,
}
use chaosagent.Faults.{delay, kind_eq, FaultError, CompiledFaultRule, FaultDecision}
use chaosagent.Faults.Application.{AppliedFault, activation_of, duration}
use chaosagent.Faults.Engine.{
  Progress, is_none, failure_code, before_directive, transform, after_directive, run_rules,
  applying, slept,
}

abbrev pub is_delay : CompiledFaultRule → Bool
is_delay rule = rule.kind == delay

-- Every delay takes effect, and of the other directives the first one, unless one did before.
unfoldable pub effective : Bool → List CompiledFaultRule → List CompiledFaultRule
effective done [] = []
effective done (rule ∷ rules) =
    let rest = effective (done || not (is_delay rule)) rules in
    if is_delay rule || not done then rule ∷ rest else rest

unfoldable pub delays : List CompiledFaultRule → List ℕ
delays [] = []
delays (rule ∷ rules) =
    let rest = delays rules in if is_delay rule then duration rule ∷ rest else rest

abbrev pub rules_of : List AppliedFault → List CompiledFaultRule
rules_of applied = map (λ a. a.rule) applied

append-if {ℓ} :
    {A : Type ℓ} (b : Bool) (xs : List A) (x : A) (rest : List A)
    → (xs ++ (if b then x ∷ [] else [])) ++ rest ≡ xs ++ (if b then x ∷ rest else rest)
append-if true xs x rest = append_assoc xs (x ∷ []) rest
append-if false xs x rest = append_assoc xs [] rest

-- What one round does, where `done` says that a directive other than a delay has taken effect.
pub record Round (done : Progress → Bool) (rule : CompiledFaultRule) (p p' : Progress)
    : Type 0 where
  pub applies :
      rules_of p'.applied
      ≡ rules_of p.applied ++ (if is_delay rule || not (done p) then rule ∷ [] else [])
  pub sleeps : p'.sleeps ≡ p.sleeps ++ (if is_delay rule then duration rule ∷ [] else [])
  pub goes_on : done p' ≡ (done p || not (is_delay rule))

module _ (directive : CompiledFaultRule → String → Progress → Result FaultError Progress)
    (done : Progress → Bool)
    (round : (rule : CompiledFaultRule) (a : String) (p p' : Progress)
      → directive rule a p ≡ ok p'
      → Round done rule p p')
    (decisions : List FaultDecision) where
  -- A loop over the matched rules applies those in effect, and sleeps for each delay.
  pub run_rules_effects :
      (rules : List CompiledFaultRule) (p p' : Progress)
      → run_rules directive decisions rules p ≡ ok p'
      → (rules_of p'.applied ≡ rules_of p.applied ++ effective (done p) rules)
        × (p'.sleeps ≡ p.sleeps ++ delays rules)
  unfolding run_rules effective delays
  run_rules_effects [] p p' h =
      let returned : p ≡ p' = ground arith in
      (
        ap (λ q. rules_of q.applied) (sym returned) ∙ sym (append-nil (rules_of p.applied)),
        ap (λ q. q.sleeps) (sym returned) ∙ sym (append-nil p.sleeps),
      )
  run_rules_effects (rule ∷ rules) p p' h = elim (Result-cases (activation_of decisions rule)) [
    | inr (e, raised) ↦ absurd (ground arith)
    | inl (a, bound) ↦ elim (Result-cases (directive rule a p)) [
      | inr (e, raised) ↦ absurd (ground arith)
      | inl (q, went) ↦
          let r = round rule a p q went in
          let (applied, slept_for) = run_rules_effects rules q p' (ground arith) in
          (
            applied
                ∙ ap (λ d. rules_of q.applied ++ effective d rules) r.goes_on
                ∙ ap (λ xs. xs ++ effective (done p || not (is_delay rule)) rules) r.applies
                ∙ append-if (is_delay rule || not (done p)) (rules_of p.applied) rule
                    (effective (done p || not (is_delay rule)) rules),
            slept_for
                ∙ ap (λ xs. xs ++ delays rules) r.sleeps
                ∙ append-if (is_delay rule) p.sleeps (duration rule) (delays rules),
          )
    ]
  ]

-- A call of `apply_before` starts with no failure, and the round below keeps these two together.
abbrev pub has_failed : Progress → Bool
has_failed p = not (is_none p.failure)

module _ (done : Progress → Bool) (rule : CompiledFaultRule) (a : String) (p : Progress) where
  rules_of-applying : rules_of (applying rule a p) ≡ rules_of p.applied ++ rule ∷ []
  rules_of-applying =
      map-append (λ x. x.rule) p.applied (record { rule = rule; activation_id = a } ∷ [])

  delay-Round :
      is_delay rule ≡ true → done (slept rule a p) ≡ done p → Round done rule p (slept rule a p)
  delay-Round is_d kept = record {
    applies = rw (is_d) rules_of-applying;
    sleeps = rw (is_d) refl;
    goes_on = ground (arith, is_d, kept);
  }

  quiet-Round : is_delay rule ≡ false → done p ≡ true → Round done rule p p
  quiet-Round not_d was_done = record {
    applies = rw (not_d, was_done) (sym (append-nil (rules_of p.applied)));
    sleeps = rw (not_d) (sym (append-nil p.sleeps));
    goes_on = ground (arith, not_d, was_done);
  }

  effect-Round :
      (p' : Progress)
      → is_delay rule ≡ false
      → done p ≡ false
      → p'.applied ≡ applying rule a p
      → p'.sleeps ≡ p.sleeps
      → done p' ≡ true
      → Round done rule p p'
  effect-Round p' not_d undone applied_it same_sleeps is_done = record {
    applies = rw (not_d, undone, applied_it) rules_of-applying;
    sleeps = rw (not_d, same_sleeps) (sym (append-nil p.sleeps));
    goes_on = ground (arith, not_d, undone, is_done);
  }

pub before-Round :
    (rule : CompiledFaultRule) (a : String) (p p' : Progress)
    → before_directive rule a p ≡ ok p'
    → Round has_failed rule p p'
unfolding before_directive
before-Round rule a p p' h = elim (Bool-cases (is_delay rule)) [
  | inl is_d ↦
      subst (Round has_failed rule p) (ground arith) (delay-Round has_failed rule a p is_d refl)
  | inr not_d ↦ elim (Option-cases p.failure) [
    | inr (f, failed) ↦
        subst (Round has_failed rule p) (ground arith)
          (quiet-Round has_failed rule a p not_d (rw (failed) refl))
    | inl fresh ↦ elim (Result-cases (failure_code rule)) [
      | inl (f, code) ↦
          effect-Round has_failed rule a p p' not_d (rw (fresh) refl) (ground arith) (ground arith)
            (ground arith)
      | inr (e, raised) ↦ absurd (ground arith)
    ]
  ]
]

pub after-Round :
    (rule : CompiledFaultRule) (a : String) (p p' : Progress)
    → after_directive rule a p ≡ ok p'
    → Round (λ q. q.transformed) rule p p'
unfolding after_directive
after-Round rule a p p' h = elim (Bool-cases (is_delay rule)) [
  | inl is_d ↦
      subst (Round (λ q. q.transformed) rule p) (ground arith)
        (delay-Round (λ q. q.transformed) rule a p is_d refl)
  | inr not_d ↦ elim (Bool-cases p.transformed) [
    | inl was_done ↦
        subst (Round (λ q. q.transformed) rule p) (ground arith)
          (quiet-Round (λ q. q.transformed) rule a p not_d was_done)
    | inr fresh ↦ elim (Result-cases (transform rule p.observed)) [
      | inl (change, code) ↦
          effect-Round (λ q. q.transformed) rule a p p' not_d fresh (ground arith) (ground arith)
            (ground arith)
      | inr (e, raised) ↦ absurd (ground arith)
    ]
  ]
]
