-- ===== src/Faults/Authentic.antt =====
-- The activations that a matching issues are those that packages/faults/src/chaosagent_faults/application.py
-- authenticates afterwards.
use chaosagent.Base.{
  ◌≡◌, ◌⊎◌, refl, sym, ap, subst, ◌∙◌, String, true, false, ◌&&◌, some, List, [], ◌∷◌, leb, ◌==◌,
  ==-refl, ==→≡, nat_eq, string_eq, ok, require, Bool-cases, Option-cases, inl, inr, arith, bind_ok,
  then_ok, require_ok,
}
use chaosagent.Store.Identifiers.{is_identifier}
use chaosagent.Store.Texts.{concat, is_digest}
use chaosagent.Events.{max_safe_integer}
use chaosagent.Json.{Value, object}
use chaosagent.Faults.{
  rule_validation, CompiledFaultRule, CompiledFaultPlan, FaultMatchContext, FaultDecision, Hashing,
  is_positive_to,
}
use chaosagent.Faults.Rules.{
  digest_canonical, validate_compiled_rule, validate_rules, validate_plan,
}
use chaosagent.Faults.Matching.{
  RequestFacts, facts_of, is_context, selection_material, selection_bucket, activation_identity,
  decide_selection, validate_snapshot, match_fault_rule, match_rules, match_fault_plan,
  expected_activation_id,
}
use chaosagent.Faults.Engine.{count_matches, authenticates_activation}
use chaosagent.Faults.Selected.{decided, counted}

-- A fact of each rule and its decision.
abbrev pub Each :
    (CompiledFaultRule → FaultDecision → Type 0)
    → List CompiledFaultRule
    → List FaultDecision
    → Type 0
Each P [] [] = Unit
Each P [] (d ∷ ds) = ⊥
Each P (r ∷ rs) [] = ⊥
Each P (r ∷ rs) (d ∷ ds) = P r d × Each P rs ds

module _ (h : Hashing) where
  -- A decision against the rule, or one that is authenticated from the facts of the call.
  abbrev pub IsAuthentic : FaultMatchContext → CompiledFaultRule → FaultDecision → Type 0
  IsAuthentic c rule d =
      (d.matched ≡ false)
      ⊎ ((a : String) × (d.matched ≡ true)
          × (d.activation_id ≡ some a)
          × (authenticates_activation h rule (facts_of c) c.physical_attempt_id a
                (some c.call_ordinal)
              ≡ ok true))

  digest-IsDigest : (v : Value) (t : String) → digest_canonical h v ≡ ok t → is_digest t ≡ true
  unfolding digest_canonical
  digest-IsDigest v t eq = elim (Option-cases (h.dumps v)) [
    | inl refused ↦ absurd (ground arith)
    | inr (s, dumped) ↦
        let made : concat "sha256:" (h.hexdigest s) ≡ t = ground arith in
        ap is_digest (sym made) ∙ h.hexdigest_digits s
  ]

  -- The facts of a context that has been checked pass the checks of `expected_fault_activation_id_v0`.
  record Facts (c : FaultMatchContext) : Type 0 where
    names : (is_identifier c.run_id && is_identifier c.logical_call_id) ≡ true
    attempt : is_identifier c.physical_attempt_id ≡ true
    seed : leb c.run_seed max_safe_integer ≡ true
    number : is_positive_to max_safe_integer c.attempt_number ≡ true
    ordinal : is_positive_to 1000 c.call_ordinal ≡ true
    digest : is_digest c.arguments_digest ≡ true

  snapshot-Facts : (c : FaultMatchContext) → validate_snapshot h c ≡ ok tt → Facts c
  unfolding validate_snapshot is_context
  snapshot-Facts c eq =
      let (checked, digesting) = require_ok (is_context c) rule_validation _ tt eq in
      let (t, digested, compared) =
        bind_ok (digest_canonical h (object c.arguments))
          (λ t. require (c.arguments_digest == t) rule_validation) tt digesting in
      let same : (c.arguments_digest == t) ≡ true = ground arith in
      record {
        names = ground arith;
        attempt = ground arith;
        seed = ground arith;
        number = ground arith;
        ordinal = ground arith;
        digest =
            ap is_digest (==→≡ c.arguments_digest t same)
            ∙ digest-IsDigest (object c.arguments) t digested;
      }

  pub issued :
      (rule : CompiledFaultRule) (material attempt_id : String)
      → (decide_selection h rule material attempt_id).matched ≡ true
      → (leb rule.probability_ppm (selection_bucket h material) ≡ false)
        × ((decide_selection h rule material attempt_id).activation_id
            ≡ some (activation_identity h material attempt_id))
  unfolding decide_selection
  issued rule material attempt_id m = ground arith

  expected :
      (rule : CompiledFaultRule) (c : FaultMatchContext) (d : FaultDecision)
      → validate_compiled_rule h rule ≡ ok tt
      → Facts c
      → match_fault_rule h rule c ≡ ok d
      → d.matched ≡ true
      → (a : String) × (d.activation_id ≡ some a)
        × (expected_activation_id h rule (facts_of c) c.physical_attempt_id ≡ ok (some a))
  unfolding expected_activation_id selection_material decide_selection
  expected rule c d valid facts eq m =
      let (scenario, tool, phase, ordinal, rest) = decided h rule c d eq m in
      let (argument, cap, material, text, made) = counted h rule c d rest m in
      let (below, activation) =
        issued rule material c.physical_attempt_id (ap (λ x. x.matched) made ∙ m) in
      (
        activation_identity h material c.physical_attempt_id,
        ap (λ x. x.activation_id) (sym made) ∙ activation,
        rw
            (
              valid, facts.names, facts.attempt, facts.seed, facts.number, facts.ordinal,
              facts.digest, text, below,
            )
            refl,
      )

  counted_once :
      (rule : CompiledFaultRule) (facts : RequestFacts) (attempt_id a : String)
      → expected_activation_id h rule facts attempt_id ≡ ok (some a)
      → authenticates_activation h rule facts attempt_id a (some facts.call_ordinal) ≡ ok true
  unfolding authenticates_activation count_matches
  counted_once rule facts attempt_id a eq = rw (eq, ==-refl a) refl

  authentic :
      (rule : CompiledFaultRule) (c : FaultMatchContext) (d : FaultDecision)
      → validate_compiled_rule h rule ≡ ok tt
      → Facts c
      → match_fault_rule h rule c ≡ ok d
      → IsAuthentic c rule d
  authentic rule c d valid facts eq = elim (Bool-cases d.matched) [
    | inr against ↦ inl against
    | inl m ↦
        let (a, activation, agrees) = expected rule c d valid facts eq m in
        inr (a, m, activation, counted_once rule (facts_of c) c.physical_attempt_id a agrees)
  ]

  each :
      (digest : String) (c : FaultMatchContext) (rules : List CompiledFaultRule)
      (ds : List FaultDecision)
      → Facts c
      → validate_rules h digest rules ≡ ok tt
      → match_rules h rules c ≡ ok ds
      → Each (IsAuthentic c) rules ds
  unfolding match_rules validate_rules
  each digest c [] [] facts valid eq = tt
  each digest c [] (d ∷ ds) facts valid eq = absurd (ground arith)
  each digest c (rule ∷ rules) ds facts valid eq =
      let (checked, valid_rest) = then_ok (validate_compiled_rule h rule) _ tt valid in
      let (right, valid_rules) =
        require_ok (rule.scenario_digest == digest) rule_validation _ tt valid_rest in
      let (d, decision, rest) = bind_ok _ _ ds eq in
      let (others, decisions, returned) = bind_ok _ _ ds rest in
      let made : d ∷ others ≡ ds = ground arith in
      subst (Each (IsAuthentic c) (rule ∷ rules)) made (
        authentic rule c d checked facts decision,
        each digest c rules others facts valid_rules decisions,
      )

  pub match_fault_plan-authenticates :
      (plan : CompiledFaultPlan) (c : FaultMatchContext) (ds : List FaultDecision)
      → match_fault_plan h plan c ≡ ok ds
      → Each (IsAuthentic c) plan.rules ds
  unfolding match_fault_plan validate_plan
  match_fault_plan-authenticates plan c ds eq =
      let (valid, snapshot_on) = then_ok _ _ ds eq in
      let (snapshot, context_on) = then_ok _ _ ds snapshot_on in
      let (context, matching) = then_ok _ _ ds context_on in
      let (valid_rules, digested) = then_ok _ _ tt valid in
      each plan.scenario_digest c plan.rules ds (snapshot-Facts c snapshot) valid_rules matching
