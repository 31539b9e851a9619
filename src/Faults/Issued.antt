-- ===== src/Faults/Issued.antt =====
-- The rules that `FaultEngine.select` in packages/faults/src/chaosagent_faults/application.py finds matched
-- pass the checks that the engine makes before it applies them.
use chaosagent.Base.{
  ℕ, ◌≡◌, ◌⊎◌, refl, sym, ap, subst, ◌∙◌, String, true, false, ◌&&◌, none, some, List, [], ◌∷◌, map,
  ◌==◌, ==-refl, nat_eq, string_eq, contains, ok, Bool-cases, inl, inr, arith, bind_ok, then_ok,
  require_ok, ok_injective, All,
}
use chaosagent.Faults.{
  FaultPhase, phase_eq, kind_eq, kinds_by_phase, rule_validation, CompiledFaultRule,
  CompiledFaultPlan, FaultMatchContext, FaultDecision, Hashing, is_catalog_id, is_revision,
  before_tool, after_commit,
}
use chaosagent.Faults.Rules.{
  is_well_formed, digest_compiled_rule, digest_compiled_plan, same_texts, sorted_ids,
  validate_compiled_rule, validate_rules, validate_plan,
}
use chaosagent.Faults.Matching.{
  decide_selection, decide_occurrence, decide_arguments, decide_call, match_fault_rule, match_rules,
  match_fault_plan, validate_snapshot, validate_context,
}
use chaosagent.Faults.Application.{
  FaultSelection, FaultApplicationResult, rule_of, matched_rules_of, activations_of, activation_of,
  has_parameters, only_activation,
}
use chaosagent.Faults.Engine.{select, apply_before, apply_post_commit}
use chaosagent.Store.Texts.{is_digest}
use chaosagent.Faults.Selected.{decided, counted}
use chaosagent.Faults.Authentic.{Each, issued}
use chaosagent.Faults.Effects.{rules_of, effective, delays}
use chaosagent.Faults.Directives.{IsReady, first_effect, before_outcome}
use chaosagent.Faults.Outcomes.{
  apply_before-effects, first_only, timeout_of, apply_post_commit-effects,
}
use chaosagent.Faults.Ordered.{
  IsBelow, IsOrdered, sorted_ids-IsOrdered, same_texts→≡, Among, lt→differ, below-Among,
}

pub rule_of_lem :
    (rules : List CompiledFaultRule) (r : CompiledFaultRule)
    → IsOrdered (map (λ x. x.fault_id) rules)
    → Among r rules
    → rule_of r.fault_id rules ≡ some r
unfolding rule_of
rule_of_lem [] r ordered here = elim here [ ]
rule_of_lem (x ∷ xs) r ordered (inl this) =
    subst (λ z. rule_of z.fault_id (x ∷ xs) ≡ some z) this (rw (==-refl x.fault_id) refl)
rule_of_lem (x ∷ xs) r (below, ordered) (inr later) =
    let less = below-Among (λ y. y.fault_id) x.fault_id xs r below later in
    rw ((lt→differ x.fault_id r.fault_id less).0) (rule_of_lem xs r ordered later)

no_activations :
    (id : String) (ds : List FaultDecision)
    → IsBelow id (map (λ d. d.fault_id) ds)
    → activations_of id ds ≡ []
unfolding activations_of
no_activations id [] below = refl
no_activations id (d ∷ ds) (less, below) =
    let rest = no_activations id ds below in
    let differ = (lt→differ id d.fault_id less).1 in ground (arith, rest, differ)

activations_of_lem :
    (ds : List FaultDecision) (d : FaultDecision)
    → IsOrdered (map (λ x. x.fault_id) ds)
    → Among d ds
    → d.matched ≡ true
    → activations_of d.fault_id ds ≡ d.activation_id ∷ []
unfolding activations_of
activations_of_lem [] d ordered here m = elim here [ ]
activations_of_lem (x ∷ xs) d (below, ordered) (inl this) m =
    subst (λ z. activations_of z.fault_id (x ∷ xs) ≡ z.activation_id ∷ []) this
      (rw
        (
          subst (λ z. z.matched ≡ true) (sym this) m,
          ==-refl x.fault_id,
          no_activations x.fault_id xs below,
        )
        refl)
activations_of_lem (x ∷ xs) d (below, ordered) (inr later) m =
    let less = below-Among (λ y. y.fault_id) x.fault_id xs d below later in
    let differ = (lt→differ x.fault_id d.fault_id less).0 in
    let rest = activations_of_lem xs d ordered later m in ground (arith, differ, rest)

activation_of_lem :
    (r : CompiledFaultRule) (ds : List FaultDecision) (a : String)
    → activations_of r.fault_id ds ≡ some a ∷ []
    → activation_of ds r ≡ ok a
unfolding activation_of
activation_of_lem r ds a one = ap only_activation one

module _ (h : Hashing) where
  decision-id :
      (rule : CompiledFaultRule) (c : FaultMatchContext) (d : FaultDecision)
      → match_fault_rule h rule c ≡ ok d
      → d.fault_id ≡ rule.fault_id
  unfolding match_fault_rule decide_call decide_arguments decide_occurrence decide_selection
  decision-id rule c d eq = ground arith

  validated-kind :
      (rule : CompiledFaultRule)
      → validate_compiled_rule h rule ≡ ok tt
      → contains rule.kind (kinds_by_phase rule.phase) ≡ true
  unfolding validate_compiled_rule digest_compiled_rule is_well_formed
  validated-kind rule eq =
      let (t, digested, compared) = bind_ok (digest_compiled_rule h rule) _ tt eq in
      let (formed, hashed) = require_ok (is_well_formed rule) rule_validation _ t digested in
      ground arith

  -- A rule of a checked plan and its decision: when it is matched it has an activation, in the rule's phase.
  abbrev Paired : FaultPhase → CompiledFaultRule → FaultDecision → Type 0
  Paired phase rule d =
      (d.fault_id ≡ rule.fault_id)
      × (contains rule.kind (kinds_by_phase rule.phase) ≡ true)
      × ((d.matched ≡ false)
          ⊎ ((d.matched ≡ true)
              × (phase ≡ rule.phase)
              × ((a : String) × (d.activation_id ≡ some a))))

  paired :
      (rule : CompiledFaultRule) (c : FaultMatchContext) (d : FaultDecision)
      → validate_compiled_rule h rule ≡ ok tt
      → match_fault_rule h rule c ≡ ok d
      → Paired c.phase rule d
  paired rule c d valid eq = (
    decision-id rule c d eq,
    validated-kind rule valid,
    elim (Bool-cases d.matched) [
      | inr against ↦ inl against
      | inl m ↦
          let (scenario, tool, phase, ordinal, rest) = decided h rule c d eq m in
          let (argument, cap, material, text, made) = counted h rule c d rest m in
          let (below, activation) =
            issued h rule material c.physical_attempt_id (ap (λ x. x.matched) made ∙ m) in
          inr (m, phase, (_, ap (λ x. x.activation_id) (sym made) ∙ activation))
    ],
  )

  pairs :
      (digest : String) (c : FaultMatchContext) (rules : List CompiledFaultRule)
      (ds : List FaultDecision)
      → validate_rules h digest rules ≡ ok tt
      → match_rules h rules c ≡ ok ds
      → Each (Paired c.phase) rules ds
  unfolding match_rules validate_rules
  pairs digest c [] [] valid eq = tt
  pairs digest c [] (d ∷ ds) valid eq = absurd (ground arith)
  pairs digest c (rule ∷ rules) ds valid eq =
      let (checked, valid_rest) = then_ok (validate_compiled_rule h rule) _ tt valid in
      let (right, valid_rules) =
        require_ok (rule.scenario_digest == digest) rule_validation _ tt valid_rest in
      let (d, decision, rest) = bind_ok (match_fault_rule h rule c) _ ds eq in
      let (others, decisions, returned) = bind_ok (match_rules h rules c) _ ds rest in
      let made = ok_injective (d ∷ others) ds _ refl returned in
      subst (Each (Paired c.phase) (rule ∷ rules)) made
        (paired rule c d checked decision, pairs digest c rules others valid_rules decisions)

  same_ids :
      (phase : FaultPhase) (rules : List CompiledFaultRule) (ds : List FaultDecision)
      → Each (Paired phase) rules ds
      → map (λ d. d.fault_id) ds ≡ map (λ r. r.fault_id) rules
  same_ids phase [] [] each = refl
  same_ids phase [] (d ∷ ds) each = elim each [ ]
  same_ids phase (r ∷ rs) [] each = elim each [ ]
  same_ids phase (r ∷ rs) (d ∷ ds) ((id, kind, found), each) =
      rw (id, same_ids phase rs ds each) refl

  module _ (phase : FaultPhase) (rules : List CompiledFaultRule) (ds : List FaultDecision)
      (rules_ordered : IsOrdered (map (λ r. r.fault_id) rules))
      (ds_ordered : IsOrdered (map (λ d. d.fault_id) ds)) where
    ready :
        (rs : List CompiledFaultRule) (es : List FaultDecision)
        → Each (Paired phase) rs es
        → All (λ r. has_parameters r.kind r.parameters ≡ true) rs
        → ((r : CompiledFaultRule) → Among r rs → Among r rules)
        → ((d : FaultDecision) → Among d es → Among d ds)
        → All (IsReady ds phase) (matched_rules_of rules es)
    unfolding matched_rules_of
    ready [] [] each valid rules_in ds_in = tt
    ready [] (d ∷ es) each valid rules_in ds_in = elim each [ ]
    ready (r ∷ rs) [] each valid rules_in ds_in = elim each [ ]
    ready (r ∷ rs) (d ∷ es) ((id, kind, found), each) (fit, valid) rules_in ds_in =
        let rest =
          ready rs es each valid (λ x here. rules_in x (inr here)) (λ x here. ds_in x (inr here)) in
        elim found [
          | inl against ↦ rw (against) rest
          | inr (m, same_phase, (a, activation)) ↦
              let rule = rule_of_lem rules r rules_ordered (rules_in r (inl refl)) in
              let one = activations_of_lem ds d ds_ordered (ds_in d (inl refl)) m in
              let of_rule : activations_of r.fault_id ds ≡ some a ∷ [] =
                subst (λ i. activations_of i ds ≡ some a ∷ []) id
                  (one ∙ ap (λ o. o ∷ []) activation) in
              let in_phase =
                subst (λ p. contains r.kind (kinds_by_phase p) ≡ true) (sym same_phase) kind in
              let named : rule_of d.fault_id rules ≡ some r =
                subst (λ i. rule_of i rules ≡ some r) (sym id) rule in
              rw (m, named)
                ((((a, activation_of_lem r ds a of_rule), fit), (sym same_phase, in_phase)), rest)
        ]

  pub digested-IsOrdered :
      (plan : CompiledFaultPlan) (t : String)
      → digest_compiled_plan h plan ≡ ok t
      → IsOrdered (map (λ r. r.fault_id) plan.rules)
  unfolding digest_compiled_plan
  digested-IsOrdered plan t eq =
      let ids = map (λ r. r.fault_id) plan.rules in
      let (named, formed) =
        require_ok (is_catalog_id plan.scenario_id && is_revision plan.scenario_revision)
          rule_validation _ t eq in
      let (scenario, sorting) =
        require_ok (is_digest plan.scenario_digest) rule_validation _ t formed in
      let (sorted, digesting) =
        require_ok (same_texts ids (sorted_ids ids)) rule_validation _ t sorting in
      subst IsOrdered (sym (same_texts→≡ ids (sorted_ids ids) sorted)) (sorted_ids-IsOrdered ids)

  matching-IsReady :
      (plan : CompiledFaultPlan) (c : FaultMatchContext) (ds : List FaultDecision)
      → match_fault_plan h plan c ≡ ok ds
      → All (λ r. has_parameters r.kind r.parameters ≡ true) plan.rules
      → All (IsReady ds c.phase) (matched_rules_of plan.rules ds)
  unfolding match_fault_plan validate_plan
  matching-IsReady plan c ds eq valid =
      let (checked, rest) = then_ok (validate_plan h plan) _ ds eq in
      let (snapshot, after_snapshot) = then_ok (validate_snapshot h c) _ ds rest in
      let (context, matched) = then_ok (validate_context h plan c) _ ds after_snapshot in
      let (valid_rules, digesting) =
        then_ok (validate_rules h plan.scenario_digest plan.rules) _ tt checked in
      let (t, digested, compared) = bind_ok (digest_compiled_plan h plan) _ tt digesting in
      let ordered = digested-IsOrdered plan t digested in
      let each = pairs plan.scenario_digest c plan.rules ds valid_rules matched in
      let ds_ordered = subst IsOrdered (sym (same_ids c.phase plan.rules ds each)) ordered in
      ready c.phase plan.rules ds ordered ds_ordered plan.rules ds each valid (λ r here. here)
        (λ d here. here)

  -- What `select` returns from a plan whose rules' parameters have the forms that the engine asks for: each
  -- matched rule passes the engine's checks and belongs to the phase of the call.
  pub select-IsReady :
      (plan : CompiledFaultPlan) (c : FaultMatchContext) (s : FaultSelection)
      → select h plan c ≡ ok s
      → All (λ r. has_parameters r.kind r.parameters ≡ true) plan.rules
      → All (IsReady s.decisions c.phase) s.matched_rules
  unfolding select
  select-IsReady plan c s eq valid =
      let (ds, matching, returned) = bind_ok (match_fault_plan h plan c) _ s eq in
      subst (λ z. All (IsReady z.decisions c.phase) z.matched_rules)
        (ok_injective _ s _ refl returned) (matching-IsReady plan c ds matching valid)

  -- In the phase before the tool: where `select` returns from such a plan, `apply_before` returns from what
  -- it selected. It applies each delay and of the other matched rules the first one, sleeps for each delay in
  -- turn, gives no output, and fails with the code of that first rule, or not at all when there is none.
  pub select-apply_before :
      (plan : CompiledFaultPlan) (c : FaultMatchContext) (s : FaultSelection)
      → select h plan c ≡ ok s
      → All (λ r. has_parameters r.kind r.parameters ≡ true) plan.rules
      → c.phase ≡ before_tool
      → (result : FaultApplicationResult) × (sleeps : List ℕ) × (apply_before s
          ≡ ok (result, sleeps))
        × (rules_of result.applied ≡ effective false s.matched_rules)
        × (sleeps ≡ delays s.matched_rules)
        × (result.output ≡ none)
        × (before_outcome none (first_effect s.matched_rules) ≡ ok result.failure_code)
  select-apply_before plan c s eq valid before = apply_before-effects s (
      subst (λ p. All (IsReady s.decisions p) s.matched_rules) before
        (select-IsReady plan c s eq valid))

  -- After the commit: where `select` returns from such a plan, `apply_post_commit` returns from what it
  -- selected. It applies the first matched rule alone and fails with a timeout, or does neither when no rule
  -- is matched, and gives no output.
  pub select-apply_post_commit :
      (plan : CompiledFaultPlan) (c : FaultMatchContext) (s : FaultSelection)
      → select h plan c ≡ ok s
      → All (λ r. has_parameters r.kind r.parameters ≡ true) plan.rules
      → c.phase ≡ after_commit
      → (result : FaultApplicationResult) × (apply_post_commit s ≡ ok result)
        × (rules_of result.applied ≡ first_only s.matched_rules)
        × (result.output ≡ none)
        × (result.failure_code ≡ timeout_of s.matched_rules)
  select-apply_post_commit plan c s eq valid after = apply_post_commit-effects s (
      subst (λ p. All (IsReady s.decisions p) s.matched_rules) after
        (select-IsReady plan c s eq valid))
