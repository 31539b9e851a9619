-- ===== src/Faults/Compiled.antt =====
-- What the compiler in packages/faults/src/chaosagent_faults/matcher.py makes passes the matcher's checks.
use chaosagent.Base.{
  ◌≡◌, refl, sym, ap, subst, ◌∙◌, String, Option, some, List, [], ◌∷◌, map, ◌==◌, ==-refl, ==→≡,
  string_eq, contains, ok, or_raise, Bool-cases, Option-cases, inl, inr, arith, bind_ok, then_ok,
  require_ok, ok_injective,
}
use chaosagent.Faults.{
  kind_eq, rule_validation, kinds_by_phase, CompiledFaultRule, CompiledFaultPlan, Hashing,
}
use chaosagent.Faults.Rules.{
  FaultDeclaration, Scenario, declared, or_declaration, undigested_rule, selected_ids,
  undigested_plan, digest_compiled_rule, digest_compiled_plan, validate_compiled_rule,
  validate_rules, validate_plan, compile_rule, compile_rules, compile_fault_plan,
}

declared-id :
    (id : String) (faults : List FaultDeclaration) (f : FaultDeclaration)
    → declared id faults ≡ some f
    → f.id ≡ id
unfolding declared
declared-id id [] f h = absurd (ground arith)
declared-id id (g ∷ rest) f h = elim (Option-cases (declared id rest)) [
  | inr (k, later) ↦ declared-id id rest f (later ∙ sym (ap (λ o. or_declaration o id g) later) ∙ h)
  | inl nowhere ↦ elim (Bool-cases (g.id == id)) [
    | inl this ↦ ==→≡ f.id id (ground arith)
    | inr other ↦ absurd (ground arith)
  ]
]

module _ (h : Hashing) where
  compile_rule-ok :
      (digest : String) (f : FaultDeclaration) (rule : CompiledFaultRule)
      → compile_rule h digest f ≡ ok rule
      → (validate_compiled_rule h rule ≡ ok tt)
        × (rule.scenario_digest ≡ digest)
        × (rule.fault_id ≡ f.id)
  unfolding compile_rule
  compile_rule-ok digest f rule eq =
      let (fits, digesting) =
        require_ok (contains f.kind (kinds_by_phase f.phase)) rule_validation _ rule eq in
      let (integrity, digested, checking) =
        bind_ok (digest_compiled_rule h (undigested_rule digest f)) _ rule digesting in
      let compiled : CompiledFaultRule = record (undigested_rule digest f) {
        integrity_digest = integrity;
      } in
      let (valid, returned) =
        then_ok (validate_compiled_rule h compiled) (ok compiled) rule checking in
      let made = ok_injective compiled rule _ refl returned in
      (
        subst (λ r. validate_compiled_rule h r ≡ ok tt) made valid,
        ap (λ r. r.scenario_digest) (sym made),
        ap (λ r. r.fault_id) (sym made),
      )

  compile_rules-ok :
      (digest : String) (faults : List FaultDeclaration) (ids : List String)
      (rules : List CompiledFaultRule)
      → compile_rules h digest faults ids ≡ ok rules
      → (validate_rules h digest rules ≡ ok tt) × (map (λ r. r.fault_id) rules ≡ ids)
  unfolding compile_rules validate_rules
  compile_rules-ok digest faults [] [] eq = (refl, refl)
  compile_rules-ok digest faults [] (r ∷ rs) eq = absurd (ground arith)
  compile_rules-ok digest faults (id ∷ ids) rules eq =
      let (f, found, compiling) =
        bind_ok (or_raise (declared id faults) rule_validation) _ rules eq in
      let (rule, compiled, others) = bind_ok (compile_rule h digest f) _ rules compiling in
      let (rest, made, returned) = bind_ok (compile_rules h digest faults ids) _ rules others in
      let (valid, scenario, named) = compile_rule-ok digest f rule compiled in
      let (valid_rest, named_rest) = compile_rules-ok digest faults ids rest made in
      let name = named ∙ declared-id id faults f (ground arith) in
      let all_of = ok_injective (rule ∷ rest) rules _ refl returned in
      (
        subst (λ rs. validate_rules h digest rs ≡ ok tt) all_of
            (rw (valid, scenario, ==-refl digest, valid_rest) refl),
        subst (λ rs. map (λ r. r.fault_id) rs ≡ id ∷ ids) all_of (rw (name, named_rest) refl),
      )

  digested-valid :
      (scenario : Scenario) (rules : List CompiledFaultRule) (digest : String)
      → validate_rules h scenario.digest rules ≡ ok tt
      → digest_compiled_plan h (undigested_plan scenario rules) ≡ ok digest
      → validate_plan h (record (undigested_plan scenario rules) { integrity_digest = digest })
        ≡ ok tt
  unfolding validate_plan digest_compiled_plan
  digested-valid scenario rules digest valid digested = rw (valid, digested, ==-refl digest) refl

  -- A plan that the compiler returns passes the checks of `_validate_plan`, belongs to the scenario, and its
  -- rules have the selected identities in their order.
  pub compile_fault_plan-valid :
      (scenario : Scenario) (selected : Option (List String)) (plan : CompiledFaultPlan)
      → compile_fault_plan h scenario selected ≡ ok plan
      → (validate_plan h plan ≡ ok tt)
        × (plan.scenario_digest ≡ scenario.digest)
        × (selected_ids scenario.faults selected ≡ ok (map (λ r. r.fault_id) plan.rules))
  unfolding compile_fault_plan
  compile_fault_plan-valid scenario selected plan eq =
      let (ids, chosen, compiling) = bind_ok (selected_ids scenario.faults selected) _ plan eq in
      let (rules, compiled, digesting) =
        bind_ok (compile_rules h scenario.digest scenario.faults ids) _ plan compiling in
      let (digest, digested, made) =
        bind_ok (digest_compiled_plan h (undigested_plan scenario rules)) _ plan digesting in
      let (valid, named) = compile_rules-ok scenario.digest scenario.faults ids rules compiled in
      let compiled_plan : CompiledFaultPlan = record (undigested_plan scenario rules) {
        integrity_digest = digest;
      } in
      let whole = ok_injective compiled_plan plan _ refl made in
      (
        subst (λ p. validate_plan h p ≡ ok tt) whole
            (digested-valid scenario rules digest valid digested),
        ap (λ p. p.scenario_digest) (sym whole),
        chosen ∙ ap ok (sym named) ∙ ap (λ p. ok (map (λ r. r.fault_id) p.rules)) whole,
      )
