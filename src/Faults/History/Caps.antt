-- ===== src/Faults/History/Caps.antt =====
-- No fault is applied more often than its rule allows in a history that is authenticated, in
-- packages/faults/src/chaosagent_faults/history.py.
use chaosagent.Base.{
  ℕ, ◌+◌, ◌≤◌, ◌≡◌, refl, ap, subst, ◌∙◌, String, ◌&&◌, some, List, [], ◌∷◌, map, ◌==◌, ==→≡,
  nat_eq, string_eq, ok, or_raise, Bool-cases, inl, inr, arith, bind_ok, then_ok, require_ok,
  ok_injective, or_raise-some,
}
use chaosagent.Faults.{history_validation, CompiledFaultRule, CompiledFaultPlan, Hashing}
use chaosagent.Faults.Rules.{validate_plan, digest_compiled_plan, validate_rules}
use chaosagent.Faults.Application.{rule_of}
use chaosagent.Faults.Issued.{rule_of_lem, digested-IsOrdered}
use chaosagent.Faults.Ordered.{IsOrdered, Among}
use chaosagent.Faults.History.{
  Payload, FaultPayload, fault_matched, Document, Scope, Engine, AuthenticatedFaultHistory, lookup,
  filtered, is_unique, all_of_run, same_set, Match,
}
use chaosagent.Faults.History.Passes.{
  match_entry, authentic_request, match_documents, all_backed, match_event, apply_documents,
  first_tally, authenticate_fault_history,
}
use chaosagent.Faults.History.Counts.{applications, Known, apply_documents-counts}

rule_of-id :
    (id : String) (rules : List CompiledFaultRule) (r : CompiledFaultRule)
    → rule_of id rules ≡ some r
    → r.fault_id ≡ id
unfolding rule_of
rule_of-id id [] r found = absurd (ground arith)
rule_of-id id (x ∷ xs) r found = elim (Bool-cases (x.fault_id == id)) [
  | inl same ↦
      let this : x ≡ r = ground arith in subst (λ z. z.fault_id ≡ id) this (==→≡ x.fault_id id same)
  | inr differ ↦ rule_of-id id xs r (ground arith)
]

module _ (h : Hashing) (engine : Engine) (scope : Scope) (documents : List Document) where
  entry-Known :
      (matched : List Match) (d : Document) (p : FaultPayload) (e : Match)
      → match_entry h engine scope documents matched d p ≡ ok e
      → rule_of e.rule.fault_id engine.plan.rules ≡ some e.rule
  unfolding match_entry
  entry-Known matched d p e eq =
      let (rule, found, on) =
        bind_ok (or_raise (rule_of p.fault_id engine.plan.rules) history_validation) _ e eq in
      let (request, checked, returned) =
        bind_ok (authentic_request h engine scope documents matched d p rule) _ e on in
      let of_fault =
        or_raise-some history_validation (rule_of p.fault_id engine.plan.rules) found in
      subst (λ z. rule_of z.rule.fault_id engine.plan.rules ≡ some z.rule)
        (ok_injective _ e _ refl returned)
        (ap (λ i. rule_of i engine.plan.rules)
            (rule_of-id p.fault_id engine.plan.rules rule of_fault)
          ∙ of_fault)

  event-Known :
      (matched matched' : List Match) (d : Document) (payload : Payload)
      → Known engine.plan.rules matched
      → match_event h engine scope documents matched d payload ≡ ok matched'
      → Known engine.plan.rules matched'
  event-Known matched matched' d (fault_matched p) known eq =
      let (e, entered, returned) =
        bind_ok (match_entry h engine scope documents matched d p) _ matched' eq in
      subst (Known engine.plan.rules) (ok_injective (e ∷ matched) matched' _ refl returned)
        (entry-Known matched d p e entered, known)
  event-Known matched matched' d _ known eq =
      subst (Known engine.plan.rules) (ok_injective matched matched' (ok matched) refl eq) known

  matched-Known :
      (ds : List Document) (matched matched' : List Match)
      → Known engine.plan.rules matched
      → match_documents h engine scope documents ds matched ≡ ok matched'
      → Known engine.plan.rules matched'
  unfolding match_documents
  matched-Known [] matched matched' known eq =
      subst (Known engine.plan.rules) (ok_injective matched matched' (ok matched) refl eq) known
  matched-Known (d ∷ ds) matched matched' known eq =
      let (next, first, later) =
        bind_ok (match_event h engine scope documents matched d d.payload) _ matched' eq in
      matched-Known ds next matched' (event-Known matched next d d.payload known first) later

first_count :
    (id : String) (rules : List CompiledFaultRule) (r : CompiledFaultRule)
    → rule_of id rules ≡ some r
    → lookup {A = ℕ} id (map (λ x. (x.fault_id, 0)) rules) ≡ some 0
unfolding rule_of lookup
first_count id [] r found = absurd (ground arith)
first_count id (x ∷ xs) r found = elim (Bool-cases (x.fault_id == id)) [
  | inl same ↦ rw (same) refl
  | inr differ ↦ rw (differ) (first_count id xs r (ground arith))
]

validated-IsOrdered :
    (h : Hashing) (plan : CompiledFaultPlan)
    → validate_plan h plan ≡ ok tt
    → IsOrdered (map (λ r. r.fault_id) plan.rules)
unfolding validate_plan
validated-IsOrdered h plan eq =
    let (valid, digesting) = then_ok (validate_rules h plan.scenario_digest plan.rules) _ tt eq in
    let (t, digested, compared) = bind_ok (digest_compiled_plan h plan) _ tt digesting in
    digested-IsOrdered h plan t digested

-- Where the authentication of a history returns, the count of each rule of the plan is the number of the
-- `fault.applied` events of its fault among the events that are not ignored, and is within the rule's cap.
pub authenticate_fault_history-counts :
    (h : Hashing) (documents : List Document) (engine : Engine) (scope : Scope)
    (history : AuthenticatedFaultHistory) (r : CompiledFaultRule)
    → authenticate_fault_history h documents engine scope ≡ ok history
    → Among r engine.plan.rules
    → (lookup r.fault_id history.counts
        ≡ some (applications r.fault_id (filtered scope.ignore_request_event_id documents)))
      × (applications r.fault_id (filtered scope.ignore_request_event_id documents)
          ≤ r.max_occurrences)
unfolding authenticate_fault_history
authenticate_fault_history-counts h documents engine scope history r eq here =
    let rules = engine.plan.rules in
    let kept = filtered scope.ignore_request_event_id documents in
    let (right, validating) =
      require_ok (engine.plan.scenario_digest == scope.scenario_digest) history_validation _ history
        eq in
    let (valid, checking) = then_ok (validate_plan h engine.plan) _ history validating in
    let (coherent, matching) =
      require_ok (is_unique (map (λ d. d.event_id) kept) && all_of_run scope.run_id kept)
        history_validation _ history checking in
    let (matched, found, applying) =
      bind_ok (match_documents h engine scope kept kept []) _ history matching in
    let (t, applied, closing) =
      bind_ok (apply_documents kept matched kept (first_tally rules)) _ history applying in
    let (same, backing) =
      require_ok (same_set (map (λ e. e.activation_id) matched) t.applied) history_validation _
        history closing in
    let (backed, returned) =
      require_ok (all_backed t.applied kept) history_validation _ history backing in
    let known = rule_of_lem rules r (validated-IsOrdered h engine.plan valid) here in
    let (counts, cap) =
      apply_documents-counts rules r known kept matched kept (first_tally rules) t 0
        (matched-Known h engine scope kept kept [] matched tt found) applied
        (first_count r.fault_id rules r known) (omega arith) in
    let all_of : 0 + applications r.fault_id kept ≡ applications r.fault_id kept = omega arith in
    (
      subst (λ z. lookup r.fault_id z.counts ≡ some (applications r.fault_id kept))
          (ok_injective _ history _ refl returned) (counts ∙ ap some all_of),
      subst (λ m. m ≤ r.max_occurrences) all_of cap,
    )
