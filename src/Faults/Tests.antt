-- ===== src/Faults/Tests.antt =====
-- The theorems on faults at a plan of a delay and a failing rule.
use chaosagent.Base.{
  ℕ, ◌<◌, ◌≡◌, ◌↔◌, refl, String, true, false, Option, none, some, List, [], ◌∷◌, nat_eq, string_eq,
  ok, err, All, inr,
}
use chaosagent.Store.Identifiers.{is_identifier, matches_identifier}
use chaosagent.Store.Texts.{concat, is_digest, text_lt}
use chaosagent.Json.{text, Members, end, member, get, put, holds_object}
use chaosagent.Json.Pointers.{replace_json_pointer, replace_at, split, decode}
use chaosagent.Faults.{
  before_tool, after_commit, after_tool, stale_field, application, CompiledFaultRule, FaultDecision,
  matched_rule, phase_mismatch, is_catalog_id, is_revision,
}
use chaosagent.Faults.Rules.{
  insert_id, sorted_ids, declared, is_well_formed, digest_canonical, digest_compiled_rule,
  digest_compiled_plan, validate_compiled_rule, validate_rules, validate_plan, compile_rule,
  compile_rules, compile_fault_plan, selected_ids,
}
use chaosagent.Faults.Matching.{
  occurrences, is_context, validate_snapshot, validate_context, arguments_match, selection_material,
  selection_bucket, activation_identity, decide_selection, decide_occurrence, decide_arguments,
  decide_call, match_fault_rule, match_rules, match_fault_plan,
}
use chaosagent.Faults.Application.{
  FaultFailureCode, fault_timeout, FaultSelection, FaultApplicationResult, rule_of,
  matched_rules_of, reportable_of, activations_of, activation_of, has_parameters, is_json,
}
use chaosagent.Faults.Engine.{
  apply_post_commit, stale, transform, select, apply_before, apply_after,
}
use chaosagent.Faults.Effects.{effective, delays, rules_of}
use chaosagent.Faults.Directives.{first_effect, before_outcome, after_outcome, IsChecked}
use chaosagent.Faults.Outcomes.{apply_after-effects, apply_after-err}
use chaosagent.Faults.Compiled.{compile_fault_plan-valid}
use chaosagent.Faults.Selected.{IsSelected, match_fault_rule_iff, selection_bucket-bound}
use chaosagent.Faults.Authentic.{Each, IsAuthentic, match_fault_plan-authenticates}
use chaosagent.Faults.Issued.{select-apply_before, select-apply_post_commit}
use chaosagent.Faults.Sample.{
  zeros, digest, constant_hash, scenario, rule, busy, lost, slow, plan, call,
}

compiles : compile_fault_plan constant_hash scenario none ≡ ok plan
unfolding compile_fault_plan compile_rules compile_rule digest_compiled_rule digest_compiled_plan
    digest_canonical validate_compiled_rule is_well_formed declared insert_id sorted_ids text_lt
    is_digest is_catalog_id is_revision
compiles = refl

compile_fault_plan-valid_example :
    (validate_plan constant_hash plan ≡ ok tt)
    × (digest ≡ digest)
    × (selected_ids scenario.faults none ≡ ok ("busy" ∷ "lost" ∷ "slow" ∷ []))
compile_fault_plan-valid_example =
    compile_fault_plan-valid constant_hash scenario none plan compiles

abbrev matching : String → FaultDecision
matching id = record {
  fault_id = id;
  matched = true;
  reason = matched_rule;
  selection_bucket_ppm = some 0;
  activation_id = some (concat "activation-" zeros);
}

abbrev other_phase : String → FaultDecision
other_phase id = record {
  fault_id = id;
  matched = false;
  reason = phase_mismatch;
  selection_bucket_ppm = none;
  activation_id = none;
}

abbrev decisions : List FaultDecision
decisions = matching "busy" ∷ other_phase "lost" ∷ matching "slow" ∷ []

abbrev before_selection : FaultSelection
before_selection = record {
  decisions = decisions;
  matched_rules = busy ∷ slow ∷ [];
  reportable_not_matched = [];
}

abbrev after_selection : FaultSelection
after_selection = record {
  decisions = other_phase "busy" ∷ matching "lost" ∷ other_phase "slow" ∷ [];
  matched_rules = lost ∷ [];
  reportable_not_matched = [];
}

matches : match_fault_plan constant_hash plan (call before_tool) ≡ ok decisions
unfolding match_fault_plan validate_plan validate_rules validate_compiled_rule digest_compiled_rule
    digest_compiled_plan digest_canonical is_well_formed insert_id sorted_ids text_lt is_digest
    is_catalog_id is_revision validate_snapshot validate_context is_context is_identifier
    matches_identifier match_rules match_fault_rule decide_call decide_arguments arguments_match
    decide_occurrence occurrences selection_material decide_selection selection_bucket
    activation_identity
matches = refl

selects : select constant_hash plan (call before_tool) ≡ ok before_selection
unfolding select rule_of matched_rules_of reportable_of
selects = rw (matches) refl

matches_after :
    match_fault_plan constant_hash plan (call after_commit) ≡ ok after_selection.decisions
unfolding match_fault_plan validate_plan validate_rules validate_compiled_rule digest_compiled_rule
    digest_compiled_plan digest_canonical is_well_formed insert_id sorted_ids text_lt is_digest
    is_catalog_id is_revision validate_snapshot validate_context is_context is_identifier
    matches_identifier match_rules match_fault_rule decide_call decide_arguments arguments_match
    decide_occurrence occurrences selection_material decide_selection selection_bucket
    activation_identity
matches_after = refl

selects_after : select constant_hash plan (call after_commit) ≡ ok after_selection
unfolding select rule_of matched_rules_of reportable_of
selects_after = rw (matches_after) refl

parameters_fit : All (λ r. has_parameters r.kind r.parameters ≡ true) plan.rules
unfolding has_parameters get
parameters_fit = (refl, (refl, (refl, tt)))

match_fault_plan-authenticates_example :
    Each (IsAuthentic constant_hash (call before_tool)) (busy ∷ lost ∷ slow ∷ []) decisions
match_fault_plan-authenticates_example =
    match_fault_plan-authenticates constant_hash plan (call before_tool) decisions matches

select-apply_before_example :
    (result : FaultApplicationResult) × (sleeps : List ℕ) × (apply_before before_selection
      ≡ ok (result, sleeps))
    × (rules_of result.applied ≡ busy ∷ slow ∷ [])
    × (sleeps ≡ 250 ∷ [])
    × (result.output ≡ none)
    × (before_outcome none (some busy) ≡ ok result.failure_code)
unfolding effective delays first_effect before_outcome get
select-apply_before_example =
    select-apply_before constant_hash plan (call before_tool) before_selection selects
      parameters_fit refl

select-apply_post_commit_example :
    (result : FaultApplicationResult) × (apply_post_commit after_selection ≡ ok result)
    × (rules_of result.applied ≡ lost ∷ [])
    × (result.output ≡ none)
    × (result.failure_code ≡ some fault_timeout)
select-apply_post_commit_example =
    select-apply_post_commit constant_hash plan (call after_commit) after_selection selects_after
      parameters_fit refl

match_fault_rule_iff_example :
    ((d : FaultDecision) × (match_fault_rule constant_hash busy (call before_tool) ≡ ok d)
      × (d.matched ≡ true))
    ↔ IsSelected constant_hash busy (call before_tool)
match_fault_rule_iff_example = match_fault_rule_iff constant_hash busy (call before_tool)

selection_bucket-bound_example : selection_bucket constant_hash "material" < 1_000_000
selection_bucket-bound_example = selection_bucket-bound constant_hash "material"

abbrev stale_rule : CompiledFaultRule
stale_rule =
    rule "stale" stale_field after_tool
      (member "json_pointer" (text "/status") (member "value" (text "open") end))

abbrev stale_selection : FaultSelection
stale_selection = record {
  decisions = matching "stale" ∷ matching "slow" ∷ [];
  matched_rules = stale_rule ∷ slow ∷ [];
  reportable_not_matched = [];
}

stale_ready : All (IsChecked stale_selection.decisions) stale_selection.matched_rules
unfolding activation_of activations_of has_parameters get is_json
stale_ready = (((_, refl), refl), (((_, refl), refl), tt))

abbrev change : Option Members × Option FaultFailureCode
change = (some (member "status" (text "open") end), none)

apply_after-effects_example :
    (result : FaultApplicationResult) × (sleeps : List ℕ) × (apply_after stale_selection
        (member "status" (text "paid") end)
      ≡ ok (result, sleeps))
    × (rules_of result.applied ≡ stale_rule ∷ slow ∷ [])
    × (sleeps ≡ 250 ∷ [])
    × ((result.output, result.failure_code) ≡ change)
unfolding after_outcome first_effect transform stale holds_object effective delays get put
    replace_json_pointer replace_at split decode
apply_after-effects_example =
    apply_after-effects stale_selection (member "status" (text "paid") end) change stale_ready refl

apply_after-err_example :
    apply_after stale_selection (member "id" (text "paid") end) ≡ err application
unfolding holds_object first_effect get replace_json_pointer replace_at split decode
apply_after-err_example =
    apply_after-err stale_selection (member "id" (text "paid") end) stale_rule (text "open")
      stale_ready refl refl refl (inr refl)
