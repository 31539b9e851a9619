-- ===== src/Faults/Matching.antt =====
-- The matcher in packages/faults/src/chaosagent_faults/matcher.py: the checks of a match context, the
-- decision on each rule, and the identity of an activation.
use chaosagent.Base.{
  ℕ, pos, ◌*◌, ◌/◌, ◌^◌, String, Bool, true, false, not, ◌&&◌, Option, none, some, List, [], ◌∷◌,
  leb, ◌==◌, nat_eq, string_eq, contains, Result, ok, ◌>>=◌, ◌>>◌, require, or_raise, if◌then◌else◌,
}
use chaosagent.Store.Identifiers.{is_identifier}
use chaosagent.Store.Texts.{concat, is_digest}
use chaosagent.Events.{max_safe_integer}
use chaosagent.Json.{Value, integer, text, object, Members, end, member, get}
use chaosagent.Faults.{
  phase_eq, FaultError, rule_validation, canonicalization, phase_text, CompiledFaultRule,
  CompiledFaultPlan, FaultMatchContext, FaultDecision, FaultDecisionReason, matched_rule,
  tool_mismatch, phase_mismatch, call_ordinal_mismatch, argument_mismatch, activation_cap_reached,
  probability_not_selected, Hashing, tool_ids, is_catalog_id, is_positive_to,
}
use chaosagent.Faults.Rules.{digest_canonical, validate_compiled_rule, validate_plan}

-- the history of a context: well-formed fault identities, each once, with counts up to 1000
abbrev pub named : String → List (String × ℕ) → Bool
named id [] = false
named id ((j, n) ∷ rest) = if j == id then true else named id rest

unfoldable pub is_history : List (String × ℕ) → Bool
is_history [] = true
is_history ((id, n) ∷ rest) =
    (not (named id rest) && is_catalog_id id) && (leb n 1000 && is_history rest)

-- `prior_applied_occurrences.get(fault_id, 0)`
unfoldable pub occurrences : String → List (String × ℕ) → ℕ
occurrences id [] = 0
occurrences id ((j, n) ∷ rest) = if j == id then n else occurrences id rest

abbrev pub has_rule : String → List CompiledFaultRule → Bool
has_rule id [] = false
has_rule id (r ∷ rs) = if r.fault_id == id then true else has_rule id rs

abbrev pub all_selected : List (String × ℕ) → List CompiledFaultRule → Bool
all_selected [] rules = true
all_selected ((id, n) ∷ rest) rules = has_rule id rules && all_selected rest rules

abbrev pub not_matched : CompiledFaultRule → FaultDecisionReason → FaultDecision
not_matched rule reason = record {
  fault_id = rule.fault_id;
  matched = false;
  reason = reason;
  selection_bucket_ppm = none;
  activation_id = none;
}

-- the request facts that the selection and the activation depend on
pub record RequestFacts : Type 0 where
  pub run_seed : ℕ
  pub run_id : String
  pub logical_call_id : String
  pub attempt_number : ℕ
  pub call_ordinal : ℕ
  pub arguments_digest : String

abbrev pub facts_of : FaultMatchContext → RequestFacts
facts_of c = record {
  run_seed = c.run_seed;
  run_id = c.run_id;
  logical_call_id = c.logical_call_id;
  attempt_number = c.attempt_number;
  call_ordinal = c.call_ordinal;
  arguments_digest = c.arguments_digest;
}

-- the checks of values of `_snapshot_context` and `_validate_context_values`, but for the digest
unfoldable pub is_context : FaultMatchContext → Bool
unfolding is_history
is_context c =
    ((is_identifier c.run_id && is_identifier c.logical_call_id)
      && (is_identifier c.physical_attempt_id && is_digest c.scenario_digest))
    && ((leb c.run_seed max_safe_integer && is_positive_to max_safe_integer c.attempt_number)
        && (is_positive_to 1000 c.call_ordinal
            && (contains c.tool_id tool_ids && is_history c.prior_applied_occurrences)))

abbrev pub is_ordinal_mismatch : Option ℕ → ℕ → Bool
is_ordinal_mismatch none n = false
is_ordinal_mismatch (some m) n = not (n == m)

abbrev pub selection_document : CompiledFaultRule → RequestFacts → Value
selection_document rule facts = object (
    member "algorithm" (text "chaosagent.fault-matcher/sha256-v0") (
      member "run_seed" (integer (pos facts.run_seed)) (
        member "run_id" (text facts.run_id) (
          member "scenario_digest" (text rule.scenario_digest) (
            member "fault_id" (text rule.fault_id) (
              member "tool_id" (text rule.tool_id) (
                member "phase" (text (phase_text rule.phase)) (
                  member "logical_call_id" (text facts.logical_call_id) (
                    member "attempt_number" (integer (pos facts.attempt_number)) (
                      member "call_ordinal" (integer (pos facts.call_ordinal))
                        (member "arguments_digest" (text facts.arguments_digest) end)))))))))))

module _ (h : Hashing) where
  -- `_snapshot_context`
  unfoldable pub validate_snapshot : FaultMatchContext → Result FaultError (Unit {0})
  validate_snapshot c = do
    require (is_context c) rule_validation
    digest ← digest_canonical h (object c.arguments)
    require (c.arguments_digest == digest) rule_validation

  -- `_validate_context`
  unfoldable pub validate_context :
      CompiledFaultPlan → FaultMatchContext → Result FaultError (Unit {0})
  validate_context plan c = do
    require (c.scenario_digest == plan.scenario_digest) rule_validation
    require (all_selected c.prior_applied_occurrences plan.rules) rule_validation

  unfoldable pub json_equal : Value → Value → Result FaultError Bool
  json_equal left right = do
    a ← or_raise (h.dumps left) rule_validation
    b ← or_raise (h.dumps right) rule_validation
    ok (a == b)

  -- the loop over `argument_equals`
  unfoldable pub arguments_match : Members → Members → Result FaultError Bool
  arguments_match end arguments = ok true
  arguments_match (member name expected rest) arguments = elim (get name arguments) [
    | none ↦ ok false
    | some value ↦ do
      equal ← json_equal value expected
      elim equal [ true ↦ arguments_match rest arguments | false ↦ ok false ]
  ]

  unfoldable pub selection_material : CompiledFaultRule → RequestFacts → Result FaultError String
  selection_material rule facts =
      or_raise (h.dumps (selection_document rule facts)) canonicalization

  unfoldable pub selection_bucket : String → ℕ
  selection_bucket material = h.digest_int material * 1_000_000 / 2 ^ 256

  unfoldable pub activation_identity : String → String → String
  activation_identity material physical_attempt_id =
      concat "activation-" (h.hexdigest (concat material (concat "\0" physical_attempt_id)))

  -- the last part of `_match_fault_rule_v0`
  unfoldable pub decide_selection : CompiledFaultRule → String → String → FaultDecision
  decide_selection rule material physical_attempt_id =
      let bucket = selection_bucket material in
      if leb rule.probability_ppm bucket
      then record {
        fault_id = rule.fault_id;
        matched = false;
        reason = probability_not_selected;
        selection_bucket_ppm = some bucket;
        activation_id = none;
      }
      else record {
        fault_id = rule.fault_id;
        matched = true;
        reason = matched_rule;
        selection_bucket_ppm = some bucket;
        activation_id = some (activation_identity material physical_attempt_id);
      }

  unfoldable pub decide_occurrence :
      CompiledFaultRule → FaultMatchContext → Result FaultError FaultDecision
  decide_occurrence rule c =
      if leb rule.max_occurrences (occurrences rule.fault_id c.prior_applied_occurrences)
      then ok (not_matched rule activation_cap_reached)
      else (do
        material ← selection_material rule (facts_of c)
        ok (decide_selection rule material c.physical_attempt_id))

  unfoldable pub decide_arguments :
      CompiledFaultRule → FaultMatchContext → Result FaultError FaultDecision
  decide_arguments rule c = do
    equal ← arguments_match rule.argument_equals c.arguments
    elim equal [ true ↦ decide_occurrence rule c | false ↦ ok (not_matched rule argument_mismatch) ]

  unfoldable pub decide_call :
      CompiledFaultRule → FaultMatchContext → Result FaultError FaultDecision
  decide_call rule c =
      if not (c.tool_id == rule.tool_id)
      then ok (not_matched rule tool_mismatch)
      else if not (c.phase == rule.phase)
      then ok (not_matched rule phase_mismatch)
      else if is_ordinal_mismatch rule.call_ordinal c.call_ordinal
      then ok (not_matched rule call_ordinal_mismatch)
      else decide_arguments rule c

  -- `_match_fault_rule_v0`
  unfoldable pub match_fault_rule :
      CompiledFaultRule → FaultMatchContext → Result FaultError FaultDecision
  match_fault_rule rule c = do
    require (c.scenario_digest == rule.scenario_digest) rule_validation
    decide_call rule c

  unfoldable pub match_rules :
      List CompiledFaultRule → FaultMatchContext → Result FaultError (List FaultDecision)
  match_rules [] c = ok []
  match_rules (rule ∷ rules) c = do
    decision ← match_fault_rule rule c
    decisions ← match_rules rules c
    ok (decision ∷ decisions)

  unfoldable pub match_fault_plan :
      CompiledFaultPlan → FaultMatchContext → Result FaultError (List FaultDecision)
  match_fault_plan plan c = do
    validate_plan h plan
    validate_snapshot c
    validate_context plan c
    match_rules plan.rules c

  -- `expected_fault_activation_id_v0`
  unfoldable pub expected_activation_id :
      CompiledFaultRule → RequestFacts → String → Result FaultError (Option String)
  expected_activation_id rule facts physical_attempt_id = do
    validate_compiled_rule h rule
    require (is_identifier facts.run_id && is_identifier facts.logical_call_id) rule_validation
    require (is_identifier physical_attempt_id) rule_validation
    require (leb facts.run_seed max_safe_integer) rule_validation
    require (is_positive_to max_safe_integer facts.attempt_number) rule_validation
    require (is_positive_to 1000 facts.call_ordinal) rule_validation
    require (is_digest facts.arguments_digest) rule_validation
    material ← selection_material rule facts
    ok (
        if leb rule.probability_ppm (selection_bucket material)
        then none
        else some (activation_identity material physical_attempt_id))
