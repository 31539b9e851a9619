-- ===== src/Faults/Rules.antt =====
-- The compiler of fault rules in packages/faults/src/chaosagent_faults/matcher.py, and the checks of what
-- it has compiled. A Scenario is taken as its loader has validated it.
use chaosagent.Base.{
  ℕ, pos, String, Bool, true, false, ◌&&◌, Option, none, some, List, [], ◌∷◌, map, length, ◌==◌,
  nat_eq, string_eq, contains, Result, ok, ◌>>=◌, ◌>>◌, require, or_raise, if◌then◌else◌,
}
use chaosagent.Store.Texts.{concat, text_lt, is_digest}
use chaosagent.Json.{Value, integer, text, array, object, Items, nil, cons, Members, end, member}
use chaosagent.Faults.{
  FaultPhase, FaultKind, kind_eq, FaultError, rule_validation, kinds_by_phase, phase_text,
  kind_text, CompiledFaultRule, CompiledFaultPlan, Hashing, tool_ids, is_catalog_id, is_revision,
  is_positive_to,
}

-- A fault as a Scenario declares it.
pub record FaultDeclaration : Type 0 where
  pub id : String
  pub kind : FaultKind
  pub tool_id : String
  pub phase : FaultPhase
  pub call_ordinal : Option ℕ
  pub argument_equals : Members
  pub probability_ppm : ℕ
  pub max_occurrences : ℕ
  pub parameters : Members

pub record Scenario : Type 0 where
  pub scenario_id : String
  pub revision : String
  pub digest : String
  pub faults : List FaultDeclaration

-- `sorted(set(ids))`
unfoldable pub insert_id : String → List String → List String
insert_id id [] = id ∷ []
insert_id id (x ∷ xs) =
    let rest = insert_id id xs in
    if id == x then x ∷ xs else if text_lt id x then id ∷ x ∷ xs else x ∷ rest

unfoldable pub sorted_ids : List String → List String
sorted_ids [] = []
sorted_ids (id ∷ ids) = insert_id id (sorted_ids ids)

abbrev pub same_texts : List String → List String → Bool
same_texts [] [] = true
same_texts [] (y ∷ ys) = false
same_texts (x ∷ xs) [] = false
same_texts (x ∷ xs) (y ∷ ys) = x == y && same_texts xs ys

-- `by_id.get(id)`: the last declaration of an identity counts
abbrev pub or_declaration :
    Option FaultDeclaration → String → FaultDeclaration → Option FaultDeclaration
or_declaration (some f) id g = some f
or_declaration none id g = if g.id == id then some g else none

unfoldable pub declared : String → List FaultDeclaration → Option FaultDeclaration
declared id [] = none
declared id (f ∷ fs) = or_declaration (declared id fs) id f

abbrev pub is_positive_option : ℕ → Option ℕ → Bool
is_positive_option maximum none = true
is_positive_option maximum (some n) = is_positive_to maximum n

abbrev pub ordinal_member : Option ℕ → Members
ordinal_member none = end
ordinal_member (some n) = member "call_ordinal" (integer (pos n)) end

-- the document whose digest `_digest_compiled_rule` takes
abbrev pub rule_document : CompiledFaultRule → Value
rule_document rule = object (
    member "fault_id" (text rule.fault_id) (
      member "scenario_digest" (text rule.scenario_digest) (
        member "kind" (text (kind_text rule.kind)) (
          member "tool_id" (text rule.tool_id) (
            member "phase" (text (phase_text rule.phase)) (
              member "argument_equals" (object rule.argument_equals) (
                member "probability_ppm" (integer (pos rule.probability_ppm)) (
                  member "max_occurrences" (integer (pos rule.max_occurrences)) (
                    member "parameters" (object rule.parameters)
                      (ordinal_member rule.call_ordinal))))))))))

abbrev pub text_items : List String → Items
text_items [] = nil
text_items (s ∷ ss) = cons (text s) (text_items ss)

abbrev pub plan_document : CompiledFaultPlan → Value
plan_document plan = object (
    member "scenario_id" (text plan.scenario_id) (
      member "scenario_revision" (text plan.scenario_revision) (
        member "scenario_digest" (text plan.scenario_digest)
          (member "rules" (array (text_items (map (λ r. r.integrity_digest) plan.rules))) end))))

-- the `_require_*` calls of `_digest_compiled_rule`
unfoldable pub is_well_formed : CompiledFaultRule → Bool
is_well_formed rule =
    ((is_catalog_id rule.fault_id && is_digest rule.scenario_digest)
      && (contains rule.tool_id tool_ids && is_positive_to 1_000_000 rule.probability_ppm))
    && ((is_positive_to 1000 rule.max_occurrences && is_positive_option 1000 rule.call_ordinal)
        && contains rule.kind (kinds_by_phase rule.phase))

abbrev pub undigested_rule : String → FaultDeclaration → CompiledFaultRule
undigested_rule scenario_digest f = record {
  fault_id = f.id;
  scenario_digest = scenario_digest;
  kind = f.kind;
  tool_id = f.tool_id;
  phase = f.phase;
  call_ordinal = f.call_ordinal;
  argument_equals = f.argument_equals;
  probability_ppm = f.probability_ppm;
  max_occurrences = f.max_occurrences;
  parameters = f.parameters;
  integrity_digest = "";
}

abbrev pub is_declared : Option FaultDeclaration → Bool
is_declared none = false
is_declared (some f) = true

abbrev pub all_declared : List FaultDeclaration → List String → Bool
all_declared faults [] = true
all_declared faults (id ∷ ids) = is_declared (declared id faults) && all_declared faults ids

-- `selected`, sorted: every declared fault, or the faults asked for, which are known and named once
abbrev pub selected_ids :
    List FaultDeclaration → Option (List String) → Result FaultError (List String)
selected_ids faults none = ok (sorted_ids (map (λ f. f.id) faults))
selected_ids faults (some ids) = do
  require (length (sorted_ids ids) == length ids) rule_validation
  require (all_declared faults ids) rule_validation
  ok (sorted_ids ids)

abbrev pub undigested_plan : Scenario → List CompiledFaultRule → CompiledFaultPlan
undigested_plan scenario rules = record {
  scenario_id = scenario.scenario_id;
  scenario_revision = scenario.revision;
  scenario_digest = scenario.digest;
  rules = rules;
  integrity_digest = "";
}

module _ (h : Hashing) where
  unfoldable pub digest_canonical : Value → Result FaultError String
  digest_canonical value = do
    canonical ← or_raise (h.dumps value) rule_validation
    ok (concat "sha256:" (h.hexdigest canonical))

  unfoldable pub digest_compiled_rule : CompiledFaultRule → Result FaultError String
  digest_compiled_rule rule = do
    require (is_well_formed rule) rule_validation
    digest_canonical (rule_document rule)

  unfoldable pub digest_compiled_plan : CompiledFaultPlan → Result FaultError String
  digest_compiled_plan plan = do
    require (is_catalog_id plan.scenario_id && is_revision plan.scenario_revision) rule_validation
    require (is_digest plan.scenario_digest) rule_validation
    let fault_ids = map (λ r. r.fault_id) plan.rules
    require (same_texts fault_ids (sorted_ids fault_ids)) rule_validation
    digest_canonical (plan_document plan)

  unfoldable pub validate_compiled_rule : CompiledFaultRule → Result FaultError (Unit {0})
  validate_compiled_rule rule = do
    expected ← digest_compiled_rule rule
    require (rule.integrity_digest == expected) rule_validation

  -- the loop over the rules in `_validate_plan`
  unfoldable pub validate_rules : String → List CompiledFaultRule → Result FaultError (Unit {0})
  validate_rules scenario_digest [] = ok tt
  validate_rules scenario_digest (rule ∷ rules) = do
    validate_compiled_rule rule
    require (rule.scenario_digest == scenario_digest) rule_validation
    validate_rules scenario_digest rules

  unfoldable pub validate_plan : CompiledFaultPlan → Result FaultError (Unit {0})
  validate_plan plan = do
    validate_rules plan.scenario_digest plan.rules
    expected ← digest_compiled_plan plan
    require (plan.integrity_digest == expected) rule_validation

  unfoldable pub compile_rule : String → FaultDeclaration → Result FaultError CompiledFaultRule
  compile_rule scenario_digest f = do
    require (contains f.kind (kinds_by_phase f.phase)) rule_validation
    digest ← digest_compiled_rule (undigested_rule scenario_digest f)
    let rule : CompiledFaultRule = record (undigested_rule scenario_digest f) {
      integrity_digest = digest;
    }
    validate_compiled_rule rule
    ok rule

  unfoldable pub compile_rules :
      String → List FaultDeclaration → List String → Result FaultError (List CompiledFaultRule)
  compile_rules scenario_digest faults [] = ok []
  compile_rules scenario_digest faults (id ∷ ids) = do
    fault ← or_raise (declared id faults) rule_validation
    rule ← compile_rule scenario_digest fault
    rules ← compile_rules scenario_digest faults ids
    ok (rule ∷ rules)

  unfoldable pub compile_fault_plan :
      Scenario → Option (List String) → Result FaultError CompiledFaultPlan
  compile_fault_plan scenario selected = do
    ids ← selected_ids scenario.faults selected
    rules ← compile_rules scenario.digest scenario.faults ids
    digest ← digest_compiled_plan (undigested_plan scenario rules)
    ok (record (undigested_plan scenario rules) { integrity_digest = digest })
