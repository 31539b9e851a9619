-- ===== src/Faults/Engine.antt =====
-- The methods of FaultEngine in packages/faults/src/chaosagent_faults/application.py.
use chaosagent.Base.{
  ℕ, suc, zero, ◌+◌, pos, String, Bool, true, false, not, ◌&&◌, Option, none, some, List, [], ◌∷◌,
  ◌++◌, ◌==◌, nat_eq, string_eq, contains, Result, ok, err, ◌>>=◌, ◌>>◌, require, or_raise,
  if◌then◌else◌,
}
use chaosagent.Json.{
  Value, integer, text, array, object, Members, end, member, get, repeat, holds_object,
}
use chaosagent.Json.Pointers.{replace_json_pointer}
use chaosagent.Faults.{
  after_commit, phase_eq, FaultKind, delay, timeout, http_error, malformed_response, stale_field,
  ambiguous_post_commit_timeout, auth_error, indirect_prompt_injection, duplicate_response, kind_eq,
  FaultError, application, type_error, CompiledFaultRule, CompiledFaultPlan, FaultMatchContext,
  FaultDecision, Hashing,
}
use chaosagent.Faults.Matching.{RequestFacts, match_fault_plan, expected_activation_id}
use chaosagent.Faults.Application.{
  FaultFailureCode, fault_timeout, fault_malformed_response, fault_http, fault_auth, FaultSelection,
  AppliedFault, FaultApplicationResult, matched_rules_of, reportable_of, activation_of,
  has_parameters, number_of, text_of, value_of, duration,
}

-- The loop variables of the three methods; `sleeps` are the calls of the sleeper.
pub record Progress : Type 0 where
  pub applied : List AppliedFault
  pub observed : Option Members
  pub failure : Option FaultFailureCode
  pub transformed : Bool
  pub sleeps : List ℕ

abbrev pub applying : CompiledFaultRule → String → Progress → List AppliedFault
applying rule activation_id p =
    p.applied ++ record { rule = rule; activation_id = activation_id } ∷ []

-- `_failure_code`
unfoldable pub failure_code : CompiledFaultRule → Result FaultError FaultFailureCode
failure_code rule = elim rule.kind [
  | timeout ↦ ok fault_timeout
  | http_error ↦ ok (fault_http (number_of (get "status" rule.parameters)))
  | auth_error ↦ ok (fault_auth (number_of (get "status" rule.parameters)))
  | _ ↦ err application
]

abbrev pub slept : CompiledFaultRule → String → Progress → Progress
slept rule activation_id p = record p {
  applied = applying rule activation_id p;
  sleeps = p.sleeps ++ duration rule ∷ [];
}

abbrev pub is_none {ℓ} : {A : Type ℓ} → Option A → Bool
is_none none = true
is_none (some _) = false

abbrev pub is_failing : FaultKind → Bool
is_failing kind = contains kind (timeout ∷ http_error ∷ auth_error ∷ [])

-- one round of the loop of `apply_before`, after the checks
unfoldable pub before_directive : CompiledFaultRule → String → Progress → Result FaultError Progress
before_directive rule activation_id p =
    if rule.kind == delay
    then ok (slept rule activation_id p)
    else if is_none p.failure && is_failing rule.kind
    then (do
      failure ← failure_code rule
      ok (record p { failure = some failure; applied = applying rule activation_id p }))
    else if not (is_failing rule.kind)
    then err application
    else ok p

abbrev pub fault_marker : Members → Members
fault_marker fields = member "_chaosagent_fault" (object fields) end

abbrev pub representation : String → Value
representation mode = if mode == "invalid_json" then text "<invalid-json>" else object end

abbrev pub malformed : CompiledFaultRule → Members
malformed rule =
    let mode = text_of (get "mode" rule.parameters) in
    fault_marker (
      member "kind" (text "malformed_response")
        (member "mode" (text mode) (member "representation" (representation mode) end)))

-- The compiler has made every object of a rule's parameters a MappingProxyType, which `deepcopy` refuses with a
-- TypeError, before the pointer is looked at.
unfoldable pub stale : CompiledFaultRule → Members → Result FaultError Members
stale rule observed = do
  let value = value_of (get "value" rule.parameters)
  require (not (holds_object value)) type_error
  or_raise (replace_json_pointer observed (text_of (get "json_pointer" rule.parameters)) value)
      application

abbrev pub injected : CompiledFaultRule → Members → Members
injected rule observed =
    member "_chaosagent_fault"
      (object (
        member "kind" (text "indirect_prompt_injection")
          (member "untrusted_content" (text (text_of (get "content" rule.parameters))) end)))
      (member "response" (object observed) end)

abbrev pub duplicated : CompiledFaultRule → Members → Members
duplicated rule observed =
    let deliveries = number_of (get "deliveries" rule.parameters) in
    member "_chaosagent_fault"
      (object (
        member "kind" (text "duplicate_response")
          (member "deliveries" (integer (pos deliveries)) end)))
      (member "responses" (array (repeat deliveries (object observed))) end)

-- what a directive of `apply_after` makes of the output; a missing one is the failed `assert`
unfoldable pub transform :
    CompiledFaultRule
    → Option Members
    → Result FaultError (Option Members × Option FaultFailureCode)
transform rule observed = elim rule.kind [
  | timeout ↦ ok (none, some fault_timeout)
  | malformed_response ↦ ok (some (malformed rule), some fault_malformed_response)
  | stale_field ↦ do
    response ← or_raise observed application
    replaced ← stale rule response
    ok (some replaced, none)
  | indirect_prompt_injection ↦ do
    response ← or_raise observed application
    ok (some (injected rule response), none)
  | duplicate_response ↦ do
    response ← or_raise observed application
    ok (some (duplicated rule response), none)
  | _ ↦ err application
]

-- one round of the loop of `apply_after`, after the checks
unfoldable pub after_directive : CompiledFaultRule → String → Progress → Result FaultError Progress
after_directive rule activation_id p =
    if rule.kind == delay
    then ok (slept rule activation_id p)
    else if p.transformed
    then ok p
    else (do
      change ← transform rule p.observed
      ok (record p {
        observed = change.0;
        failure = change.1;
        transformed = true;
        applied = applying rule activation_id p;
      }))

abbrev pub start_with : Option Members → Progress
start_with output = record {
  applied = [];
  observed = output;
  failure = none;
  transformed = false;
  sleeps = [];
}

-- the loops, with the checks that each round makes first
unfoldable pub run_rules :
    (CompiledFaultRule → String → Progress → Result FaultError Progress)
    → List FaultDecision
    → List CompiledFaultRule
    → Progress
    → Result FaultError Progress
run_rules directive decisions [] p = ok p
run_rules directive decisions (rule ∷ rules) p = do
  activation_id ← activation_of decisions rule
  require (has_parameters rule.kind rule.parameters) application
  p' ← directive rule activation_id p
  run_rules directive decisions rules p'

abbrev pub result_of : Progress → FaultApplicationResult × List ℕ
result_of p =
    (record { applied = p.applied; output = p.observed; failure_code = p.failure }, p.sleeps)

unfoldable pub apply_before : FaultSelection → Result FaultError (FaultApplicationResult × List ℕ)
apply_before selection = do
  p ← run_rules before_directive selection.decisions selection.matched_rules (start_with none)
  ok (result_of p)

unfoldable pub apply_after :
    FaultSelection → Members → Result FaultError (FaultApplicationResult × List ℕ)
apply_after selection output = do
  p ←
      run_rules after_directive selection.decisions selection.matched_rules
        (start_with (some output))
  ok (result_of p)

-- the loop of `apply_post_commit`
unfoldable pub post_commit_rules :
    List FaultDecision
    → List CompiledFaultRule
    → List AppliedFault
    → Result FaultError (List AppliedFault)
post_commit_rules decisions [] applied = ok applied
post_commit_rules decisions (rule ∷ rules) applied = do
  require (has_parameters rule.kind rule.parameters) application
  require (rule.kind == ambiguous_post_commit_timeout && rule.phase == after_commit) application
  first ← elim applied [
    | [] ↦ do
      activation_id ← activation_of decisions rule
      ok (record { rule = rule; activation_id = activation_id } ∷ [])
    | a ∷ rest ↦ ok (a ∷ rest)
  ]
  post_commit_rules decisions rules first

abbrev pub post_commit_failure : List AppliedFault → Option FaultFailureCode
post_commit_failure [] = none
post_commit_failure (a ∷ rest) = some fault_timeout

unfoldable pub apply_post_commit : FaultSelection → Result FaultError FaultApplicationResult
apply_post_commit selection = do
  applied ← post_commit_rules selection.decisions selection.matched_rules []
  ok (record { applied = applied; output = none; failure_code = post_commit_failure applied })

-- `select`
unfoldable pub select :
    Hashing → CompiledFaultPlan → FaultMatchContext → Result FaultError FaultSelection
select h plan c = do
  decisions ← match_fault_plan h plan c
  ok (record {
    decisions = decisions;
    matched_rules = matched_rules_of plan.rules decisions;
    reportable_not_matched = reportable_of plan.rules c.tool_id c.phase decisions;
  })

abbrev pub count_from : ℕ → ℕ → List ℕ
count_from first zero = []
count_from first (suc n) = first ∷ count_from (first + 1) n

-- the ordinals under which an activation may have been made
abbrev pub ordinals : Option ℕ → Option ℕ → List ℕ
ordinals (some n) rule_ordinal = n ∷ []
ordinals none (some n) = n ∷ []
ordinals none none = count_from 1 1000

abbrev pub same_identity : Option String → String → Bool
same_identity none id = false
same_identity (some a) id = a == id

module _ (h : Hashing) where
  unfoldable pub count_matches :
      CompiledFaultRule → RequestFacts → String → String → List ℕ → Result FaultError ℕ
  count_matches rule facts attempt_id activation_id [] = ok 0
  count_matches rule facts attempt_id activation_id (n ∷ ns) = do
    expected ← expected_activation_id h rule (record facts { call_ordinal = n }) attempt_id
    matches ← count_matches rule facts attempt_id activation_id ns
    ok (if same_identity expected activation_id then matches + 1 else matches)

  -- `authenticates_activation`; the ordinal of `facts` is not read
  unfoldable pub authenticates_activation :
      CompiledFaultRule → RequestFacts → String → String → Option ℕ → Result FaultError Bool
  authenticates_activation rule facts attempt_id activation_id call_ordinal = do
    matches ←
        count_matches rule facts attempt_id activation_id (ordinals call_ordinal rule.call_ordinal)
    ok (matches == 1)
