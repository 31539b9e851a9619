-- ===== src/Faults/Application.antt =====
-- The fault engine in packages/faults/src/chaosagent_faults/application.py. A directive that sleeps adds
-- its duration to the list of sleeps that a call returns. That a selection was issued by this engine, which
-- the code checks by object identity, is taken for granted.
use chaosagent.Base.{
  ℕ, suc, ℤ, pos, negsuc, String, Bool, true, false, not, ◌&&◌, ◌||◌, Option, none, some, List, [],
  ◌∷◌, leb, length, ◌==◌, nat_eq, string_eq, Result, ok, err, if◌then◌else◌,
}
use chaosagent.Store.Identifiers.{codes}
use chaosagent.Events.{max_safe_integer}
use chaosagent.Json.{
  Value, null, boolean, integer, text, array, object, Items, nil, cons, Members, end, member, get,
  has_exactly,
}
use chaosagent.Faults.{
  FaultPhase, phase_eq, FaultKind, delay, timeout, http_error, malformed_response, stale_field,
  ambiguous_post_commit_timeout, auth_error, indirect_prompt_injection, duplicate_response,
  FaultError, application, CompiledFaultRule, FaultDecision,
}

pub data FaultFailureCode : Type 0 where
  fault_timeout fault_malformed_response : FaultFailureCode
  fault_http fault_auth : ℕ → FaultFailureCode

pub record FaultSelection : Type 0 where
  pub decisions : List FaultDecision
  pub matched_rules : List CompiledFaultRule
  pub reportable_not_matched : List FaultDecision

pub record AppliedFault : Type 0 where
  pub rule : CompiledFaultRule
  pub activation_id : String

pub record FaultApplicationResult : Type 0 where
  pub applied : List AppliedFault
  pub output : Option Members
  pub failure_code : Option FaultFailureCode

-- `by_id[fault_id]`
unfoldable pub rule_of : String → List CompiledFaultRule → Option CompiledFaultRule
rule_of id [] = none
rule_of id (r ∷ rs) = if r.fault_id == id then some r else rule_of id rs

abbrev pub cons_some {ℓ} : {A : Type ℓ} → Option A → List A → List A
cons_some none xs = xs
cons_some (some x) xs = x ∷ xs

unfoldable pub matched_rules_of :
    List CompiledFaultRule → List FaultDecision → List CompiledFaultRule
matched_rules_of rules [] = []
matched_rules_of rules (d ∷ ds) =
    let rest = matched_rules_of rules ds in
    if d.matched then cons_some (rule_of d.fault_id rules) rest else rest

abbrev pub is_reportable : Option CompiledFaultRule → String → FaultPhase → Bool
is_reportable none tool_id phase = false
is_reportable (some r) tool_id phase = r.tool_id == tool_id && r.phase == phase

unfoldable pub reportable_of :
    List CompiledFaultRule → String → FaultPhase → List FaultDecision → List FaultDecision
reportable_of rules tool_id phase [] = []
reportable_of rules tool_id phase (d ∷ ds) =
    let rest = reportable_of rules tool_id phase ds in
    if not d.matched && is_reportable (rule_of d.fault_id rules) tool_id phase
    then d ∷ rest
    else rest

-- `_activation_id`
unfoldable pub activations_of : String → List FaultDecision → List (Option String)
activations_of id [] = []
activations_of id (d ∷ ds) =
    let rest = activations_of id ds in
    if d.matched && d.fault_id == id then d.activation_id ∷ rest else rest

abbrev pub only_activation : List (Option String) → Result FaultError String
only_activation (some a ∷ []) = ok a
only_activation _ = err application

unfoldable pub activation_of : List FaultDecision → CompiledFaultRule → Result FaultError String
unfolding activations_of
activation_of decisions rule = only_activation (activations_of rule.fault_id decisions)

abbrev pub is_integer_between : ℕ → ℕ → Option Value → Bool
is_integer_between low high (some (integer (pos n))) = leb low n && leb n high
is_integer_between low high _ = false

abbrev pub is_status : ℕ → ℕ → Option Value → Bool
is_status a b (some (integer (pos n))) = n == a || n == b
is_status a b _ = false

abbrev pub is_text_of : String → String → Option Value → Bool
is_text_of a b (some (text s)) = s == a || s == b
is_text_of a b _ = false

abbrev pub starts_with_slash : String → Bool
starts_with_slash String.[] = false
starts_with_slash (String.◌∷◌ c rest) = Prim.Native.Char.code c == b'/'

abbrev pub is_pointer : Option Value → Bool
is_pointer (some (text s)) = starts_with_slash s
is_pointer _ = false

abbrev pub is_content : Option Value → Bool
is_content (some (text s)) = leb 1 (length (codes s)) && leb (length (codes s)) 4000
is_content _ = false

abbrev pub is_safe_integer : ℤ → Bool
is_safe_integer (pos n) = leb n max_safe_integer
is_safe_integer (negsuc n) = leb (suc n) max_safe_integer

-- `_validate_json`
unfoldable mutual
  pub is_json : Value → Bool
  is_json null = true
  is_json (boolean b) = true
  is_json (integer n) = is_safe_integer n
  is_json (text s) = true
  is_json (array xs) = are_json xs
  is_json (object d) = are_members d

  pub are_json : Items → Bool
  are_json nil = true
  are_json (cons x xs) = is_json x && are_json xs

  pub are_members : Members → Bool
  are_members end = true
  are_members (member k v rest) = is_json v && are_members rest

abbrev pub is_some_json : Option Value → Bool
is_some_json none = false
is_some_json (some v) = is_json v

-- `_validate_parameters`: false is the FaultApplicationError
unfoldable pub has_parameters : FaultKind → Members → Bool
has_parameters kind d = elim kind [
  | delay ↦ has_exactly ("duration_ms" ∷ []) d && is_integer_between 1 600_000 (get "duration_ms" d)
  | timeout ↦
      has_exactly ("duration_ms" ∷ []) d && is_integer_between 1 600_000 (get "duration_ms" d)
  | ambiguous_post_commit_timeout ↦
      has_exactly ("duration_ms" ∷ []) d && is_integer_between 1 600_000 (get "duration_ms" d)
  | http_error ↦ has_exactly ("status" ∷ []) d && is_status 429 503 (get "status" d)
  | auth_error ↦ has_exactly ("status" ∷ []) d && is_status 401 403 (get "status" d)
  | malformed_response ↦
      has_exactly ("mode" ∷ []) d && is_text_of "invalid_json" "schema_violation" (get "mode" d)
  | stale_field ↦
      has_exactly ("json_pointer" ∷ "value" ∷ []) d
      && (is_pointer (get "json_pointer" d) && is_some_json (get "value" d))
  | indirect_prompt_injection ↦ has_exactly ("content" ∷ []) d && is_content (get "content" d)
  | duplicate_response ↦
      has_exactly ("deliveries" ∷ []) d && is_integer_between 2 10 (get "deliveries" d)
]

-- `parameters[…]` of a rule whose parameters have been validated
abbrev pub number_of : Option Value → ℕ
number_of (some (integer (pos n))) = n
number_of _ = 0

abbrev pub text_of : Option Value → String
text_of (some (text s)) = s
text_of _ = ""

abbrev pub value_of : Option Value → Value
value_of (some v) = v
value_of none = null

abbrev pub duration : CompiledFaultRule → ℕ
duration rule = number_of (get "duration_ms" rule.parameters)
