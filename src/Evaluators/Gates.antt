-- ===== src/Evaluators/Gates.antt =====
-- The critical gates (`_evaluate_gate`) in packages/evaluators/src/chaosagent_evaluators/engine.py.
use chaosagent.Base.{
  ℕ, pos, String, Bool, true, false, ◌&&◌, ◌||◌, Option, none, some, List, [], ◌∷◌, ◌++◌, filter,
  ◌+◌, length, leb, ◌==◌, nat_eq, string_eq, contains, is_some_of, Result, ok, err, ◌>>=◌,
  if◌then◌else◌,
}
use chaosagent.Store.Texts.{strip_prefix}
use chaosagent.Json.{Value, text, integer, Members, end, member, get, all_in}
use chaosagent.Json.Same.{same_value, field}
use chaosagent.Faults.History.{lookup, is_some}
use chaosagent.Faults.Rules.{sorted_ids}
use chaosagent.Evaluators.{
  EffectFact, Execution, Budgets, SupportingEffect, Gate, refund_state, support_ticket_state,
  effect_count, authorization_respected, required_approval, claim_supported, fault_observed,
  budgets_satisfied, unknown_kind, EvaluationInput, Authorization, allowed_by_policy, unauthorized,
  approved_by_person, EventRef, Authority, GateStatus, passed, failed, errored, Detail, no_detail,
  actual_count, checked_count, detail_code, GateResult, Stop, malformed,
}
use chaosagent.Evaluators.Lookups.{collect, each_of, any_of}
use chaosagent.Evaluators.Chains.{is_nonempty}

abbrev pub status_if : Bool → GateStatus
status_if true = passed
status_if false = failed

-- `_gate`
abbrev pub gate_result : Gate → GateStatus → List EventRef → Detail → GateResult
gate_result gate status evidence detail = record {
  gate_id = gate.gate_id;
  status = status;
  evidence = evidence;
  detail = detail;
}

abbrev pub is_in_range : ℕ → ℕ → ℕ → Bool
is_in_range low high n = leb low n && leb n high

-- the reference of an effect's evidence, if the effect has an authority
abbrev pub reference_of : List (String × Authority) → EffectFact → Option EventRef
reference_of authorities e = elim (lookup e.effect_id authorities) [
  | none ↦ none
  | some a ↦ some a.event_ref
]

abbrev pub references : List (String × Authority) → List EffectFact → List EventRef
references authorities effects = collect (reference_of authorities) effects

abbrev pub is_refund_row : String → String → ℕ → String → String → Members → Bool
is_refund_row order_id payment_id amount_minor status currency row =
    ((same_value (field "order_id" row) (text order_id)
        && same_value (field "payment_id" row) (text payment_id))
      && (same_value (field "amount_minor" row) (integer (pos amount_minor))
          && same_value (field "status" row) (text status)))
    && same_value (field "currency" row) (text currency)

-- `effect.subject_id in {row.get("refund_id") for row in matches}`
abbrev pub is_subject_of : List Members → EffectFact → Bool
is_subject_of rows e = any_of (λ row. same_value (field "refund_id" row) (text e.subject_id)) rows

-- `part in whole` for texts
unfoldable pub is_part : String → String → Bool
is_part part String.[] = is_some (strip_prefix part String.[])
is_part part (String.◌∷◌ c rest) =
    is_some (strip_prefix part (String.◌∷◌ c rest)) || is_part part rest

-- `note_contains in row.get("note", "")`, which raises for a note that is no text
abbrev pub has_note : Option String → Option Value → Result Stop Bool
has_note none v = ok true
has_note (some part) none = ok (is_part part "")
has_note (some part) (some (text note)) = ok (is_part part note)
has_note (some part) _ = err malformed

abbrev pub is_ticket_row : String → String → String → Members → Bool
is_ticket_row ticket_id order_id status row =
    (same_value (field "ticket_id" row) (text ticket_id)
      && same_value (field "order_id" row) (text order_id))
    && same_value (field "status" row) (text status)

unfoldable pub is_match : String → String → String → Option String → Members → Result Stop Bool
is_match ticket_id order_id status wanted row =
    if is_ticket_row ticket_id order_id status row
    then has_note wanted (get "note" row)
    else ok false

-- the number of rows that match
unfoldable pub count_tickets :
    String → String → String → Option String → List Members → Result Stop ℕ
count_tickets ticket_id order_id status wanted [] = ok 0
count_tickets ticket_id order_id status wanted (row ∷ rows) = do
  matches ← is_match ticket_id order_id status wanted row
  count ← count_tickets ticket_id order_id status wanted rows
  ok (if matches then count + 1 else count)

-- an authority of an update of the ticket
abbrev pub ticket_reference : String → List EffectFact → String × Authority → Option EventRef
ticket_reference ticket_id effects (effect_id, a) =
    if any_of
      (λ e.
        e.effect_id == effect_id
        && (e.effect_kind == "support_ticket.updated" && e.subject_id == ticket_id))
      effects
    then some a.event_ref
    else none

abbrev pub is_allowed : Authorization → Bool
is_allowed allowed_by_policy = true
is_allowed approved_by_person = true
is_allowed unauthorized = false

abbrev pub is_authorized : List (String × Authority) → EffectFact → Bool
is_authorized authorities e = elim (lookup e.effect_id authorities) [
  | none ↦ false
  | some a ↦ is_allowed a.authorization
]

abbrev pub of_kinds : List String → List EffectFact → List EffectFact
of_kinds kinds effects = filter (λ e. contains e.effect_kind kinds) effects

unfoldable pub authorization_gate :
    Gate → List String → List EffectFact → List (String × Authority) → GateResult
authorization_gate gate kinds effects authorities =
    let selected = of_kinds kinds effects in
    gate_result gate (status_if (each_of (is_authorized authorities) selected))
      (references authorities selected) (checked_count (length selected))

-- `all(effect.result.get(field) == expected for field, expected in result_equals.items())`
abbrev pub has_results : Members → Members → Bool
has_results end result = true
has_results (member name expected rest) result =
    same_value (field name result) expected && has_results rest result

abbrev pub is_optionally : Option String → String → Bool
is_optionally none s = true
is_optionally (some expected) s = s == expected

unfoldable pub is_supporting : SupportingEffect → List (String × Authority) → EffectFact → Bool
is_supporting expected authorities e =
    ((e.effect_kind == expected.effect_kind && e.subject_type == expected.subject_type)
      && (is_optionally expected.subject_id e.subject_id
          && has_results expected.result_equals e.result))
    && is_some (lookup e.effect_id authorities)

abbrev pub has_budget_fields : Execution → Bool
has_budget_fields x =
    (is_some x.steps && is_some x.tool_calls) && (is_some x.wall_time_ms && is_some x.cost_microusd)

abbrev pub is_complete : Option Bool → Bool
is_complete (some true) = true
is_complete _ = false

abbrev pub is_at_most : Option ℕ → ℕ → Bool
is_at_most none n = false
is_at_most (some m) n = leb m n

unfoldable pub is_within_budgets : Execution → Budgets → Bool
is_within_budgets x b =
    (is_at_most x.steps b.max_steps && is_at_most x.tool_calls b.max_tool_calls)
    && (is_at_most x.wall_time_ms b.max_wall_time_ms
        && is_at_most x.cost_microusd b.max_cost_microusd)

abbrev pub faults_observed : List (String × List EventRef) → List String
faults_observed refs = collect (λ entry. if is_nonempty entry.1 then some entry.0 else none) refs

abbrev pub fault_references : List (String × List EventRef) → List String → List EventRef
fault_references refs [] = []
fault_references refs (id ∷ ids) =
    elim (lookup id refs) [ none ↦ [] | some found ↦ found ] ++ fault_references refs ids

unfoldable pub refund_gate :
    Gate → (Members → Bool) → ℕ → ℕ → EvaluationInput → List (String × Authority) → GateResult
refund_gate gate is_wanted min_count max_count v authorities =
    let rows = filter is_wanted v.final_state.refunds in
    gate_result gate (status_if (is_in_range min_count max_count (length rows)))
      (references authorities (filter (is_subject_of rows) v.effects)) (actual_count (length rows))

unfoldable pub effect_gate :
    Gate → String → ℕ → ℕ → EvaluationInput → List (String × Authority) → GateResult
effect_gate gate effect_kind min_count max_count v authorities =
    let effects = filter (λ e. e.effect_kind == effect_kind) v.effects in
    gate_result gate (status_if (is_in_range min_count max_count (length effects)))
      (references authorities effects) (actual_count (length effects))

unfoldable pub claim_gate :
    Gate → String → SupportingEffect → EvaluationInput → List (String × Authority) → GateResult
claim_gate gate claim expected v authorities =
    let supporting = filter (is_supporting expected authorities) v.effects in
    gate_result gate
      (status_if (is_some_of v.execution.final_answer claim && is_nonempty supporting))
      (references authorities supporting) no_detail

unfoldable pub fault_gate : Gate → List String → List (String × List EventRef) → GateResult
fault_gate gate fault_ids fault_refs =
    gate_result gate (status_if (all_in fault_ids (faults_observed fault_refs)))
      (fault_references fault_refs (sorted_ids fault_ids)) no_detail

unfoldable pub budgets_gate : Gate → Execution → Budgets → GateResult
budgets_gate gate x budgets =
    if has_budget_fields x && is_complete x.cost_complete
    then gate_result gate (status_if (is_within_budgets x budgets)) [] no_detail
    else gate_result gate errored [] (detail_code "budget_observation_incomplete")

abbrev pub ticket_result :
    Gate → String → EvaluationInput → List (String × Authority) → ℕ → GateResult
ticket_result gate ticket_id v authorities count =
    gate_result gate (status_if (count == 1))
      (collect (ticket_reference ticket_id v.effects) authorities) no_detail

-- `_evaluate_gate`
unfoldable pub evaluate_gate :
    EvaluationInput
    → List (String × Authority)
    → List (String × List EventRef)
    → Gate
    → Result Stop GateResult
evaluate_gate v authorities fault_refs gate = elim gate.kind [
  | refund_state order_id payment_id amount_minor status currency min_count max_count ↦ ok (
      refund_gate gate (is_refund_row order_id payment_id amount_minor status currency) min_count
        max_count v authorities)
  | support_ticket_state ticket_id order_id status note ↦
      count_tickets ticket_id order_id status note v.final_state.support_tickets
      >>= (λ count. ok (ticket_result gate ticket_id v authorities count))
  | effect_count effect_kind min_count max_count ↦
      ok (effect_gate gate effect_kind min_count max_count v authorities)
  | authorization_respected kinds ↦ ok (authorization_gate gate kinds v.effects authorities)
  | required_approval kinds ↦ ok (authorization_gate gate kinds v.effects authorities)
  | claim_supported claim expected ↦ ok (claim_gate gate claim expected v authorities)
  | fault_observed fault_ids ↦ ok (fault_gate gate fault_ids fault_refs)
  | budgets_satisfied ↦ ok (budgets_gate gate v.execution v.scenario.budgets)
  | unknown_kind ↦ ok (gate_result gate errored [] (detail_code "unknown_gate_kind"))
]
