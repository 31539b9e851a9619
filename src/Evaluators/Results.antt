-- ===== src/Evaluators/Results.antt =====
-- The results of an evaluation: their tests and canonical order in
-- packages/evaluators/src/chaosagent_evaluators/contracts.py, and the results for invalid inputs in engine.py.
use chaosagent.Base.{
  ℕ, zero, suc, ◌/◌, ◌%◌, String, Bool, true, false, not, ◌&&◌, ◌||◌, some, List, [], ◌∷◌, map, ltb,
  leb, ◌==◌, nat_eq, string_eq, contains, Result, ok, ◌>>◌, require, if◌then◌else◌,
}
use chaosagent.Store.Texts.{concat, text_lt}
use chaosagent.Faults.History.{is_unique}
use chaosagent.Evaluators.{
  EvaluationInput, EventRef, Stop, malformed, GateStatus, passed, failed, errored, EvaluationClass,
  pass, fail, invalid, GateResult, EvaluationResult, Contracts,
}
use chaosagent.Evaluators.Lookups.{each_of, any_of, sort_by}
use chaosagent.Evaluators.Chains.{is_nonempty}

abbrev pub gate_status_beq : GateStatus → GateStatus → Bool
gate_status_beq passed passed = true
gate_status_beq failed failed = true
gate_status_beq errored errored = true
gate_status_beq _ _ = false

abbrev pub has_status : GateStatus → List GateResult → Bool
has_status s results = any_of (λ g. gate_status_beq g.status s) results

-- `classification contradicts gate statuses`
abbrev pub is_contradictory : EvaluationClass → List GateResult → Bool
is_contradictory pass gates = not (each_of (λ g. gate_status_beq g.status passed) gates)
is_contradictory fail gates = not (has_status failed gates) || has_status errored gates
is_contradictory invalid gates = not (has_status errored gates) && is_nonempty gates

abbrev pub is_distinct : List ℕ → Bool
is_distinct [] = true
is_distinct (n ∷ ns) = not (contains n ns) && is_distinct ns

abbrev pub is_cited : ℕ → List EventRef → Bool
is_cited boundary refs =
    (is_unique (map (λ r. r.event_id) refs) && is_distinct (map (λ r. r.sequence) refs))
    && each_of (λ r. leb r.sequence boundary) refs

abbrev pub ref_lt : EventRef → EventRef → Bool
ref_lt a b =
    ltb a.sequence b.sequence || (a.sequence == b.sequence && text_lt a.event_id b.event_id)

abbrev pub sorted_evidence : GateResult → GateResult
sorted_evidence g = record g { evidence = sort_by ref_lt g.evidence }

-- `evaluation_result_v0`: the tests and the canonical order of a result
unfoldable pub evaluation_result : Contracts → EvaluationResult → Result Stop EvaluationResult
evaluation_result contracts r = do
  require (contracts.is_evaluation_result r) malformed
  require (is_unique (map (λ g. g.gate_id) r.critical_gates)) malformed
  require (each_of (λ g. is_cited r.evidence_through_sequence g.evidence) r.critical_gates)
      malformed
  require (not (is_contradictory r.classification r.critical_gates)) malformed
  ok (record r {
    critical_gates =
        sort_by (λ a b. text_lt a.gate_id b.gate_id) (map sorted_evidence r.critical_gates);
  })

abbrev pub at_least_one : ℕ → ℕ
at_least_one n = if ltb n 1 then 1 else n

abbrev pub digit_text : ℕ → String
digit_text d =
    if d == 0
    then "0"
    else if d == 1
    then "1"
    else if d == 2
    then "2"
    else if d == 3
    then "3"
    else if d == 4
    then "4"
    else if d == 5
    then "5"
    else if d == 6
    then "6"
    else if d == 7
    then "7"
    else if d == 8
    then "8"
    else "9"

-- `str(n)`, by divisions by ten
unfoldable pub decimal_text : ℕ → ℕ → String
decimal_text zero n = digit_text (n % 10)
decimal_text (suc fuel) n =
    let rest = decimal_text fuel (n / 10) in
    if ltb n 10 then digit_text n else concat rest (digit_text (n % 10))

-- `text[:n]`
unfoldable pub take_text : ℕ → String → String
take_text zero s = ""
take_text (suc n) String.[] = ""
take_text (suc n) (String.◌∷◌ c s) = String.◌∷◌ c (take_text n s)

-- `f"{run_id}\0{boundary}\0{last}"`
abbrev pub id_material : String → ℕ → String → String
id_material run_id boundary last =
    concat run_id (concat "\0" (concat (decimal_text 15 boundary) (concat "\0" last)))

-- `_evaluation_id`
unfoldable pub evaluation_id : Contracts → String → ℕ → String → String
evaluation_id contracts run_id boundary input_digest =
    concat "evaluation-"
      (take_text 32 (contracts.hashing.hexdigest (id_material run_id boundary input_digest)))

module _ (contracts : Contracts) where
  abbrev pub refusal : String → ℕ → ℕ → String → String → EvaluationResult
  refusal run_id boundary shown input_digest code = record {
    run_id = run_id;
    evaluation_id = evaluation_id contracts run_id boundary input_digest;
    evidence_through_sequence = shown;
    input_digest = input_digest;
    classification = invalid;
    critical_gates = [];
    error_code = some code;
  }

  -- `_invalid_result`
  unfoldable pub invalid_result : EvaluationInput → String → String → Result Stop EvaluationResult
  invalid_result v input_digest code = evaluation_result contracts (
      refusal v.run_id v.evidence_through_sequence (at_least_one v.evidence_through_sequence)
        input_digest code)
