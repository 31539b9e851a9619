-- ===== src/Evaluators/Clean.antt =====
-- A verdict other than invalid, taken apart: what the engine has gone through without an error.
use chaosagent.Base.{
  ◌≡◌, refl, sym, ap, subst, ◌∙◌, String, Bool, true, false, not, some, [], ◌++◌, map, ok, arith,
  All, bind_ok, require_ok, ok_injective, Option-cases, inl, inr,
}
use chaosagent.Faults.History.{is_unique}
use chaosagent.Evaluators.{
  EvaluationInput, IntegrityError, malformed, invalid, EvaluationResult, Contracts,
  duplicate_effect, duplicate_event, bindings_malformed,
}
use chaosagent.Evaluators.Lookups.{keyed}
use chaosagent.Evaluators.Ledger.{
  Tables, Authorities, error_unless, effect_rounds, opening_errors, closing_errors, bound_authority,
  validate_authority,
}
use chaosagent.Evaluators.Results.{evaluation_result, is_contradictory, invalid_result}
use chaosagent.Evaluators.Verdict.{malformed_result}
use chaosagent.Evaluators.Settled.{append-nil}
use chaosagent.Evaluators.Rounds.{IsSettled, errors_grow, effect_rounds-IsSettled}

error_unless-nil : (b : Bool) (e : IntegrityError) → error_unless b e ≡ [] → b ≡ true
error_unless-nil true e h = refl
error_unless-nil false e h = absurd (ground arith)

module _ (contracts : Contracts) where
  -- a result keeps its class, and its statuses fit it
  pub evaluation_result-classification :
      (x r : EvaluationResult)
      → evaluation_result contracts x ≡ ok r
      → x.classification ≡ r.classification
  unfolding evaluation_result
  evaluation_result-classification x r h =
      let (schema, on) = require_ok (contracts.is_evaluation_result x) malformed _ r h in
      let (unique, on2) =
        require_ok (is_unique (map (λ g. g.gate_id) x.critical_gates)) malformed _ r on in
      let (cited, on3) = require_ok _ malformed _ r on2 in
      let (fits, returned) =
        require_ok (not (is_contradictory x.classification x.critical_gates)) malformed _ r on3 in
      ap (λ (y : EvaluationResult). y.classification) (ok_injective _ r _ refl returned)

  pub invalid_result-classification :
      (v : EvaluationInput) (digest code : String) (r : EvaluationResult)
      → invalid_result contracts v digest code ≡ ok r
      → invalid ≡ r.classification
  unfolding invalid_result
  invalid_result-classification v digest code r h = evaluation_result-classification _ r h

  pub malformed_result-classification :
      (v : EvaluationInput) (r : EvaluationResult)
      → malformed_result contracts v ≡ ok r
      → invalid ≡ r.classification
  unfolding malformed_result
  malformed_result-classification v r h = evaluation_result-classification _ r h

  -- the authority without an error
  pub record CleanAuthority (v : EvaluationInput) (a : Authorities) : Type 0 where
    pub tables : Tables
    pub bindings : v.execution.tool_requests ≡ some tables.details
    pub bound_once : is_unique (map (λ d. d.request_event_id) tables.details) ≡ true
    pub settled : All (IsSettled contracts v tables a) v.effects
    pub closing : closing_errors v tables ≡ []

  bound_authority-clean :
      (v : EvaluationInput) (t : Tables) (a : Authorities)
      → v.execution.tool_requests ≡ some t.details
      → bound_authority contracts v t ≡ ok a
      → a.errors ≡ []
      → CleanAuthority v a
  unfolding bound_authority opening_errors
  bound_authority-clean v t a there h clean =
      let (b, made, returned) = bind_ok (effect_rounds contracts v t v.effects _) _ a h in
      let same =
        ok_injective (record b { errors = b.errors ++ closing_errors v t }) a _ refl returned in
      let both =
        append-nil b.errors (closing_errors v t)
          (ap (λ (x : Authorities). x.errors) same ∙ clean) in
      let (more, grown) = errors_grow contracts v t v.effects _ b made in
      let opening = append-nil (opening_errors v t.details) more (grown ∙ both.0) in
      let unique_events = append-nil (error_unless _ duplicate_event) _ opening.0 in
      let unique_effects = append-nil (error_unless _ duplicate_effect) _ unique_events.1 in
      let unique_details = append-nil (error_unless _ bindings_malformed) _ unique_effects.1 in
      let same_table : b.by_effect ≡ a.by_effect = ap (λ (x : Authorities). x.by_effect) same in
      record {
        tables = t;
        bindings = there;
        bound_once = error_unless-nil _ bindings_malformed unique_details.0;
        settled =
            subst (λ (x : Authorities). All (IsSettled contracts v t x) v.effects)
              (λ i. record { errors = (both.0 ∙ sym clean) i; by_effect = same_table i })
              (effect_rounds-IsSettled contracts v t v.effects _ b
                (error_unless-nil _ duplicate_effect unique_effects.0) made both.0);
        closing = both.1;
      }

  pub validate_authority-clean :
      (v : EvaluationInput) (a : Authorities)
      → validate_authority contracts v ≡ ok a
      → a.errors ≡ []
      → CleanAuthority v a
  unfolding validate_authority
  validate_authority-clean v a h clean =
      let (initial, initially, on) = bind_ok (keyed "refund_id" v.initial_state.refunds []) _ a h in
      let (final, finally, on2) = bind_ok (keyed "refund_id" v.final_state.refunds []) _ a on in
      elim (Option-cases v.execution.tool_requests) [
        | inl nothing ↦ absurd (ground arith)
        | inr (details, there) ↦
            bound_authority-clean v
              (record { initial_refunds = initial; final_refunds = final; details = details }) a
              there (ground arith) clean
      ]
