-- ===== src/Faults/History/Passes.antt =====
-- The loops of `authenticate_fault_history_v0` in packages/faults/src/chaosagent_faults/history.py.
use chaosagent.Base.{
  ℕ, String, Bool, true, not, ◌&&◌, Option, none, some, List, [], ◌∷◌, map, filter, ltb, leb, ◌==◌,
  nat_eq, string_eq, contains, is_some_of, Result, ok, err, ◌>>=◌, ◌>>◌, require, or_raise,
}
use chaosagent.Json.{Value, Members, end, member, get}
use chaosagent.Faults.{FaultError, history_validation, CompiledFaultRule, Hashing}
use chaosagent.Faults.Rules.{validate_plan}
use chaosagent.Faults.Application.{rule_of}
use chaosagent.Faults.Engine.{authenticates_activation}
use chaosagent.Faults.History.{
  Payload, FaultPayload, fault_matched, fault_applied, fault_observed, Document, Scope, Engine,
  AuthenticatedFaultHistory, lookup, is_result_of, filtered, is_unique, all_of_run, same_option,
  same_producer, Match, match_of, is_some, request_of, attempt_of, is_authoritative, ordinal_of,
  fits_ordinal, arguments_of, caused_by, is_observed, is_application_of, latest, only, same_set,
  same_attempt, result_attempt, observed_fault, bump, note, Tally,
}

module _ (h : Hashing) where
  -- `_same_json`
  unfoldable pub same_json : Value → Value → Result FaultError Bool
  same_json left right = do
    a ← or_raise (h.dumps left) history_validation
    b ← or_raise (h.dumps right) history_validation
    ok (a == b)

  -- the arguments of a request against those that the rule names
  unfoldable pub require_arguments : Members → Members → Result FaultError (Unit {0})
  require_arguments end arguments = ok tt
  require_arguments (member name expected rest) arguments = do
    value ← or_raise (get name arguments) history_validation
    same ← same_json value expected
    require same history_validation
    require_arguments rest arguments

  abbrev pub require_given_arguments : Members → Option Members → Result FaultError (Unit {0})
  require_given_arguments expected none = ok tt
  require_given_arguments expected (some arguments) = require_arguments expected arguments

  -- the request of a `fault.matched` event, after the checks of its links to the event and to the rule
  unfoldable pub authentic_request :
      Engine
      → Scope
      → List Document
      → List Match
      → Document
      → FaultPayload
      → CompiledFaultRule
      → Result FaultError Document
  authentic_request engine scope documents matched d p rule = do
    require (not (is_some (match_of p.activation_id matched))) history_validation
    request ← or_raise (request_of p.related_event_ids documents) history_validation
    asked ← or_raise (attempt_of request.payload) history_validation
    require (caused_by d request && same_option d.correlation_id request.correlation_id)
        history_validation
    require (same_producer d.producer request.producer) history_validation
    require (is_authoritative scope.producer_component d.producer) history_validation
    require_given_arguments rule.argument_equals
        (arguments_of scope.request_arguments request.event_id)
    ordinal ← ordinal_of scope.request_ordinals request.event_id
    require (asked.0.tool_id == rule.tool_id && fits_ordinal ordinal rule.call_ordinal)
        history_validation
    require (is_some_of request.correlation_id asked.0.logical_call_id) history_validation
    authentic ←
        authenticates_activation h rule
          (record {
            run_seed = engine.run_seed;
            run_id = scope.run_id;
            logical_call_id = asked.0.logical_call_id;
            attempt_number = asked.0.attempt_number;
            call_ordinal = 0;
            arguments_digest = asked.1;
          })
          asked.0.attempt_id p.activation_id ordinal
    require authentic history_validation
    require (ltb request.sequence d.sequence) history_validation
    ok request

  -- one round of the loop over the `fault.matched` events
  unfoldable pub match_entry :
      Engine
      → Scope
      → List Document
      → List Match
      → Document
      → FaultPayload
      → Result FaultError Match
  match_entry engine scope documents matched d p = do
    rule ← or_raise (rule_of p.fault_id engine.plan.rules) history_validation
    request ← authentic_request engine scope documents matched d p rule
    ok (record { activation_id = p.activation_id; document = d; request = request; rule = rule })

  abbrev pub match_event :
      Engine
      → Scope
      → List Document
      → List Match
      → Document
      → Payload
      → Result FaultError (List Match)
  match_event engine scope documents matched d (fault_matched p) = do
    entry ← match_entry engine scope documents matched d p
    ok (entry ∷ matched)
  match_event engine scope documents matched d _ = ok matched

  -- the loop; `matched` grows at its front
  unfoldable pub match_documents :
      Engine → Scope → List Document → List Document → List Match → Result FaultError (List Match)
  match_documents engine scope documents [] matched = ok matched
  match_documents engine scope documents (d ∷ ds) matched = do
    matched' ← match_event engine scope documents matched d d.payload
    match_documents engine scope documents ds matched'

-- the checks of a fault's application against its match, its request's result and its observation
unfoldable pub is_chain : Document → Match → Document → Document → Document → Bool
is_chain d entry result observed last =
    ((caused_by observed result && same_option observed.correlation_id entry.request.correlation_id)
      && (same_producer observed.producer entry.request.producer && caused_by result last))
    && ((same_option result.correlation_id entry.request.correlation_id
          && same_producer result.producer entry.request.producer)
        && (ltb d.sequence result.sequence && ltb result.sequence observed.sequence))

-- `max(request_applications, …)`, which has the application at hand among them
abbrev pub last_application : List Document → Result FaultError Document
last_application [] = err history_validation
last_application (x ∷ xs) = ok (latest x xs)

-- the observation of an application, after the checks of its links to the match and to the request's result
unfoldable pub observation_of :
    List Document → Document → FaultPayload → Match → Result FaultError Document
observation_of documents d p entry = do
  require (same_set p.related_event_ids (entry.request.event_id ∷ entry.document.event_id ∷ []))
      history_validation
  require (caused_by d entry.document && same_option d.correlation_id entry.document.correlation_id)
      history_validation
  require
      (same_producer d.producer entry.document.producer && ltb entry.document.sequence d.sequence)
      history_validation
  result ←
      or_raise (only (filter (λ e. is_result_of entry.request.event_id e.payload) documents))
        history_validation
  observed ←
      or_raise (only (filter (λ e. is_observed p.activation_id e.payload) documents))
        history_validation
  last ←
      last_application (filter (λ e. is_application_of entry.request.event_id e.payload) documents)
  asked ← or_raise (attempt_of entry.request.payload) history_validation
  answered ← or_raise (result_attempt result.payload) history_validation
  seen ← or_raise (observed_fault observed.payload) history_validation
  require (same_attempt answered asked.0 && seen.fault_id == p.fault_id) history_validation
  require
      (same_set seen.related_event_ids (entry.request.event_id ∷ d.event_id ∷ result.event_id ∷ []))
      history_validation
  require (is_chain d entry result observed last) history_validation
  ok observed

abbrev pub count_of : Option ℕ → ℕ
count_of none = 0
count_of (some n) = n

abbrev pub tallied : String → FaultPayload → Tally → Tally
tallied observed_id p t = record {
  applied = p.activation_id ∷ t.applied;
  counts = bump p.fault_id t.counts;
  observed_ids = note p.fault_id observed_id t.observed_ids;
}

-- the round, with the count and its cap
unfoldable pub apply_entry :
    List Document → List Match → Tally → Document → FaultPayload → Result FaultError Tally
apply_entry documents matched t d p = do
  entry ← or_raise (match_of p.activation_id matched) history_validation
  require (not (contains p.activation_id t.applied) && p.fault_id == entry.rule.fault_id)
      history_validation
  observed ← observation_of documents d p entry
  require (leb (count_of (lookup p.fault_id (bump p.fault_id t.counts))) entry.rule.max_occurrences)
      history_validation
  ok (tallied observed.event_id p t)

abbrev pub apply_event :
    List Document → List Match → Tally → Document → Payload → Result FaultError Tally
apply_event documents matched t d (fault_applied p) = apply_entry documents matched t d p
apply_event documents matched t d _ = ok t

unfoldable pub apply_documents :
    List Document → List Match → List Document → Tally → Result FaultError Tally
apply_documents documents matched [] t = ok t
apply_documents documents matched (d ∷ ds) t = do
  t' ← apply_event documents matched t d d.payload
  apply_documents documents matched ds t'

abbrev pub is_backed : List String → Payload → Bool
is_backed applied (fault_observed p) = contains p.activation_id applied
is_backed applied _ = true

abbrev pub all_backed : List String → List Document → Bool
all_backed applied [] = true
all_backed applied (d ∷ ds) = is_backed applied d.payload && all_backed applied ds

abbrev pub first_tally : List CompiledFaultRule → Tally
first_tally rules = record {
  applied = [];
  counts = map (λ r. (r.fault_id, 0)) rules;
  observed_ids = map (λ r. (r.fault_id, [])) rules;
}

-- `authenticate_fault_history_v0`
unfoldable pub authenticate_fault_history :
    Hashing → List Document → Engine → Scope → Result FaultError AuthenticatedFaultHistory
authenticate_fault_history h documents engine scope = do
  require (engine.plan.scenario_digest == scope.scenario_digest) history_validation
  validate_plan h engine.plan
  let kept = filtered scope.ignore_request_event_id documents
  require (is_unique (map (λ d. d.event_id) kept) && all_of_run scope.run_id kept)
      history_validation
  matched ← match_documents h engine scope kept kept []
  t ← apply_documents kept matched kept (first_tally engine.plan.rules)
  require (same_set (map (λ e. e.activation_id) matched) t.applied) history_validation
  require (all_backed t.applied kept) history_validation
  ok (record { counts = t.counts; observed_event_ids = t.observed_ids })
