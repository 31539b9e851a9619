-- ===== src/Faults/History.antt =====
-- `authenticate_fault_history_v0` in packages/faults/src/chaosagent_faults/history.py. An event has the
-- payload that the contract of its type gives it, so the tests for a malformed payload have no counterpart.
pub mod Passes
pub mod Counts
pub mod Caps
mod Tests
use chaosagent.Base.{
  ℕ, ◌+◌, String, Bool, true, false, not, ◌&&◌, ◌||◌, Option, none, some, List, [], ◌∷◌, ◌++◌,
  length, map, filter, ltb, leb, ◌==◌, nat_eq, string_eq, contains, is_some_of, Result, ok, err,
  ◌>>=◌, ◌>>◌, require, or_raise, if◌then◌else◌,
}
use chaosagent.Json.{Value, Members, end, member, get, all_in}
use chaosagent.Faults.{
  FaultError, history_validation, CompiledFaultRule, CompiledFaultPlan, Hashing,
}
use chaosagent.Faults.Rules.{validate_plan}
use chaosagent.Faults.Matching.{RequestFacts}
use chaosagent.Faults.Application.{rule_of}
use chaosagent.Faults.Engine.{authenticates_activation}

pub record FaultPayload : Type 0 where
  pub fault_id : String
  pub activation_id : String
  pub related_event_ids : List String

pub record AttemptPayload : Type 0 where
  pub logical_call_id : String
  pub attempt_id : String
  pub attempt_number : ℕ
  pub tool_id : String

pub data Payload : Type 0 where
  fault_matched fault_applied fault_observed : FaultPayload → Payload
  tool_requested : AttemptPayload → (arguments_digest : String) → Payload
  tool_result : AttemptPayload → (request_event_id : String) → Payload
  other : (related_event_ids : List String) → (request_event_id : Option String) → Payload

pub record Producer : Type 0 where
  pub component : String
  pub instance_id : Option String

pub record Document : Type 0 where
  pub event_id : String
  pub run_id : String
  pub sequence : ℕ
  pub causation_event_id : Option String
  pub correlation_id : Option String
  pub producer : Producer
  pub payload : Payload

-- the parameters of the call besides the documents and the engine
pub record Scope : Type 0 where
  pub run_id : String
  pub scenario_digest : String
  pub producer_component : Option String
  pub request_arguments : Option (List (String × Members))
  pub request_ordinals : Option (List (String × ℕ))
  pub ignore_request_event_id : Option String

-- what the code reads of the engine
pub record Engine : Type 0 where
  pub plan : CompiledFaultPlan
  pub run_seed : ℕ

pub record AuthenticatedFaultHistory : Type 0 where
  pub counts : List (String × ℕ)
  pub observed_event_ids : List (String × List String)

-- `mapping.get(key)`
unfoldable pub lookup {ℓ} : {A : Type ℓ} → String → List (String × A) → Option A
lookup key [] = none
lookup key ((k, a) ∷ rest) = if k == key then some a else lookup key rest

abbrev pub related : Payload → List String
related (fault_matched p) = p.related_event_ids
related (fault_applied p) = p.related_event_ids
related (fault_observed p) = p.related_event_ids
related (tool_requested p digest) = []
related (tool_result p request_event_id) = []
related (other ids request_event_id) = ids

abbrev pub is_result_of : String → Payload → Bool
is_result_of id (tool_result p request_event_id) = request_event_id == id
is_result_of id _ = false

-- `payload.get("request_event_id")`
abbrev pub request_event_of : Payload → Option String
request_event_of (tool_result p request_event_id) = some request_event_id
request_event_of (other ids request_event_id) = request_event_id
request_event_of _ = none

abbrev pub is_ignored : Option String → Document → Bool
is_ignored none d = false
is_ignored (some id) d =
    d.event_id == id
    || (contains id (related d.payload) || is_some_of (request_event_of d.payload) id)

unfoldable pub filtered : Option String → List Document → List Document
filtered ignored documents = filter (λ d. not (is_ignored ignored d)) documents

-- `by_id.get(event_id)`
unfoldable pub by_id : String → List Document → Option Document
by_id id [] = none
by_id id (d ∷ ds) = if d.event_id == id then some d else by_id id ds

abbrev pub is_unique : List String → Bool
is_unique [] = true
is_unique (x ∷ xs) = not (contains x xs) && is_unique xs

abbrev pub all_of_run : String → List Document → Bool
all_of_run run_id [] = true
all_of_run run_id (d ∷ ds) = d.run_id == run_id && all_of_run run_id ds

abbrev pub same_option : Option String → Option String → Bool
same_option none none = true
same_option (some a) (some b) = a == b
same_option _ _ = false

abbrev pub same_producer : Producer → Producer → Bool
same_producer a b = a.component == b.component && same_option a.instance_id b.instance_id

-- an entry of `matched`
pub record Match : Type 0 where
  pub activation_id : String
  pub document : Document
  pub request : Document
  pub rule : CompiledFaultRule

unfoldable pub match_of : String → List Match → Option Match
match_of id [] = none
match_of id (e ∷ es) = if e.activation_id == id then some e else match_of id es

abbrev pub is_some {ℓ} : {A : Type ℓ} → Option A → Bool
is_some none = false
is_some (some a) = true

-- the only related event, which is the request
abbrev pub only_related : List String → Option String
only_related (id ∷ []) = some id
only_related _ = none

abbrev pub request_of : List String → List Document → Option Document
request_of ids documents = elim (only_related ids) [ none ↦ none | some id ↦ by_id id documents ]

abbrev pub attempt_of : Payload → Option (AttemptPayload × String)
attempt_of (tool_requested p digest) = some (p, digest)
attempt_of _ = none

abbrev pub is_authoritative : Option String → Producer → Bool
is_authoritative none p = true
is_authoritative (some component) p = p.component == component

-- the ordinal of a request: none where ordinals are not given
abbrev pub ordinal_of : Option (List (String × ℕ)) → String → Result FaultError (Option ℕ)
ordinal_of none id = ok none
ordinal_of (some ordinals) id = elim (lookup id ordinals) [
  | none ↦ err history_validation
  | some n ↦ ok (some n)
]

abbrev pub fits_ordinal : Option ℕ → Option ℕ → Bool
fits_ordinal (some n) (some m) = n == m
fits_ordinal _ _ = true

abbrev pub arguments_of : Option (List (String × Members)) → String → Option Members
arguments_of none id = none
arguments_of (some arguments) id = lookup id arguments

abbrev pub caused_by : Document → Document → Bool
caused_by d cause = is_some_of d.causation_event_id cause.event_id

abbrev pub is_observed : String → Payload → Bool
is_observed activation_id (fault_observed p) = p.activation_id == activation_id
is_observed activation_id _ = false

abbrev pub is_application_of : String → Payload → Bool
is_application_of request_id (fault_applied p) = contains request_id p.related_event_ids
is_application_of request_id _ = false

-- the first of the documents with the greatest sequence
unfoldable pub latest : Document → List Document → Document
latest d [] = d
latest d (e ∷ es) = latest (if ltb d.sequence e.sequence then e else d) es

abbrev pub only {ℓ} : {A : Type ℓ} → List A → Option A
only (x ∷ []) = some x
only _ = none

-- `set(left) == set(right)`
abbrev pub same_set : List String → List String → Bool
same_set left right = all_in left right && all_in right left

abbrev pub same_attempt : AttemptPayload → AttemptPayload → Bool
same_attempt a b =
    (a.logical_call_id == b.logical_call_id && a.attempt_id == b.attempt_id)
    && (a.attempt_number == b.attempt_number && a.tool_id == b.tool_id)

abbrev pub result_attempt : Payload → Option AttemptPayload
result_attempt (tool_result p request_event_id) = some p
result_attempt _ = none

abbrev pub observed_fault : Payload → Option FaultPayload
observed_fault (fault_observed p) = some p
observed_fault _ = none

-- `counts[fault_id] += 1`
unfoldable pub bump : String → List (String × ℕ) → List (String × ℕ)
bump id [] = []
bump id ((k, n) ∷ rest) = if k == id then (k, n + 1) ∷ rest else (k, n) ∷ bump id rest

-- `observed_ids[fault_id].append(event_id)`
unfoldable pub note : String → String → List (String × List String) → List (String × List String)
note id event_id [] = []
note id event_id ((k, ids) ∷ rest) =
    if k == id then (k, ids ++ event_id ∷ []) ∷ rest else (k, ids) ∷ note id event_id rest

-- the variables of the loop over the `fault.applied` events
pub record Tally : Type 0 where
  pub applied : List String
  pub counts : List (String × ℕ)
  pub observed_ids : List (String × List String)
