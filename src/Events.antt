-- ===== src/Events.antt =====
-- The appends and reads of Run Events in
-- packages/persistence/src/chaosagent_persistence/repository.py. An operation that raises has written
-- nothing: its writes stand in a savepoint, or come after its last test.
pub mod Log
pub mod Reads
pub mod Pages
mod Tests
use Prim.Native.Char.{code}
use Prim.Native.String
use chaosagent.Base.{
  ℕ, ◌+◌, String, Bool, true, false, not, ◌&&◌, ◌||◌, Option, none, some, List, [], ◌∷◌, ltb, leb,
  ◌==◌, nat_eq, string_eq, Result, ok, err, ◌>>=◌, ◌>>◌, require, or_raise, if◌then◌else◌,
}
use chaosagent.Lifecycle.{RunStatus, status_text}
use chaosagent.Store.Tables.{
  Error, reference_not_found, persistence_integrity, invalid_event, persistence_profile,
  duplicate_event_id, event_sequence_conflict, event_identity_and_sequence_conflict,
  LifecycleEvidence, Payload, lifecycle, other, Event, Run, Db,
}
use chaosagent.Store.Rows.{find_run}

abbrev pub max_safe_integer : ℕ
max_safe_integer = 9_007_199_254_740_991

-- `"\x00" in value`
unfoldable pub has_nul : String → Bool
has_nul String.[] = false
has_nul (String.◌∷◌ c rest) = code c == 0 || has_nul rest

abbrev pub none_has_nul : List String → Bool
none_has_nul [] = true
none_has_nul (s ∷ rest) = not (has_nul s) && none_has_nul rest

abbrev pub option_texts : Option String → List String
option_texts none = []
option_texts (some s) = s ∷ []

abbrev pub payload_has_no_nul : Payload → Bool
payload_has_no_nul (lifecycle s p reason) = none_has_nul (option_texts reason)
payload_has_no_nul (other type texts) = none_has_nul (type ∷ texts)

-- `_validate_jsonb_persistence_profile` on the texts of the document that may vary
unfoldable pub fits_jsonb : Event → Bool
unfolding has_nul
fits_jsonb e =
    (none_has_nul (e.event_id ∷ e.run_id ∷ e.producer_component ∷ e.correlation_id ∷ [])
      && none_has_nul (option_texts e.producer_instance_id))
    && (none_has_nul (option_texts e.causation_event_id) && payload_has_no_nul e.payload)

unfoldable pub event_id_exists : String → List Event → Bool
event_id_exists id [] = false
event_id_exists id (e ∷ rest) = if e.event_id == id then true else event_id_exists id rest

unfoldable pub sequence_exists : String → ℕ → List Event → Bool
sequence_exists id n [] = false
sequence_exists id n (e ∷ rest) =
    if e.run_id == id && e.sequence == n then true else sequence_exists id n rest

-- `_raise_event_conflict_or_integrity`
unfoldable pub event_conflict : Bool → Bool → Error
event_conflict id_exists seq_exists =
    if id_exists && seq_exists
    then event_identity_and_sequence_conflict
    else if id_exists
    then duplicate_event_id
    else if seq_exists
    then event_sequence_conflict
    else persistence_integrity

-- The INSERT fails on either unique key and on the range of the sequence column.
unfoldable pub append_event : Event → Db → Result Error Db
append_event e db = do
  require (fits_jsonb e) persistence_profile
  run_exists ← or_raise (find_run e.run_id db.runs) reference_not_found
  let id_exists = event_id_exists e.event_id db.events
  let seq_exists = sequence_exists e.run_id e.sequence db.events
  let in_range = leb 1 e.sequence && leb e.sequence max_safe_integer
  require (not (id_exists || (seq_exists || not in_range))) (event_conflict id_exists seq_exists)
  ok (record db { events = e ∷ db.events })

-- `coalesce(max(sequence), 0)` of one Run
unfoldable pub max_sequence : String → List Event → ℕ
max_sequence id [] = 0
max_sequence id (e ∷ rest) =
    let m = max_sequence id rest in
    if e.run_id == id then (if ltb m e.sequence then e.sequence else m) else m

unfoldable pub append_event_allocated : String → (ℕ → Result Error Event) → Db → Result Error Db
append_event_allocated run_id event_factory db = do
  run_exists ← or_raise (find_run run_id db.runs) reference_not_found
  let sequence = max_sequence run_id db.events + 1
  require (not (ltb max_safe_integer sequence)) persistence_integrity
  event ← event_factory sequence
  require (event.run_id == run_id && event.sequence == sequence) persistence_integrity
  append_event event db

-- `evidence.correlation_id or run_id`: an empty text is falsy
abbrev pub or_else : Option String → String → String
or_else none d = d
or_else (some s) d = if s == "" then d else s

unfoldable pub lifecycle_event : String → RunStatus → RunStatus → ℕ → LifecycleEvidence → ℕ → Event
lifecycle_event run_id previous_state state occurred_at evidence sequence = record {
  event_id = evidence.event_id;
  run_id = run_id;
  sequence = sequence;
  occurred_at = occurred_at;
  recorded_at = occurred_at;
  producer_component = evidence.producer_component;
  producer_instance_id = evidence.producer_instance_id;
  correlation_id = or_else evidence.correlation_id run_id;
  causation_event_id = evidence.causation_event_id;
  payload = lifecycle state previous_state evidence.reason_code;
}

-- `is_run_event` stands for the JSON Schema and canonical form that `loads_run_event` asks of the
-- document.
module _ (is_run_event : Event → Bool) where
  unfoldable pub append_lifecycle_event :
      String → RunStatus → RunStatus → ℕ → LifecycleEvidence → Db → Result Error Db
  unfolding lifecycle_event
  append_lifecycle_event run_id previous_state state occurred_at evidence =
      append_event_allocated run_id λ sequence.
        let event = lifecycle_event run_id previous_state state occurred_at evidence sequence in
        if is_run_event event then ok event else err invalid_event
