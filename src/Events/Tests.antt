-- ===== src/Events/Tests.antt =====
-- The theorems on the event log at a concrete log.
use chaosagent.Base.{ℕ, ◌≡◌, refl, String, none, List, [], ◌∷◌, ok, arith}
use chaosagent.Lifecycle.{queued}
use chaosagent.Store.Tables.{Event, other, Run, Db}
use chaosagent.Store.Rows.{find_run}
use chaosagent.Events.{
  fits_jsonb, event_id_exists, sequence_exists, append_event, max_sequence, append_event_allocated,
}
use chaosagent.Store.Identifiers.{is_identifier, matches_identifier}
use chaosagent.Events.Reads.{insert_event, sorted_events, fetch_events, fetch_event_page}
use chaosagent.Events.Pages.{pages_follow_on}
use chaosagent.Events.Log.{IsLog, append_event-IsLog, allocated_succeeds}

abbrev noted : String → ℕ → Event
noted id sequence = record {
  event_id = id;
  run_id = "run-1";
  sequence = sequence;
  occurred_at = 7;
  recorded_at = 7;
  producer_component = "worker";
  producer_instance_id = none;
  correlation_id = "run-1";
  causation_event_id = none;
  payload = other "agent.step" [];
}

abbrev run1 : Run
run1 = record {
  run_id = "run-1";
  status = queued;
  lifecycle_version = 0;
  lease_owner = none;
  lease_token = none;
  lease_expires_at = none;
  heartbeat_at = none;
  attempt = 0;
  created_at = 5;
  fault_seed = none;
}

abbrev logged : List Event → Db
logged events = record {
  runs = run1 ∷ [];
  events = events;
  payments = [];
  refunds = [];
  tickets = [];
  effects = [];
}

append_second :
    append_event (noted "b" 2) (logged (noted "a" 1 ∷ []))
    ≡ ok (logged (noted "b" 2 ∷ noted "a" 1 ∷ []))
unfolding append_event fits_jsonb event_id_exists sequence_exists find_run
append_second = refl

one-IsLog : IsLog (noted "a" 1 ∷ [])
unfolding event_id_exists sequence_exists
one-IsLog = (refl, refl, omega arith, omega arith, tt)

append_event-IsLog_example : IsLog (noted "b" 2 ∷ noted "a" 1 ∷ [])
append_event-IsLog_example =
    append_event-IsLog (noted "b" 2) (logged (noted "a" 1 ∷ []))
      (logged (noted "b" 2 ∷ noted "a" 1 ∷ [])) one-IsLog append_second

allocated_succeeds_example :
    append_event_allocated "run-1" (λ n. ok (noted "b" n)) (logged (noted "a" 4 ∷ []))
    ≡ ok (logged (noted "b" 5 ∷ noted "a" 4 ∷ []))
unfolding find_run max_sequence fits_jsonb event_id_exists
allocated_succeeds_example =
    allocated_succeeds "run-1" (λ n. ok (noted "b" n)) (logged (noted "a" 4 ∷ [])) run1
      (noted "b" 5) refl (omega arith) refl refl refl refl refl

abbrev two_events : List Event
two_events = noted "b" 2 ∷ noted "a" 1 ∷ []

two-IsLog : IsLog two_events
unfolding event_id_exists sequence_exists
two-IsLog = (refl, refl, omega arith, omega arith, (refl, refl, omega arith, omega arith, tt))

first_page : fetch_event_page "run-1" 0 1 (logged two_events) ≡ ok (noted "a" 1 ∷ [])
unfolding fetch_event_page is_identifier matches_identifier sorted_events insert_event
first_page = refl

others : fetch_events "run-1" 1 none (logged two_events) ≡ ok (noted "b" 2 ∷ [])
unfolding fetch_events sorted_events insert_event
others = refl

pages_follow_on_example :
    fetch_events "run-1" 0 none (logged two_events) ≡ ok (noted "a" 1 ∷ noted "b" 2 ∷ [])
pages_follow_on_example =
    pages_follow_on "run-1" 0 1 (logged two_events) (noted "a" 1 ∷ []) (noted "b" 2 ∷ []) two-IsLog
      first_page others
