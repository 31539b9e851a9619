-- ===== src/Runs/Scenario.antt =====
-- A concrete Run taken from the queue, started, and requeued when its lease has expired.
use chaosagent.Base.{
  ℕ, ◌≡◌, refl, String, Bool, true, Option, none, some, [], ◌∷◌, arith, ok, ltb, length, nat_eq,
  string_eq, ◌+◌,
}
use chaosagent.Lifecycle.{
  RunStatus, queued, provisioning, running, status_eq, claim_transition, owned_transition,
  unleased_transition, recovery_transition,
}
use chaosagent.Store.Tables.{Run, LeaseIdentity, LifecycleEvidence, Event, lifecycle, Db}
use chaosagent.Store.Identifiers.{codes, is_identifier, is_lease_identity, is_lease_duration}
use chaosagent.Store.Rows.{find_run, replace_run, update_run}
use chaosagent.Events.{
  fits_jsonb, event_id_exists, sequence_exists, event_conflict, append_event, max_sequence,
  append_event_allocated, append_lifecycle_event,
}
use chaosagent.Leases.{
  Clock, owns, lease_mutation_failure, unleased_mutation_failure, requeue_failure, heartbeat_test,
  transition_test, unleased_test, requeue_test, claimed, extended, unleased, restated, transitioned,
  precedes, is_candidate, first_candidate,
}
use chaosagent.Runs.{
  fresh_run, lock_current_lease, diagnosis, heartbeat, change_status, claim_next_run,
  transition_owned_run, cancel_queued_run, requeue_expired_run,
}
use chaosagent.Runs.Queue.{IsStrictOrder}
use chaosagent.Runs.Steps.{
  Reach, start, more, claim_step, transition_step, requeue_step, AppendsOther,
}

abbrev pub any_event : Event → Bool
any_event e = true

abbrev pub evidence : String → LifecycleEvidence
evidence id = record {
  event_id = id;
  producer_component = "worker";
  producer_instance_id = none;
  correlation_id = none;
  causation_event_id = none;
  reason_code = none;
}

abbrev pub run1 : Run
run1 = record {
  run_id = "run-1";
  status = queued;
  lifecycle_version = 0;
  lease_owner = none;
  lease_token = none;
  lease_expires_at = none;
  heartbeat_at = none;
  attempt = 0;
  created_at = 5;
  fault_seed = none;
}

abbrev pub run2 : Run
run2 = record run1 { run_id = "run-2"; created_at = 3 }

abbrev pub db0 : Db
db0 = record {
  runs = run1 ∷ run2 ∷ [];
  events = [];
  payments = [];
  refunds = [];
  tickets = [];
  effects = [];
}

abbrev pub at : ℕ → Clock
at t = record { at_update = t; after_update = t + 1 }

-- shorter texts first
abbrev pub by_length : String → String → Bool
by_length a b = ltb (length (codes a)) (length (codes b))

pub by_length-IsStrictOrder : IsStrictOrder by_length
by_length-IsStrictOrder = record {
  irreflexive = λ a. ground arith;
  transitive = λ a b c p q. ground arith;
}

unfoldable pub opened : Unit {0}
unfolding claim_transition owned_transition unleased_transition recovery_transition is_identifier
    is_lease_identity is_lease_duration find_run replace_run update_run fits_jsonb event_id_exists
    sequence_exists event_conflict append_event max_sequence append_event_allocated
    append_lifecycle_event owns lease_mutation_failure unleased_mutation_failure requeue_failure
    heartbeat_test transition_test unleased_test requeue_test claimed extended unleased restated
    transitioned precedes is_candidate first_candidate fresh_run lock_current_lease diagnosis
    heartbeat change_status claim_next_run transition_owned_run cancel_queued_run
    requeue_expired_run
opened = tt

abbrev pub row2 : ℕ → RunStatus → Option String → Option String → Option ℕ → Option ℕ → ℕ → Run
row2 version status owner token expiry beat attempt = record run2 {
  status = status;
  lifecycle_version = version;
  lease_owner = owner;
  lease_token = token;
  lease_expires_at = expiry;
  heartbeat_at = beat;
  attempt = attempt;
}

abbrev pub event2 : ℕ → String → ℕ → RunStatus → RunStatus → Event
event2 time id sequence p s = record {
  event_id = id;
  run_id = "run-2";
  sequence = sequence;
  occurred_at = time;
  recorded_at = time;
  producer_component = "worker";
  producer_instance_id = none;
  correlation_id = "run-2";
  causation_event_id = none;
  payload = lifecycle s p none;
}

abbrev pub claimed_row : Run
claimed_row = row2 1 provisioning (some "w-1") (some "lease-a") (some 30000100) (some 100) 1

abbrev pub lease1 : LeaseIdentity
lease1 = record { run_id = "run-2"; worker_id = "w-1"; lease_token = "lease-a"; attempt = 1 }

abbrev pub db1 : Db
db1 = record db0 {
  runs = run1 ∷ claimed_row ∷ [];
  events = event2 101 "e-1" 1 queued provisioning ∷ [];
}

pub claim_run2 :
    claim_next_run any_event by_length [] (at 100) "w-1" 30 (evidence "e-1") none "lease-a" db0
    ≡ ok (some (record { run = claimed_row; lease = lease1 }), db1)
unfolding opened
claim_run2 = refl

abbrev pub running_row : Run
running_row = row2 2 running (some "w-1") (some "lease-a") (some 30000100) (some 100) 1

abbrev pub db2 : Db
db2 = record db0 {
  runs = run1 ∷ running_row ∷ [];
  events = event2 201 "e-2" 2 provisioning running ∷ db1.events;
}

pub start_run2 :
    transition_owned_run any_event (at 200) lease1 running 1 (evidence "e-2") db1 db1 db1
    ≡ ok (running_row, db2)
unfolding opened
start_run2 = refl

abbrev pub requeued_row : Run
requeued_row = row2 3 queued none none none none 1

abbrev pub db3 : Db
db3 = record db0 {
  runs = run1 ∷ requeued_row ∷ [];
  events = event2 40000001 "e-3" 3 running queued ∷ db2.events;
}

pub requeue_run2 :
    requeue_expired_run any_event (at 40000000) "run-2" 2 (evidence "e-3") db2 db2 db2
    ≡ ok (requeued_row, db3)
unfolding opened
requeue_run2 = refl

pub reach1 : Reach any_event db0 db1
reach1 =
    more start
      (claim_step by_length [] (at 100) "w-1" 30 (evidence "e-1") none "lease-a" _ claim_run2)

pub reach2 : Reach any_event db0 db2
unfolding reach1
reach2 =
    more reach1
      (transition_step (at 200) lease1 running 1 (evidence "e-2") db1 db1 running_row start_run2)

pub reach3 : Reach any_event db0 db3
unfolding reach2
reach3 =
    more reach2
      (requeue_step (at 40000000) "run-2" 2 (evidence "e-3") db2 db2 requeued_row requeue_run2)

pub reach3-AppendsOther : AppendsOther reach3
unfolding reach3
reach3-AppendsOther = (((tt, tt), tt), tt)
