-- ===== src/Runs/Tests.antt =====
-- The theorems on Runs at the databases of a concrete Run.
use chaosagent.Base.{
  ◌≤◌, ◌≡◌, ◌≢◌, refl, true, false, none, some, [], ◌∷◌, arith, ok, err, All, inl, inr, Bool-cases,
  ◌==◌, nat_eq, string_eq,
}
use chaosagent.Lifecycle.{RunStatus, queued, running, completed, cancelled, status_eq}
use chaosagent.Store.Tables.{stale_lease, Run, LifecycleEvidence, Event, other, Db}
use chaosagent.Store.Identifiers.{is_lease_identity}
use chaosagent.Store.Rows.{find_run, replace_run}
use chaosagent.Events.{append_event}
use chaosagent.Events.Log.{IsLog}
use chaosagent.Leases.{lease_state_consistency, extended, precedes, is_candidate}
use chaosagent.Runs.{
  lock_current_lease, heartbeat, claim_next_run, transition_owned_run, cancel_queued_run,
}
use chaosagent.Runs.Queue.{claim_takes_oldest}
use chaosagent.Runs.Claim.{Claimed}
use chaosagent.Runs.Transition.{Transition}
use chaosagent.Runs.Protocol.{OwnedChange, CancelledFrom, RequeuedAt}
use chaosagent.Runs.Refinement.{
  transition_owned_run-Transition, cancel_queued_run-Transition, requeue_expired_run-Transition,
}
use chaosagent.Runs.Outcomes.{heartbeat_outcome}
use chaosagent.Runs.Steps.{Reach, start, more, append_step}
use chaosagent.Runs.Safety.{runs_stay_consistent, ended_run_final, fenced_forever}
use chaosagent.Runs.History.{Agrees, history-Agrees}
use chaosagent.Runs.Scenario.{
  any_event, evidence, run1, run2, db0, at, by_length, by_length-IsStrictOrder, opened, claimed_row,
  lease1, db1, claim_run2, running_row, db2, event2, start_run2, requeued_row, db3, requeue_run2,
  reach3, reach3-AppendsOther,
}

claim_takes_oldest_example :
    (k : Run) × Claimed k "w-1" "lease-a" 100 30000100 db0 db1
      (record { run = claimed_row; lease = lease1 })
    × (is_candidate [] none k ≡ true)
    × All (λ r. is_candidate [] none r ≡ true → precedes by_length r k ≡ false) db0.runs
claim_takes_oldest_example =
    claim_takes_oldest by_length by_length-IsStrictOrder any_event [] none (at 100) "w-1" 30
      (evidence "e-1") "lease-a" db0 db1 (record { run = claimed_row; lease = lease1 }) claim_run2

claim_none_run :
    claim_next_run any_event by_length
      ("run-1" ∷ [])
      (at 100)
      "w-1"
      30
      (evidence "e-1")
      (some "run-1")
      "lease-a"
      db0
    ≡ ok (none, db0)
unfolding opened
claim_none_run = refl

transition_example :
    Transition "run-2" running (OwnedChange lease1 200 running) 1 db1 db2 running_row
transition_example =
    transition_owned_run-Transition any_event (at 200) lease1 running 1 (evidence "e-2") db1 db1 db1
      db2 running_row start_run2

requeue_example : Transition "run-2" queued (RequeuedAt 40000000) 2 db2 db3 requeued_row
requeue_example =
    requeue_expired_run-Transition any_event (at 40000000) "run-2" 2 (evidence "e-3") db2 db2 db2
      db3 requeued_row requeue_run2

abbrev cancelled_row : Run
cancelled_row = record run1 { status = cancelled; lifecycle_version = 1 }

abbrev db_cancelled : Db
db_cancelled = record db0 {
  runs = cancelled_row ∷ run2 ∷ [];
  events =
      record (event2 51 "c-1" 1 queued cancelled) { run_id = "run-1"; correlation_id = "run-1" }
      ∷ [];
}

cancel_run1 :
    cancel_queued_run any_event (at 50) "run-1" 0 (evidence "c-1") db0 db0 db0
    ≡ ok (cancelled_row, db_cancelled)
unfolding opened
cancel_run1 = refl

cancel_example : Transition "run-1" cancelled CancelledFrom 0 db0 db_cancelled cancelled_row
cancel_example =
    cancel_queued_run-Transition any_event (at 50) "run-1" 0 (evidence "c-1") db0 db0 db0
      db_cancelled cancelled_row cancel_run1

lease1_valid : is_lease_identity lease1 ≡ true
unfolding is_lease_identity
lease1_valid = refl

heartbeat_outcome_example :
    heartbeat (at 150) lease1 1 60 db2 db1
    ≡ ok (
      record { run = extended (at 150) 60 claimed_row; lease = lease1 },
      record db1 { runs = replace_run (extended (at 150) 60 claimed_row) db1.runs },
    )
unfolding opened
heartbeat_outcome_example = heartbeat_outcome (at 150) lease1 1 60 db2 db1

runs_stay_consistent_example :
    (s : Run) × (find_run "run-2" db3.runs ≡ some s)
    × (lease_state_consistency s ≡ true)
    × (run2.lifecycle_version ≤ s.lifecycle_version)
unfolding opened lease_state_consistency
runs_stay_consistent_example = runs_stay_consistent reach3 "run-2" run2 refl refl

abbrev ended_row : Run
ended_row = record run1 { status = completed; lifecycle_version = 4; attempt = 1 }

abbrev db_ended : Db
db_ended = record db0 { runs = ended_row ∷ [] }

abbrev noted : Event
noted = record {
  event_id = "n-1";
  run_id = "run-1";
  sequence = 1;
  occurred_at = 7;
  recorded_at = 7;
  producer_component = "worker";
  producer_instance_id = none;
  correlation_id = "run-1";
  causation_event_id = none;
  payload = other "agent.step" [];
}

append_noted : append_event noted db_ended ≡ ok (record db_ended { events = noted ∷ [] })
unfolding opened
append_noted = refl

Reach-noted : Reach any_event db_ended (record db_ended { events = noted ∷ [] })
Reach-noted = more start (append_step noted append_noted)

ended_run_final_example : find_run "run-1" (ended_row ∷ []) ≡ some ended_row
unfolding opened
ended_run_final_example = ended_run_final Reach-noted "run-1" ended_row refl refl

fenced_forever_example :
    (lock_current_lease (at 50000000) lease1 db3 ≡ err stale_lease)
    × (heartbeat (at 50000000) lease1 3 30 db3 db3 ≡ err stale_lease)
    × ((target : RunStatus) (ev : LifecycleEvidence) (seen other : Db) (x : Run × Db)
        → transition_owned_run any_event (at 50000000) lease1 target 3 ev seen other db3 ≢ ok x)
unfolding opened
fenced_forever_example =
    fenced_forever {is_run_event = any_event} {db = db3} start lease1 requeued_row (at 50000000) 3
      30 refl (omega arith) refl refl refl start

Agrees-db0 : Agrees db0
unfolding find_run
Agrees-db0 id = (
  elim (Bool-cases ("run-1" == id)) [
    | inl one ↦ rw one refl
    | inr no_one ↦ elim (Bool-cases ("run-2" == id)) [
      | inl two ↦ rw (no_one, two) refl
      | inr no_two ↦ rw (no_one, no_two) refl
    ]
  ],
  tt,
)

history-Agrees_example : Agrees db3 × IsLog db3.events
history-Agrees_example = history-Agrees reach3 reach3-AppendsOther Agrees-db0 tt
