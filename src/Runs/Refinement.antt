-- ===== src/Runs/Refinement.antt =====
-- Each method that returns has made one change of the protocol to one row, and has left every other
-- row of the table as it was.
use chaosagent.Base.{
  ℕ, ◌+◌, ◌*◌, ◌≡◌, refl, String, Bool, true, some, ok, arith, Option-cases, Bool-cases, inl, inr,
  contains, subst, sym, ap, ◌∙◌, ◌⊎◌, not, leb, or_raise, bind_ok, require_ok, ok_injective,
  or_raise-some, nat_eq,
}
use chaosagent.Lifecycle.{
  RunStatus, queued, cancelled, status_beq_iff, status_eq, terminal_statuses, owned_transition,
  unleased_transition, recovery_transition,
}
use chaosagent.Lifecycle.Graph.{IsActive, ◌⟶◌, owned→⟶, unleased→⟶, recovery→⟶}
use chaosagent.Store.Tables.{
  Run, LeaseIdentity, ClaimedRun, LifecycleEvidence, Event, Db, value_error, reference_not_found,
  stale_lease, lease_expired,
}
use chaosagent.Store.Identifiers.{is_lease_duration, is_lease_identity}
use chaosagent.Store.Rows.{replace_run, update_run-eq-some, find_run, update_run}
use chaosagent.Events.{max_safe_integer}
use chaosagent.Leases.{
  owns, has_expired, Clock, microseconds, heartbeat_test, transition_test, unleased_test,
  requeue_test, extended, unleased, restated, transitioned, lease_mutation_failure,
  unleased_mutation_failure, requeue_failure,
}
use chaosagent.Runs.{
  diagnosis, lock_current_lease, bind_run_fault_seed, heartbeat, transition_owned_run,
  cancel_queued_run, requeue_expired_run,
}
use chaosagent.Runs.Protocol.{
  Change, Changed, Holds, seed, extend, advance, end, cancel, requeue, OwnedChange, CancelledFrom,
  RequeuedAt,
}
use chaosagent.Runs.Guards.{
  owned_source, owned_target-IsActive, terminal→IsEnd, heartbeat_test-Holds, transition_test-Holds,
  unleased_test-facts, requeue_test-facts, transition_test-version, unleased_test-version,
  requeue_test-version, later, transition_test-source, recovery_source, owned-Holds,
}
use chaosagent.Runs.Transition.{Transition, change_status-Transition}

heartbeat_inversion :
    (clock : Clock) (lease : LeaseIdentity) (version duration : ℕ) (again db db' : Db)
    (c : ClaimedRun)
    → heartbeat clock lease version duration again db ≡ ok (c, db')
    → (is_lease_duration duration ≡ true)
      × (update_run lease.run_id (heartbeat_test clock lease version) (extended clock duration) db
          ≡ some (c.run, db'))
unfolding heartbeat
heartbeat_inversion clock lease version duration again db db' c h =
    elim (Option-cases
      (update_run lease.run_id (heartbeat_test clock lease version) (extended clock duration) db)) [
        | inl missing ↦ absurd (ground arith)
        | inr (u, e) ↦ (ground arith, ground arith)
      ]

lock_current_lease-Holds :
    (clock : Clock) (lease : LeaseIdentity) (db : Db) (r : Run)
    → lock_current_lease clock lease db ≡ ok r
    → (find_run lease.run_id db.runs ≡ some r) × Holds lease clock.after_update r
unfolding lock_current_lease
lock_current_lease-Holds clock lease db r h =
    let (valid, on) = require_ok (is_lease_identity lease) value_error _ r h in
    let (model, found, on2) =
      bind_ok (or_raise (find_run lease.run_id db.runs) reference_not_found) _ r on in
    let (owned, on3) = require_ok (owns lease model) stale_lease _ r on2 in
    let (fresh, returned) =
      require_ok (not (has_expired model.lease_expires_at clock.after_update)) lease_expired _ r
        on3 in
    let same = ok_injective model r _ refl returned in
    (
      or_raise-some reference_not_found _ found ∙ ap some same,
      subst (Holds lease clock.after_update) same
          (owned-Holds lease clock.after_update model owned fresh),
    )

-- A heartbeat that returns has changed the row of its Run as the protocol lets it, and neither its
-- status nor an event.
pub heartbeat-Changed :
    (clock : Clock) (lease : LeaseIdentity) (version duration : ℕ) (again db db' : Db)
    (c : ClaimedRun)
    → heartbeat clock lease version duration again db ≡ ok (c, db')
    → (k : Changed lease.run_id db.runs db'.runs c.run) × (c.run.status ≡ k.before.status)
      × (db'.events ≡ db.events)
unfolding extended
heartbeat-Changed clock lease version duration again db db' c h =
    let (valid, updated) = heartbeat_inversion clock lease version duration again db db' c h in
    let (r, found, passed, written, stored) =
      update_run-eq-some lease.run_id (heartbeat_test clock lease version) (extended clock duration)
        db db' c.run updated in
    (
      record {
        before = r;
        found = found;
        change =
            extend lease clock.at_update (clock.at_update + duration * microseconds)
              (heartbeat_test-Holds clock lease version r passed)
              (later clock.at_update duration valid) written;
        stored = ap (λ (d : Db). d.runs) stored ∙ ap (λ x. replace_run x db.runs) (sym written);
      },
      ap (λ (x : Run). x.status) written,
      ap (λ (d : Db). d.events) stored,
    )

transitioned-Change :
    (clock : Clock) (lease : LeaseIdentity) (source target : RunStatus) (version : ℕ) (r : Run)
    → owned_transition source target ≡ true
    → transition_test clock lease source version r ≡ true
    → (r.status ≡ source)
      × Change r (transitioned target r)
      × OwnedChange lease clock.at_update target r (transitioned target r)
      × ((transitioned target r).status ≡ target)
unfolding transitioned
transitioned-Change clock lease source target version r legal passed =
    let holds =
      transition_test-Holds clock lease source version r (owned_source source target legal)
        passed in
    let same : r.status ≡ source = transition_test-source clock lease source version r passed in
    let edge : r.status ⟶ target =
      subst (λ s. s ⟶ target) (sym same) (owned→⟶ source target legal) in
    elim (Bool-cases (contains target terminal_statuses)) [
      | inl ends ↦ (
        same,
        end lease clock.at_update target holds edge (terminal→IsEnd target ends) (ground arith),
        record { held = holds; row = inr (terminal→IsEnd target ends, ground arith) },
        ground arith,
      )
      | inr goes_on ↦ (
        same,
        advance lease clock.at_update target holds edge
            (owned_target-IsActive source target legal goes_on) (ground arith),
        record {
          held = holds;
          row = inl (owned_target-IsActive source target legal goes_on, ground arith);
        },
        ground arith,
      )
    ]

-- A transition that returns was made at the expected version, along an edge of the diagram, on an active row that
-- carried exactly the caller's lease, unexpired at the UPDATE. It has written the target and the next version,
-- has cleared the lease exactly if the target is terminal, has left every other row, and has added exactly
-- one event, which names both statuses under the next sequence of the Run, whatever the other reads saw.
pub transition_owned_run-Transition :
    (is_run_event : Event → Bool) (clock : Clock) (lease : LeaseIdentity) (target : RunStatus)
    (version : ℕ) (evidence : LifecycleEvidence) (seen again db db' : Db) (r' : Run)
    → transition_owned_run is_run_event clock lease target version evidence seen again db
      ≡ ok (r', db')
    → Transition lease.run_id target (OwnedChange lease clock.at_update target) version db db' r'
unfolding transition_owned_run
transition_owned_run-Transition is_run_event clock lease target version evidence seen again db db'
      r' h =
    elim (Option-cases (find_run lease.run_id seen.runs)) [
      | inl missing ↦ absurd (ground arith)
      | inr (current, e) ↦ elim (Bool-cases (owned_transition current.status target)) [
        | inl legal ↦
            change_status-Transition is_run_event lease.run_id current.status target
              clock.after_update evidence (transition_test clock lease current.status version)
              (transitioned target)
              (diagnosis lease.run_id (lease_mutation_failure clock lease version) again) db db' r'
              (OwnedChange lease clock.at_update target) version
              (owned→⟶ current.status target legal)
              (transition_test-version clock lease current.status version)
              (λ r passed.
                transitioned-Change clock lease current.status target version r legal passed)
              (ground arith)
        | inr illegal ↦ absurd (ground arith)
      ]
    ]

restated-Change :
    (source : RunStatus) (version : ℕ) (r : Run)
    → unleased_transition source cancelled ≡ true
    → unleased_test source version r ≡ true
    → (r.status ≡ source)
      × Change r (restated cancelled r)
      × CancelledFrom r (restated cancelled r)
      × ((restated cancelled r).status ≡ cancelled)
unfolding restated unleased_transition
restated-Change source version r legal passed =
    let (same, owner, token) = unleased_test-facts source version r passed in
    let queue : source ≡ queued = ground (arith, status_beq_iff source queued) in
    (
      same,
      cancel (same ∙ queue) owner token refl,
      record { waiting = same ∙ queue; free = (owner, token); row = refl },
      refl,
    )

-- A cancellation that returns has cancelled a Run that was queued and that no worker held, at the expected
-- version, has left every other row, and has added exactly one event, which says so.
pub cancel_queued_run-Transition :
    (is_run_event : Event → Bool) (clock : Clock) (run_id : String) (version : ℕ)
    (evidence : LifecycleEvidence) (seen again db db' : Db) (r' : Run)
    → cancel_queued_run is_run_event clock run_id version evidence seen again db ≡ ok (r', db')
    → Transition run_id cancelled CancelledFrom version db db' r'
unfolding cancel_queued_run
cancel_queued_run-Transition is_run_event clock run_id version evidence seen again db db' r' h =
    elim (Option-cases (find_run run_id seen.runs)) [
      | inl missing ↦ absurd (ground arith)
      | inr (current, e) ↦ elim (Bool-cases (unleased_transition current.status cancelled)) [
        | inl legal ↦
            change_status-Transition is_run_event run_id current.status cancelled clock.after_update
              evidence (unleased_test current.status version) (restated cancelled)
              (diagnosis run_id (unleased_mutation_failure version) again) db db' r' CancelledFrom
              version (unleased→⟶ current.status cancelled legal)
              (unleased_test-version current.status version)
              (λ r passed. restated-Change current.status version r legal passed) (ground arith)
        | inr illegal ↦ absurd (ground arith)
      ]
    ]

unleased-Change :
    (clock : Clock) (source : RunStatus) (version : ℕ) (r : Run)
    → recovery_transition source queued ≡ true
    → requeue_test clock source version r ≡ true
    → (r.status ≡ source)
      × Change r (unleased queued r)
      × RequeuedAt clock.at_update r (unleased queued r)
      × ((unleased queued r).status ≡ queued)
unfolding unleased
unleased-Change clock source version r legal passed =
    let (same, (t, expiry, past)) = requeue_test-facts clock source version r passed in
    (
      same,
      requeue clock.at_update t (subst IsActive (sym same) (recovery_source source legal)) expiry
          past refl,
      record {
        active = subst IsActive (sym same) (recovery_source source legal);
        expired = (t, expiry, past);
        row = refl;
      },
      refl,
    )

-- A requeue that returns has put a Run that was active, and whose lease had expired by the time of the UPDATE,
-- back into the queue without a lease, at the expected version, has left every other row, and has added
-- exactly one event, which says so.
pub requeue_expired_run-Transition :
    (is_run_event : Event → Bool) (clock : Clock) (run_id : String) (version : ℕ)
    (evidence : LifecycleEvidence) (seen again db db' : Db) (r' : Run)
    → requeue_expired_run is_run_event clock run_id version evidence seen again db ≡ ok (r', db')
    → Transition run_id queued (RequeuedAt clock.at_update) version db db' r'
unfolding requeue_expired_run
requeue_expired_run-Transition is_run_event clock run_id version evidence seen again db db' r' h =
    elim (Option-cases (find_run run_id seen.runs)) [
      | inl missing ↦ absurd (ground arith)
      | inr (current, e) ↦ elim (Bool-cases (recovery_transition current.status queued)) [
        | inl legal ↦
            change_status-Transition is_run_event run_id current.status queued clock.after_update
              evidence (requeue_test clock current.status version) (unleased queued)
              (diagnosis run_id (requeue_failure version) again) db db' r'
              (RequeuedAt clock.at_update) version (recovery→⟶ current.status queued legal)
              (requeue_test-version clock current.status version)
              (λ r passed. unleased-Change clock current.status version r legal passed)
              (ground arith)
        | inr illegal ↦ absurd (ground arith)
      ]
    ]

-- A binding of the fault seed that returns has bound it under the caller's unexpired lease, or has changed
-- nothing.
pub bind_run_fault_seed-Changed :
    (clock : Clock) (lease : LeaseIdentity) (run_seed : ℕ) (db db' : Db) (r' : Run)
    → bind_run_fault_seed clock lease run_seed db ≡ ok (r', db')
    → (db' ≡ db)
      ⊎ ((k : Changed lease.run_id db.runs db'.runs r') × (r'.status ≡ k.before.status)
          × (db'.events ≡ db.events))
unfolding bind_run_fault_seed
bind_run_fault_seed-Changed clock lease run_seed db db' r' h =
    let (small, on) = require_ok (leb run_seed max_safe_integer) value_error _ (r', db') h in
    let (model, locked, bound) = bind_ok (lock_current_lease clock lease db) _ (r', db') on in
    elim (Option-cases model.fault_seed) [
      | inr (stored, there) ↦ inl (ground arith)
      | inl unbound ↦
          let (found, held) = lock_current_lease-Holds clock lease db model locked in
          inr (
            record {
              before = model;
              found = found;
              change = seed lease clock.after_update run_seed held unbound (ground arith);
              stored = ground arith;
            },
            ground arith,
            ground arith,
          )
    ]
