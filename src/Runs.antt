-- ===== src/Runs.antt =====
-- The coordination of Runs in packages/persistence/src/chaosagent_persistence/repository.py: the claim
-- of a queued Run, its lease, its transitions, and the requeue of an expired one.
--
-- A method reads the row and then updates it under a test, in two statements between which other
-- transactions may commit: `seen` is the database that the read saw, `db` the one that the UPDATE
-- meets. An UPDATE that matches no row holds no lock, so the row is read again from a third one, `again`.
pub mod Protocol
pub mod Guards
pub mod Transition
pub mod Refinement
pub mod Claim
pub mod Queue
mod Scenario
mod Tests
pub mod Evolution
pub mod Fencing
pub mod Outcomes
pub mod Steps
pub mod Safety
pub mod History
use chaosagent.Base.{
  ℕ, ◌+◌, ◌*◌, String, Bool, true, false, not, ◌&&◌, ◌||◌, Option, none, some, List, [], ◌∷◌, ltb,
  leb, ◌==◌, nat_eq, string_eq, is_some_of, contains, Result, ok, err, ◌>>=◌, ◌>>◌, require,
  or_raise, if◌then◌else◌,
}
use chaosagent.Lifecycle.{
  RunStatus, queued, provisioning, cancelled, active_statuses, terminal_statuses, status_eq,
  claim_transition, owned_transition, unleased_transition, recovery_transition,
}
use chaosagent.Store.Tables.{
  Error, value_error, reference_not_found, illegal_run_transition, stale_lease, lease_expired,
  lease_not_expired, lifecycle_conflict, persistence_integrity, persistence_conflict, Run,
  LeaseIdentity, ClaimedRun, LifecycleEvidence, Event, Db,
}
use chaosagent.Store.Identifiers.{is_identifier, is_lease_identity, is_lease_duration}
use chaosagent.Store.Rows.{find_run, replace_run, update_run}
use chaosagent.Events.{append_lifecycle_event, max_safe_integer}
use chaosagent.Leases.{
  Clock, has_expired, owns, lease_mutation_failure, unleased_mutation_failure, requeue_failure,
  heartbeat_test, transition_test, unleased_test, requeue_test, claimed, extended, unleased,
  restated, transitioned, first_candidate,
}

unfoldable pub fresh_run : String → Db → Result Error Run
fresh_run run_id db = or_raise (find_run run_id db.runs) reference_not_found

unfoldable pub lock_current_lease : Clock → LeaseIdentity → Db → Result Error Run
unfolding fresh_run
lock_current_lease clock lease db = do
  require (is_lease_identity lease) value_error
  model ← fresh_run lease.run_id db
  require (owns lease model) stale_lease
  require (not (has_expired model.lease_expires_at clock.after_update)) lease_expired
  ok model

-- The exception of a failed UPDATE, from the row as it is read again.
unfoldable pub diagnosis : String → (Run → Error) → Db → Error
diagnosis run_id diagnose db = elim (find_run run_id db.runs) [
  | none ↦ reference_not_found
  | some current ↦ diagnose current
]

unfoldable pub heartbeat : Clock → LeaseIdentity → ℕ → ℕ → Db → Db → Result Error (ClaimedRun × Db)
heartbeat clock lease expected_version duration again db = do
  require (is_lease_identity lease) value_error
  require (is_lease_duration duration) value_error
  updated ←
      or_raise
        (update_run lease.run_id (heartbeat_test clock lease expected_version)
          (extended clock duration) db)
        (diagnosis lease.run_id (lease_mutation_failure clock lease expected_version) again)
  ok (record { run = updated.0; lease = lease }, updated.1)

-- the seed of a Run that holds its lease; a bound one is only compared
abbrev pub seeded : ℕ → Run → Db → Option ℕ → Result Error (Run × Db)
seeded run_seed model db none =
    let bound : Run = record model { fault_seed = some run_seed } in
    ok (bound, record db { runs = replace_run bound db.runs })
seeded run_seed model db (some stored) = do
  require (stored == run_seed) persistence_integrity
  ok (model, db)

unfoldable pub bind_run_fault_seed : Clock → LeaseIdentity → ℕ → Db → Result Error (Run × Db)
bind_run_fault_seed clock lease run_seed db = do
  require (leb run_seed max_safe_integer) value_error
  model ← lock_current_lease clock lease db
  seeded run_seed model db model.fault_seed

abbrev pub is_absent : Option Run → Bool
is_absent none = true
is_absent (some r) = false

-- the row that `create_run` inserts, with the defaults of its columns
abbrev pub created_run : String → ℕ → Run
created_run run_id created_at = record {
  run_id = run_id;
  status = queued;
  lifecycle_version = 0;
  lease_owner = none;
  lease_token = none;
  lease_expires_at = none;
  heartbeat_at = none;
  attempt = 0;
  created_at = created_at;
  fault_seed = none;
}

-- the INSERT of `create_run`, behind the resolution of its references
unfoldable pub insert_run : String → ℕ → Db → Result Error (Run × Db)
insert_run run_id created_at db = do
  require (is_identifier run_id) value_error
  require (is_absent (find_run run_id db.runs)) persistence_conflict
  let model = created_run run_id created_at
  ok (model, record db { runs = model ∷ db.runs })

abbrev pub is_optional_identifier : Option String → Bool
is_optional_identifier none = true
is_optional_identifier (some id) = is_identifier id

module _ (is_run_event : Event → Bool) where
  -- The savepoint of a change of status: the UPDATE, and the event that says what it changed.
  unfoldable pub change_status :
      String
      → RunStatus
      → RunStatus
      → ℕ
      → LifecycleEvidence
      → (Run → Bool)
      → (Run → Run)
      → Error
      → Db
      → Result Error (Run × Db)
  change_status run_id source target occurred_at evidence test set failure db = do
    updated ← or_raise (update_run run_id test set db) failure
    db' ← append_lifecycle_event is_run_event run_id source target occurred_at evidence updated.1
    ok (updated.0, db')

  -- The UPDATE and the event of a claim; `token` is what `secrets.token_hex` gave.
  abbrev pub claim_savepoint :
      Clock → String → ℕ → LifecycleEvidence → String → Db → Run → Result Error (Run × Db)
  claim_savepoint clock worker_id duration evidence token db candidate =
      change_status candidate.run_id candidate.status provisioning clock.after_update evidence
        (unleased_test candidate.status candidate.lifecycle_version)
        (claimed clock worker_id token duration) lifecycle_conflict db

  abbrev pub claim_candidate :
      Clock
      → String
      → ℕ
      → LifecycleEvidence
      → String
      → Db
      → Option Run
      → Result Error (Option ClaimedRun × Db)
  claim_candidate clock worker_id duration evidence token db none = ok (none, db)
  claim_candidate clock worker_id duration evidence token db (some candidate) = do
    require (claim_transition candidate.status provisioning) illegal_run_transition
    saved ← claim_savepoint clock worker_id duration evidence token db candidate
    let lease : LeaseIdentity = record {
      run_id = saved.0.run_id;
      worker_id = worker_id;
      lease_token = token;
      attempt = saved.0.attempt;
    }
    ok (some (record { run = saved.0; lease = lease }), saved.1)

  unfoldable pub claim_next_run :
      (String → String → Bool)
      → List String
      → Clock
      → String
      → ℕ
      → LifecycleEvidence
      → Option String
      → String
      → Db
      → Result Error (Option ClaimedRun × Db)
  claim_next_run collate locked clock worker_id duration evidence run_id token db = do
    require (is_identifier worker_id) value_error
    require (is_lease_duration duration) value_error
    require (is_optional_identifier run_id) value_error
    claim_candidate clock worker_id duration evidence token db
        (first_candidate collate locked run_id db.runs)

  unfoldable pub transition_owned_run :
      Clock
      → LeaseIdentity
      → RunStatus
      → ℕ
      → LifecycleEvidence
      → Db
      → Db
      → Db
      → Result Error (Run × Db)
  unfolding fresh_run
  transition_owned_run clock lease target expected_version evidence seen again db = do
    require (is_lease_identity lease) value_error
    current ← fresh_run lease.run_id seen
    require (owned_transition current.status target) illegal_run_transition
    change_status lease.run_id current.status target clock.after_update evidence
        (transition_test clock lease current.status expected_version) (transitioned target)
        (diagnosis lease.run_id (lease_mutation_failure clock lease expected_version) again) db

  unfoldable pub cancel_queued_run :
      Clock → String → ℕ → LifecycleEvidence → Db → Db → Db → Result Error (Run × Db)
  unfolding fresh_run
  cancel_queued_run clock run_id expected_version evidence seen again db = do
    current ← fresh_run run_id seen
    require (unleased_transition current.status cancelled) illegal_run_transition
    change_status run_id current.status cancelled clock.after_update evidence
        (unleased_test current.status expected_version) (restated cancelled)
        (diagnosis run_id (unleased_mutation_failure expected_version) again) db

  unfoldable pub requeue_expired_run :
      Clock → String → ℕ → LifecycleEvidence → Db → Db → Db → Result Error (Run × Db)
  unfolding fresh_run
  requeue_expired_run clock run_id expected_version evidence seen again db = do
    current ← fresh_run run_id seen
    require (recovery_transition current.status queued) illegal_run_transition
    change_status run_id current.status queued clock.after_update evidence
        (requeue_test clock current.status expected_version) (unleased queued)
        (diagnosis run_id (requeue_failure expected_version) again) db
