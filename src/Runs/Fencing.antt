-- ===== src/Runs/Fencing.antt =====
-- A lease whose Run was requeued, ended or claimed anew is of no further use to its worker.
use chaosagent.Base.{
  ℕ, ◌<◌, ◌≡◌, ◌≢◌, ◌⊎◌, inl, inr, Bool, true, false, some, arith, contains, err, ok, Option-cases,
  Bool-cases, nat_eq, string_eq,
}
use chaosagent.Lifecycle.{RunStatus, active_statuses, status_eq, status_beq_iff, owned_transition}
use chaosagent.Store.Tables.{Run, LeaseIdentity, LifecycleEvidence, Event, Db, stale_lease}
use chaosagent.Store.Identifiers.{is_lease_identity, is_lease_duration}
use chaosagent.Store.Rows.{find_run, update_run}
use chaosagent.Leases.{
  Clock, owns, heartbeat_test, transition_test, transitioned, lease_mutation_failure,
}
use chaosagent.Runs.{lock_current_lease, heartbeat, transition_owned_run, diagnosis}
use chaosagent.Runs.Protocol.{
  Change, claim, extend, advance, end, cancel, requeue, seed, Evolves, here, next,
}
use chaosagent.Runs.Guards.{owned_source}
use chaosagent.Runs.Transition.{change_status_refused}
use chaosagent.Runs.Evolution.{active_in}

-- The row has gone past the lease: a later attempt, or this one without a worker.
abbrev pub IsFenced : LeaseIdentity → Run → Type 0
IsFenced lease r =
    (lease.attempt < r.attempt)
    ⊎ ((lease.attempt ≡ r.attempt) × (contains r.status active_statuses ≡ false))

pub IsFenced-Change :
    (lease : LeaseIdentity) {r s : Run} → Change r s → IsFenced lease r → IsFenced lease s
IsFenced-Change lease (claim w t n e a b c d q) f = inl (ground arith)
IsFenced-Change lease (extend l n e h a q) f = inl (ground (arith, active_in h.active))
IsFenced-Change lease (advance l n t h e a q) f = inl (ground (arith, active_in h.active))
IsFenced-Change lease (end l n t h e a q) f = inl (ground (arith, active_in h.active))
IsFenced-Change lease (cancel a b c q) f = rw q (ground arith)
IsFenced-Change lease (requeue n e a b c q) f = inl (ground (arith, active_in a))
IsFenced-Change lease (seed l n v h e q) f = inl (ground (arith, active_in h.active))

pub IsFenced-Evolves :
    (lease : LeaseIdentity) {r s : Run} → Evolves r s → IsFenced lease r → IsFenced lease s
IsFenced-Evolves lease here f = f
IsFenced-Evolves lease (next e c) f = IsFenced-Change lease c (IsFenced-Evolves lease e f)

pub fenced-owns : (lease : LeaseIdentity) (r : Run) → IsFenced lease r → owns lease r ≡ false
unfolding owns
fenced-owns lease r f = ground arith

module _ (clock : Clock) (lease : LeaseIdentity) (version : ℕ) (r : Run)
    (f : IsFenced lease r) where
  fenced-heartbeat_test : heartbeat_test clock lease version r ≡ false
  unfolding heartbeat_test
  fenced-heartbeat_test = ground arith

  fenced-transition_test :
      (source : RunStatus)
      → contains source active_statuses ≡ true
      → transition_test clock lease source version r ≡ false
  unfolding transition_test
  fenced-transition_test source a = ground (arith, status_beq_iff r.status source)

-- With a lease that its row has gone past, a well-formed lock raises `StaleLeaseError`, and so does a heartbeat
-- whose Run has gone past it in what is read again.
pub stale_lock_refused :
    (clock : Clock) (lease : LeaseIdentity) (db : Db) (r : Run)
    → is_lease_identity lease ≡ true
    → find_run lease.run_id db.runs ≡ some r
    → IsFenced lease r
    → lock_current_lease clock lease db ≡ err stale_lease
unfolding lock_current_lease
stale_lock_refused clock lease db r valid found f =
    rw (found, valid) (ground (arith, fenced-owns lease r f))

pub stale_heartbeat_refused :
    (clock : Clock) (lease : LeaseIdentity) (version duration : ℕ) (again db : Db) (r s : Run)
    → is_lease_identity lease ≡ true
    → is_lease_duration duration ≡ true
    → find_run lease.run_id db.runs ≡ some r
    → IsFenced lease r
    → find_run lease.run_id again.runs ≡ some s
    → IsFenced lease s
    → heartbeat clock lease version duration again db ≡ err stale_lease
unfolding heartbeat update_run diagnosis lease_mutation_failure
stale_heartbeat_refused clock lease version duration again db r s valid time found f there g =
    ground (arith, fenced-owns lease s g, fenced-heartbeat_test clock lease version r f)

-- With such a lease no transition returns, whatever status an earlier read saw.
pub stale_transition_refused :
    (is_run_event : Event → Bool) (clock : Clock) (lease : LeaseIdentity) (target : RunStatus)
    (version : ℕ) (evidence : LifecycleEvidence) (seen again db : Db) (r : Run)
    → find_run lease.run_id db.runs ≡ some r
    → IsFenced lease r
    → (x : Run × Db)
    → transition_owned_run is_run_event clock lease target version evidence seen again db ≢ ok x
unfolding transition_owned_run
stale_transition_refused is_run_event clock lease target version evidence seen again db r found f x
      h =
    elim (Option-cases (find_run lease.run_id seen.runs)) [
      | inl missing ↦ ground arith
      | inr (current, e) ↦ elim (Bool-cases (owned_transition current.status target)) [
        | inr illegal ↦ ground arith
        | inl legal ↦ ground (
          arith,
          change_status_refused is_run_event lease.run_id current.status target clock.after_update
              evidence (transition_test clock lease current.status version) (transitioned target)
              (diagnosis lease.run_id (lease_mutation_failure clock lease version) again) db r found
              (fenced-transition_test clock lease version r f current.status
                (active_in (owned_source current.status target legal))),
        )
      ]
    ]
