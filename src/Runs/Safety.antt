-- ===== src/Runs/Safety.antt =====
-- What holds of Runs however the calls of all workers and of the control plane interleave.
use chaosagent.Base.{
  ℕ, ◌≤◌, ◌≡◌, ◌≢◌, String, Bool, true, false, some, arith, ok, err, ap, sym, ◌∙◌, contains,
}
use chaosagent.Lifecycle.{RunStatus, active_statuses, status_eq}
use chaosagent.Lifecycle.Graph.{is_terminal}
use chaosagent.Store.Tables.{Run, LeaseIdentity, LifecycleEvidence, Event, Db, stale_lease}
use chaosagent.Store.Identifiers.{is_lease_identity, is_lease_duration}
use chaosagent.Store.Rows.{find_run}
use chaosagent.Leases.{Clock, lease_state_consistency}
use chaosagent.Runs.{lock_current_lease, heartbeat, transition_owned_run}
use chaosagent.Runs.Protocol.{Evolves, here, next}
use chaosagent.Runs.Evolution.{version-Evolves, consistency-Change, terminal_row_final}
use chaosagent.Runs.Fencing.{
  IsFenced, IsFenced-Evolves, stale_lock_refused, stale_heartbeat_refused, stale_transition_refused,
}
use chaosagent.Runs.Steps.{Reach, Reach-Evolves}

consistency-Evolves :
    {r s : Run} → Evolves r s → lease_state_consistency r ≡ true → lease_state_consistency s ≡ true
consistency-Evolves here h = h
consistency-Evolves (next e c) h = consistency-Change c (consistency-Evolves e h)

at_or_past :
    (lease : LeaseIdentity) (r : Run)
    → lease.attempt ≤ r.attempt
    → contains r.status active_statuses ≡ false
    → IsFenced lease r
at_or_past lease r h idle = ground arith

module _ {is_run_event : Event → Bool} {db db' : Db} (reach : Reach is_run_event db db') where
  -- The CHECK constraint on the lease columns goes on to hold for every Run, and no version goes back.
  pub runs_stay_consistent :
      (id : String) (r : Run)
      → find_run id db.runs ≡ some r
      → lease_state_consistency r ≡ true
      → (s : Run) × (find_run id db'.runs ≡ some s)
        × (lease_state_consistency s ≡ true)
        × (r.lifecycle_version ≤ s.lifecycle_version)
  runs_stay_consistent id r found h =
      let (s, now, e) = Reach-Evolves id r reach found in
      (s, now, consistency-Evolves e h, version-Evolves e)

  -- A Run that has ended keeps its row.
  pub ended_run_final :
      (id : String) (r : Run)
      → find_run id db.runs ≡ some r
      → is_terminal r.status ≡ true
      → find_run id db'.runs ≡ some r
  ended_run_final id r found h =
      let (s, now, e) = Reach-Evolves id r reach found in
      now ∙ ap some (sym (terminal_row_final h e))

  -- Once a Run is at or past the attempt of a lease and no worker holds it, that lease is refused
  -- forever: in every later database a well-formed lock and heartbeat raise `StaleLeaseError`, and no
  -- transition returns, whatever the times and the stale reads. What a failed heartbeat reads again is any
  -- database that is later still.
  pub fenced_forever :
      {again : Db} (lease : LeaseIdentity) (r : Run) (clock : Clock) (version duration : ℕ)
      → find_run lease.run_id db.runs ≡ some r
      → lease.attempt ≤ r.attempt
      → contains r.status active_statuses ≡ false
      → is_lease_identity lease ≡ true
      → is_lease_duration duration ≡ true
      → Reach is_run_event db' again
      → (lock_current_lease clock lease db' ≡ err stale_lease)
        × (heartbeat clock lease version duration again db' ≡ err stale_lease)
        × ((target : RunStatus) (evidence : LifecycleEvidence) (seen other : Db) (x : Run × Db)
            → transition_owned_run is_run_event clock lease target version evidence seen other db'
              ≢ ok x)
  fenced_forever {again} lease r clock version duration found past idle valid time later =
      let (s, now, e) = Reach-Evolves lease.run_id r reach found in
      let f : IsFenced lease s = IsFenced-Evolves lease e (at_or_past lease r past idle) in
      let (t, then, g) = Reach-Evolves lease.run_id s later now in
      (
        stale_lock_refused clock lease db' s valid now f,
        stale_heartbeat_refused clock lease version duration again db' s t valid time now f then
            (IsFenced-Evolves lease g f),
        λ target evidence seen other x.
            stale_transition_refused is_run_event clock lease target version evidence seen other db'
              s now f x,
      )
