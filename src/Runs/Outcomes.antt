-- ===== src/Runs/Outcomes.antt =====
-- What the calls of a lease holder give, on every branch.
use chaosagent.Base.{
  ℕ, ◌+◌, ◌*◌, ◌≡◌, not, ◌&&◌, Bool, Option, none, some, arith, Result, err, ok, nat_eq, string_eq,
  ◌==◌, if◌then◌else◌, Option-cases, inl, inr,
}
use chaosagent.Lifecycle.{status_eq}
use chaosagent.Store.Tables.{
  Run, LeaseIdentity, ClaimedRun, Db, Error, value_error, reference_not_found, stale_lease,
  lease_expired, lifecycle_conflict,
}
use chaosagent.Store.Identifiers.{is_lease_identity, is_lease_duration}
use chaosagent.Store.Rows.{find_run, replace_run, update_run}
use chaosagent.Leases.{
  Clock, microseconds, owns, has_expired, heartbeat_test, extended, lease_mutation_failure,
}
use chaosagent.Runs.{heartbeat, diagnosis}

-- what a heartbeat whose UPDATE matched no row raises, from the row that it reads again
abbrev pub refusal : Clock → LeaseIdentity → Option Run → Error
refusal clock lease none = reference_not_found
refusal clock lease (some r) =
    if not (owns lease r)
    then stale_lease
    else if has_expired r.lease_expires_at clock.after_update
    then lease_expired
    else lifecycle_conflict

-- whether a row is under exactly this lease, unexpired at the UPDATE, at the expected version
abbrev pub is_current : Clock → LeaseIdentity → ℕ → Run → Bool
is_current clock lease version r =
    owns lease r
    && (not (has_expired r.lease_expires_at clock.at_update) && r.lifecycle_version == version)

-- what a well-formed heartbeat gives for the row that its UPDATE meets and the row that is read again
abbrev pub answer :
    Clock
    → LeaseIdentity
    → (version duration : ℕ) → Option Run
    → Db
    → Option Run
    → Result Error (ClaimedRun × Db)
answer clock lease version duration again db none = err (refusal clock lease again)
answer clock lease version duration again db (some r) =
    if is_current clock lease version r
    then (let kept : Run = record r {
      lifecycle_version = version + 1;
      lease_expires_at = some (clock.at_update + duration * microseconds);
      heartbeat_at = some clock.at_update;
    } in
        ok (record { run = kept; lease = lease }, record db { runs = replace_run kept db.runs }))
    else err (refusal clock lease again)

-- The outcome of every heartbeat. One with a malformed lease or duration raises ValueError. Where the row is
-- there, is owned by the lease in the sense in which `lock_current_lease` tests it, is unexpired at the UPDATE
-- and at the expected version, it returns that row, extended, at the next version. Else it raises what the row
-- that is read again says, whatever that is by then: ReferenceNotFoundError if it is missing, StaleLeaseError if
-- the lease does not own it, LeaseExpiredError if it has expired, and else LifecycleConflictError.
pub heartbeat_outcome :
    (clock : Clock) (lease : LeaseIdentity) (version duration : ℕ) (again db : Db)
    → heartbeat clock lease version duration again db ≡ (
        if is_lease_identity lease && is_lease_duration duration
        then answer clock lease version duration
            (find_run lease.run_id again.runs)
            db
            (find_run lease.run_id db.runs)
        else err value_error)
unfolding heartbeat update_run diagnosis lease_mutation_failure heartbeat_test owns extended
heartbeat_outcome clock lease version duration again db =
    elim (Option-cases (find_run lease.run_id db.runs)) [
      | inl missing ↦ elim (Option-cases (find_run lease.run_id again.runs)) [
        | inl gone ↦ rw (missing, gone) (ground arith)
        | inr (s, there) ↦ rw (missing, there) (ground arith)
      ]
      | inr (r, found) ↦ elim (Option-cases (find_run lease.run_id again.runs)) [
        | inl gone ↦ rw (found, gone) (ground arith)
        | inr (s, there) ↦ rw (found, there) (ground arith)
      ]
    ]
