-- ===== src/Runs/Guards.antt =====
-- The tests of the UPDATE statements of repository.py, read as facts of the protocol.
use chaosagent.Base.{
  ℕ, ◌+◌, ◌*◌, ◌≤◌, ◌<◌, ◌≡◌, refl, true, false, not, Option, none, some, arith, is_some_of-true,
  contains, nat_eq, string_eq, subst, sym,
}
use chaosagent.Lifecycle.{
  RunStatus, queued, active_statuses, status_eq, status_beq_iff, terminal_statuses,
  owned_transition, recovery_transition,
}
use chaosagent.Lifecycle.Graph.{IsActive, edges}
use chaosagent.Store.Tables.{Run, LeaseIdentity}
use chaosagent.Store.Identifiers.{is_lease_duration}
use chaosagent.Leases.{
  Clock, microseconds, owns, has_expired, expires_after, expires_by, heartbeat_test,
  transition_test, unleased_test, requeue_test,
}
use chaosagent.Runs.Protocol.{Holds, IsEnd, completed_end, abort_end}

-- tests that the row passed, read as facts of the protocol
pub active→IsActive : (s : RunStatus) → contains s active_statuses ≡ true → IsActive s
active→IsActive s h = grind (arith, edges)

pub owned_source : (s t : RunStatus) → owned_transition s t ≡ true → IsActive s
unfolding owned_transition
owned_source s t h = grind (arith, edges)

pub owned_target-IsActive :
    (s t : RunStatus)
    → owned_transition s t ≡ true
    → contains t terminal_statuses ≡ false
    → IsActive t
unfolding owned_transition
owned_target-IsActive s t h n = grind (arith, edges)

pub terminal→IsEnd : (t : RunStatus) → contains t terminal_statuses ≡ true → IsEnd t
terminal→IsEnd t h = grind (arith, edges, completed_end, abort_end)

expiry_after :
    (o : Option ℕ) (now : ℕ) → expires_after o now ≡ true → (t : ℕ) × (o ≡ some t) × (now < t)
expiry_after none now h = absurd (ground arith)
expiry_after (some t) now h = (t, refl, ground arith)

expiry_by : (o : Option ℕ) (now : ℕ) → expires_by o now ≡ true → (t : ℕ) × (o ≡ some t) × (t ≤ now)
expiry_by none now h = absurd (ground arith)
expiry_by (some t) now h = (t, refl, ground arith)

pub heartbeat_test-Holds :
    (clock : Clock) (lease : LeaseIdentity) (version : ℕ) (r : Run)
    → heartbeat_test clock lease version r ≡ true
    → Holds lease clock.at_update r
unfolding heartbeat_test
heartbeat_test-Holds clock lease version r h = record {
  active = active→IsActive r.status (ground arith);
  worker = is_some_of-true r.lease_owner lease.worker_id (ground arith);
  token = is_some_of-true r.lease_token lease.lease_token (ground arith);
  generation = ground arith;
  unexpired = expiry_after r.lease_expires_at clock.at_update (ground arith);
}

not_expired :
    (o : Option ℕ) (now : ℕ) → not (has_expired o now) ≡ true → (t : ℕ) × (o ≡ some t) × (now < t)
not_expired none now h = absurd (ground arith)
not_expired (some t) now h = (t, refl, ground arith)

pub owned-Holds :
    (lease : LeaseIdentity) (now : ℕ) (r : Run)
    → owns lease r ≡ true
    → not (has_expired r.lease_expires_at now) ≡ true
    → Holds lease now r
unfolding owns
owned-Holds lease now r h fresh = record {
  active = active→IsActive r.status (ground arith);
  worker = is_some_of-true r.lease_owner lease.worker_id (ground arith);
  token = is_some_of-true r.lease_token lease.lease_token (ground arith);
  generation = ground arith;
  unexpired = not_expired r.lease_expires_at now fresh;
}

pub transition_test-Holds :
    (clock : Clock) (lease : LeaseIdentity) (source : RunStatus) (version : ℕ) (r : Run)
    → IsActive source
    → transition_test clock lease source version r ≡ true
    → Holds lease clock.at_update r
unfolding transition_test
transition_test-Holds clock lease source version r active h = record {
  active = subst IsActive (sym ((status_beq_iff r.status source).0 (ground arith))) active;
  worker = is_some_of-true r.lease_owner lease.worker_id (ground arith);
  token = is_some_of-true r.lease_token lease.lease_token (ground arith);
  generation = ground arith;
  unexpired = expiry_after r.lease_expires_at clock.at_update (ground arith);
}

pub unleased_test-facts :
    (source : RunStatus) (version : ℕ) (r : Run)
    → unleased_test source version r ≡ true
    → (r.status ≡ source) × (r.lease_owner ≡ none) × (r.lease_token ≡ none)
unfolding unleased_test
unleased_test-facts source version r h =
    (ground (arith, status_beq_iff r.status source), ground arith, ground arith)

pub requeue_test-facts :
    (clock : Clock) (source : RunStatus) (version : ℕ) (r : Run)
    → requeue_test clock source version r ≡ true
    → (r.status ≡ source) × ((t : ℕ) × (r.lease_expires_at ≡ some t) × (t ≤ clock.at_update))
unfolding requeue_test
requeue_test-facts clock source version r h = (
  ground (arith, status_beq_iff r.status source),
  expiry_by r.lease_expires_at clock.at_update (ground arith),
)

pub later :
    (now duration : ℕ) → is_lease_duration duration ≡ true → now < now + duration * microseconds
unfolding is_lease_duration
later now duration h = ground arith

pub transition_test-source :
    (clock : Clock) (lease : LeaseIdentity) (source : RunStatus) (version : ℕ) (r : Run)
    → transition_test clock lease source version r ≡ true
    → r.status ≡ source
unfolding transition_test
transition_test-source clock lease source version r h =
    ground (arith, status_beq_iff r.status source)

pub recovery_source : (s : RunStatus) → recovery_transition s queued ≡ true → IsActive s
unfolding recovery_transition
recovery_source s h = active→IsActive s (ground arith)

pub transition_test-version :
    (clock : Clock) (lease : LeaseIdentity) (source : RunStatus) (version : ℕ) (r : Run)
    → transition_test clock lease source version r ≡ true
    → r.lifecycle_version ≡ version
unfolding transition_test
transition_test-version clock lease source version r h = ground arith

pub unleased_test-version :
    (source : RunStatus) (version : ℕ) (r : Run)
    → unleased_test source version r ≡ true
    → r.lifecycle_version ≡ version
unfolding unleased_test
unleased_test-version source version r h = ground arith

pub requeue_test-version :
    (clock : Clock) (source : RunStatus) (version : ℕ) (r : Run)
    → requeue_test clock source version r ≡ true
    → r.lifecycle_version ≡ version
unfolding requeue_test
requeue_test-version clock source version r h = ground arith
