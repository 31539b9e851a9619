-- ===== src/Leases.antt =====
-- The tests, the values and the diagnoses of the statements by which
-- packages/persistence/src/chaosagent_persistence/repository.py coordinates Runs. A `Clock` holds the
-- database time at an UPDATE, which stands for all calls of `clock_timestamp()` in that statement,
-- and at the statements behind it.
use chaosagent.Base.{
  ℕ, ◌+◌, ◌*◌, String, Bool, true, false, not, ◌&&◌, ◌||◌, Option, none, some, List, [], ◌∷◌, ltb,
  leb, ◌==◌, nat_eq, string_eq, is_some_of, contains, if◌then◌else◌,
}
use chaosagent.Lifecycle.{
  RunStatus, queued, provisioning, running, evaluating, completed, failed, timed_out, cancelled,
  infra_error, active_statuses, terminal_statuses, status_eq,
}
use chaosagent.Store.Tables.{
  Error, stale_lease, lease_expired, lease_not_expired, lifecycle_conflict, Run, LeaseIdentity,
}

pub record Clock : Type 0 where
  pub at_update : ℕ
  pub after_update : ℕ

abbrev pub microseconds : ℕ
microseconds = 1_000_000

-- `expires_at > now`, where NULL passes no test
abbrev pub expires_after : Option ℕ → ℕ → Bool
expires_after none now = false
expires_after (some t) now = ltb now t

-- `expires_at <= now`, where NULL passes no test
abbrev pub expires_by : Option ℕ → ℕ → Bool
expires_by none now = false
expires_by (some t) now = leb t now

abbrev pub is_null : Option String → Bool
is_null none = true
is_null (some _) = false

-- `current.lease_expires_at is None or current.lease_expires_at <= now`
abbrev pub has_expired : Option ℕ → ℕ → Bool
has_expired none now = true
has_expired (some t) now = leb t now

abbrev pub is_null_time : Option ℕ → Bool
is_null_time none = true
is_null_time (some _) = false

abbrev pub is_before : Option ℕ → Option ℕ → Bool
is_before (some a) (some b) = ltb a b
is_before _ _ = false

-- The CHECK constraint `lease_state_consistency` of models.py. The last comparison of its first part
-- passes only where neither time is NULL.
unfoldable pub lease_state_consistency : Run → Bool
lease_state_consistency r =
    (contains r.status (provisioning ∷ running ∷ evaluating ∷ [])
      && ((not (is_null r.lease_owner) && not (is_null r.lease_token))
          && is_before r.heartbeat_at r.lease_expires_at))
    || (contains r.status (queued ∷ completed ∷ failed ∷ timed_out ∷ cancelled ∷ infra_error ∷ [])
        && ((is_null r.lease_owner && is_null r.lease_token)
            && (is_null_time r.lease_expires_at && is_null_time r.heartbeat_at)))

-- the first test of `lock_current_lease` and of `_raise_lease_mutation_failure`, negated
unfoldable pub owns : LeaseIdentity → Run → Bool
owns lease r = not (
    (not (contains r.status active_statuses) || not (is_some_of r.lease_owner lease.worker_id))
    || (not (is_some_of r.lease_token lease.lease_token) || not (r.attempt == lease.attempt)))

-- `_raise_lease_mutation_failure`
unfoldable pub lease_mutation_failure : Clock → LeaseIdentity → ℕ → Run → Error
unfolding owns
lease_mutation_failure clock lease expected_version current =
    if not (owns lease current)
    then stale_lease
    else if has_expired current.lease_expires_at clock.after_update
    then lease_expired
    else lifecycle_conflict

-- both messages of `_raise_unleased_mutation_failure` come with one exception class
unfoldable pub unleased_mutation_failure : ℕ → Run → Error
unleased_mutation_failure expected_version current =
    if not (current.lifecycle_version == expected_version)
    then lifecycle_conflict
    else lifecycle_conflict

-- the failure branch of `requeue_expired_run`
unfoldable pub requeue_failure : ℕ → Run → Error
requeue_failure expected_version refreshed =
    if not (refreshed.lifecycle_version == expected_version)
    then lifecycle_conflict
    else lease_not_expired

-- The tests of the UPDATE statements.
unfoldable pub heartbeat_test : Clock → LeaseIdentity → ℕ → Run → Bool
heartbeat_test clock lease expected_version r =
    (contains r.status active_statuses && r.lifecycle_version == expected_version)
    && ((is_some_of r.lease_owner lease.worker_id && is_some_of r.lease_token lease.lease_token)
        && (r.attempt == lease.attempt && expires_after r.lease_expires_at clock.at_update))

unfoldable pub transition_test : Clock → LeaseIdentity → RunStatus → ℕ → Run → Bool
transition_test clock lease source expected_version r =
    (r.status == source && r.lifecycle_version == expected_version)
    && ((is_some_of r.lease_owner lease.worker_id && is_some_of r.lease_token lease.lease_token)
        && (r.attempt == lease.attempt && expires_after r.lease_expires_at clock.at_update))

unfoldable pub unleased_test : RunStatus → ℕ → Run → Bool
unleased_test source expected_version r =
    (r.status == source && r.lifecycle_version == expected_version)
    && (is_null r.lease_owner && is_null r.lease_token)

unfoldable pub requeue_test : Clock → RunStatus → ℕ → Run → Bool
requeue_test clock source expected_version r =
    (r.status == source && r.lifecycle_version == expected_version)
    && expires_by r.lease_expires_at clock.at_update

-- The values of the UPDATE statements.
unfoldable pub claimed : Clock → String → String → ℕ → Run → Run
claimed clock worker_id lease_token duration r = record r {
  status = provisioning;
  lifecycle_version = r.lifecycle_version + 1;
  lease_owner = some worker_id;
  lease_token = some lease_token;
  lease_expires_at = some (clock.at_update + duration * microseconds);
  heartbeat_at = some clock.at_update;
  attempt = r.attempt + 1;
}

unfoldable pub extended : Clock → ℕ → Run → Run
extended clock duration r = record r {
  lifecycle_version = r.lifecycle_version + 1;
  lease_expires_at = some (clock.at_update + duration * microseconds);
  heartbeat_at = some clock.at_update;
}

-- a status, the next version and no lease
unfoldable pub unleased : RunStatus → Run → Run
unleased status r = record r {
  status = status;
  lifecycle_version = r.lifecycle_version + 1;
  lease_owner = none;
  lease_token = none;
  lease_expires_at = none;
  heartbeat_at = none;
}

unfoldable pub restated : RunStatus → Run → Run
restated status r = record r { status = status; lifecycle_version = r.lifecycle_version + 1 }

-- `clearing_lease`
unfoldable pub transitioned : RunStatus → Run → Run
unfolding unleased restated
transitioned target r =
    if contains target terminal_statuses then unleased target r else restated target r

-- the WHERE of `claim_next_run`; `locked` are the Runs whose rows other transactions have locked
unfoldable pub is_candidate : List String → Option String → Run → Bool
is_candidate locked none r = r.status == queued && not (contains r.run_id locked)
is_candidate locked (some id) r =
    (r.status == queued && not (contains r.run_id locked)) && r.run_id == id

-- The queue of `claim_next_run`: `collate` is the database's order of texts.
module _ (collate : String → String → Bool) where
  -- ORDER BY created_at, run_id
  unfoldable pub precedes : Run → Run → Bool
  precedes a b =
      ltb a.created_at b.created_at || (a.created_at == b.created_at && collate a.run_id b.run_id)

  abbrev pub earlier : Run → Option Run → Run
  earlier r none = r
  earlier r (some best) = if precedes r best then r else best

  -- LIMIT 1
  unfoldable pub first_candidate : List String → Option String → List Run → Option Run
  unfolding precedes is_candidate
  first_candidate locked run_id [] = none
  first_candidate locked run_id (r ∷ rest) =
      let best = first_candidate locked run_id rest in
      if is_candidate locked run_id r then some (earlier r best) else best
