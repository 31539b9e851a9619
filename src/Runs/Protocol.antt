-- ===== src/Runs/Protocol.antt =====
-- The changes that the methods of repository.py may make to one row of the table of Runs, as a
-- relation that says nothing of how the methods test for them.
use chaosagent.Base.{
  ℕ, ◌+◌, ◌≤◌, ◌<◌, ◌≡◌, ◌⊎◌, String, none, some, List, ap, ◌∙◌, subst, string_eq, ◌==◌,
  if◌then◌else◌,
}
use chaosagent.Lifecycle.{RunStatus, queued, provisioning, cancelled, completed}
use chaosagent.Lifecycle.Graph.{IsActive, IsAbort, ◌⟶◌}
use chaosagent.Store.Tables.{Run, LeaseIdentity}
use chaosagent.Store.Rows.{find_run, replace_run, find_run_id, find-replace}

-- The statuses that a worker may end a Run in.
pub data IsEnd : RunStatus → Type 0 where
  completed_end : IsEnd completed
  abort_end : {s : RunStatus} → IsAbort s → IsEnd s

-- The row is active under exactly this lease, which has not expired by `now`.
pub record Holds (lease : LeaseIdentity) (now : ℕ) (r : Run) : Type 0 where
  pub active : IsActive r.status
  pub worker : r.lease_owner ≡ some lease.worker_id
  pub token : r.lease_token ≡ some lease.lease_token
  pub generation : r.attempt ≡ lease.attempt
  pub unexpired : (expiry : ℕ) × (r.lease_expires_at ≡ some expiry) × (now < expiry)

pub data Change (r r' : Run) : Type 0 where
  claim :
      (worker token : String) (now expiry : ℕ)
      → r.status ≡ queued
      → r.lease_owner ≡ none
      → r.lease_token ≡ none
      → now < expiry
      → r' ≡ record r {
        status = provisioning;
        lifecycle_version = r.lifecycle_version + 1;
        lease_owner = some worker;
        lease_token = some token;
        lease_expires_at = some expiry;
        heartbeat_at = some now;
        attempt = r.attempt + 1;
      }
      → Change r r'
  extend :
      (lease : LeaseIdentity) (now expiry : ℕ)
      → Holds lease now r
      → now < expiry
      → r' ≡ record r {
        lifecycle_version = r.lifecycle_version + 1;
        lease_expires_at = some expiry;
        heartbeat_at = some now;
      }
      → Change r r'
  advance :
      (lease : LeaseIdentity) (now : ℕ) (target : RunStatus)
      → Holds lease now r
      → r.status ⟶ target
      → IsActive target
      → r' ≡ record r { status = target; lifecycle_version = r.lifecycle_version + 1 }
      → Change r r'
  end :
      (lease : LeaseIdentity) (now : ℕ) (target : RunStatus)
      → Holds lease now r
      → r.status ⟶ target
      → IsEnd target
      → r' ≡ record r {
        status = target;
        lifecycle_version = r.lifecycle_version + 1;
        lease_owner = none;
        lease_token = none;
        lease_expires_at = none;
        heartbeat_at = none;
      }
      → Change r r'
  cancel :
      r.status ≡ queued
      → r.lease_owner ≡ none
      → r.lease_token ≡ none
      → r' ≡ record r { status = cancelled; lifecycle_version = r.lifecycle_version + 1 }
      → Change r r'
  requeue :
      (now expiry : ℕ)
      → IsActive r.status
      → r.lease_expires_at ≡ some expiry
      → expiry ≤ now
      → r' ≡ record r {
        status = queued;
        lifecycle_version = r.lifecycle_version + 1;
        lease_owner = none;
        lease_token = none;
        lease_expires_at = none;
        heartbeat_at = none;
      }
      → Change r r'
  seed :
      (lease : LeaseIdentity) (now value : ℕ)
      → Holds lease now r
      → r.fault_seed ≡ none
      → r' ≡ record r { fault_seed = some value }
      → Change r r'

-- What the holder of a lease makes of a Run at a time, where it changes its status to a target.
pub record OwnedChange (lease : LeaseIdentity) (now : ℕ) (target : RunStatus) (r r' : Run)
    : Type 0 where
  pub held : Holds lease now r
  pub row :
      (IsActive target
        × (r' ≡ record r { status = target; lifecycle_version = r.lifecycle_version + 1 }))
      ⊎ (IsEnd target
          × (r' ≡ record r {
            status = target;
            lifecycle_version = r.lifecycle_version + 1;
            lease_owner = none;
            lease_token = none;
            lease_expires_at = none;
            heartbeat_at = none;
          }))

-- A queued Run that no worker holds, under the lease of a worker from a time on.
pub record TakenBy (worker token : String) (now expiry : ℕ) (r r' : Run) : Type 0 where
  pub waiting : r.status ≡ queued
  pub free : (r.lease_owner ≡ none) × (r.lease_token ≡ none)
  pub lasts : now < expiry
  pub row : r' ≡ record r {
    status = provisioning;
    lifecycle_version = r.lifecycle_version + 1;
    lease_owner = some worker;
    lease_token = some token;
    lease_expires_at = some expiry;
    heartbeat_at = some now;
    attempt = r.attempt + 1;
  }

-- A queued Run that no worker held, cancelled.
pub record CancelledFrom (r r' : Run) : Type 0 where
  pub waiting : r.status ≡ queued
  pub free : (r.lease_owner ≡ none) × (r.lease_token ≡ none)
  pub row : r' ≡ record r { status = cancelled; lifecycle_version = r.lifecycle_version + 1 }

-- An active Run whose lease had expired by a time, back in the queue.
pub record RequeuedAt (now : ℕ) (r r' : Run) : Type 0 where
  pub active : IsActive r.status
  pub expired : (expiry : ℕ) × (r.lease_expires_at ≡ some expiry) × (expiry ≤ now)
  pub row : r' ≡ record r {
    status = queued;
    lifecycle_version = r.lifecycle_version + 1;
    lease_owner = none;
    lease_token = none;
    lease_expires_at = none;
    heartbeat_at = none;
  }

-- The rows that any number of changes leads to.
pub data Evolves (r : Run) : Run → Type 0 where
  here : Evolves r r
  next : {s t : Run} → Evolves r s → Change s t → Evolves r t

pub Evolves-trans : {r s t : Run} → Evolves r s → Evolves s t → Evolves r t
Evolves-trans a here = a
Evolves-trans a (next e c) = next (Evolves-trans a e) c

-- What one method does to the table: one row, that of the Run `id`, makes one change.
pub record Changed (id : String) (rows rows' : List Run) (r' : Run) : Type 0 where
  pub before : Run
  pub found : find_run id rows ≡ some before
  pub change : Change before r'
  pub stored : rows' ≡ replace_run r' rows

pub Change-run_id : {r r' : Run} → Change r r' → r'.run_id ≡ r.run_id
Change-run_id (claim w t n e a b c d q) = ap (λ (x : Run). x.run_id) q
Change-run_id (extend l n e h a q) = ap (λ (x : Run). x.run_id) q
Change-run_id (advance l n t h a b q) = ap (λ (x : Run). x.run_id) q
Change-run_id (end l n t h a b q) = ap (λ (x : Run). x.run_id) q
Change-run_id (cancel a b c q) = ap (λ (x : Run). x.run_id) q
Change-run_id (requeue n e a b c q) = ap (λ (x : Run). x.run_id) q
Change-run_id (seed l n v h e q) = ap (λ (x : Run). x.run_id) q

-- Every other row is as it was.
pub Changed-find :
    {id : String} {rows rows' : List Run} {r' : Run} (j : String)
    → Changed id rows rows' r'
    → find_run j rows' ≡ (if id == j then some r' else find_run j rows)
Changed-find {id} {rows} {r' = r'} j c =
    let same : r'.run_id ≡ id = Change-run_id c.change ∙ find_run_id id rows c.found in
    rw c.stored (
      subst
        (λ (k : String).
          find_run j (replace_run r' rows) ≡ (if k == j then some r' else find_run j rows))
        same (find-replace j r' c.before rows (rw same c.found)))
