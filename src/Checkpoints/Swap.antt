-- ===== src/Checkpoints/Swap.antt =====
-- What a returning `_store_execution_checkpoint` of
-- packages/persistence/src/chaosagent_persistence/repository.py has done.
use chaosagent.Base.{
  ℕ, ◌+◌, ◌≡◌, refl, sym, ap, subst, ◌∙◌, String, true, false, Option, none, some, List, [], ◌∷◌,
  ◌==◌, nat_eq, string_eq, ==→≡, ==-refl, ok, or_raise, arith, if◌then◌else◌, bind_ok, require_ok,
  ok_injective, or_raise-some, eq_iff, not,
}
use chaosagent.Lifecycle.{running, status_eq}
use chaosagent.Store.Tables.{
  value_error, lifecycle_conflict, persistence_integrity, persistence_profile, checkpoint_conflict,
  constraint_violation, stale_lease, lease_expired, reference_not_found, Run, LeaseIdentity, Db,
}
use chaosagent.Store.Identifiers.{is_identifier, is_lease_identity}
use chaosagent.Store.Rows.{find_run, find_run_id}
use chaosagent.Json.{Members, get}
use chaosagent.Faults.{Hashing}
use chaosagent.Events.{max_sequence}
use chaosagent.Leases.{Clock, owns, has_expired}
use chaosagent.Runs.{fresh_run, lock_current_lease}
use chaosagent.Checkpoints.{
  Checkpoint, Store, digest_payload, members_fit_jsonb, checkpoint_schema, checkpoint_constraints,
  find_checkpoint, replace_checkpoint, write_checkpoint, check_document, positive_integer, is_text,
  equals_number, checkpoint_record, store_execution_checkpoint,
}

-- the version of a Run's checkpoint, 0 before the first
abbrev pub version_of : Option Checkpoint → ℕ
version_of none = 0
version_of (some c) = c.checkpoint_version

unfoldable pub version : String → Store → ℕ
version id store = version_of (find_checkpoint id store.checkpoints)

-- What a call that returns has done: the lease is the current one of a running Run, the stored checkpoint is
-- the document at the next version, at the last event of the Run, and no other Run's checkpoint has changed.
pub record Swapped (h : Hashing) (lease : LeaseIdentity) (document : Members) (expected_version : ℕ)
    (store : Store) (c : Checkpoint) (store' : Store) : Type 0 where
  pub run : Run
  pub identified : is_identifier lease.run_id ≡ true
  pub held : find_run lease.run_id store.db.runs ≡ some run
  pub owned : owns lease run ≡ true
  pub is_running : run.status ≡ running
  pub expected : version lease.run_id store ≡ expected_version
  pub found : find_checkpoint lease.run_id store'.checkpoints ≡ some c
  pub named : c.run_id ≡ lease.run_id
  pub next : c.checkpoint_version ≡ expected_version + 1
  pub same_document : c.document ≡ document
  pub attempt : c.lease_attempt ≡ lease.attempt
  pub latest : c.last_event_sequence ≡ max_sequence lease.run_id store.db.events
  pub digested : digest_payload h c.document ≡ ok c.document_digest
  pub others :
      (id : String)
      → (lease.run_id == id) ≡ false
      → find_checkpoint id store'.checkpoints ≡ find_checkpoint id store.checkpoints
  pub same_db : store'.db ≡ store.db

find-replace_checkpoint :
    (j : String) (c x : Checkpoint) (rows : List Checkpoint)
    → find_checkpoint c.run_id rows ≡ some x
    → find_checkpoint j (replace_checkpoint c rows)
      ≡ (if c.run_id == j then some c else find_checkpoint j rows)
unfolding find_checkpoint replace_checkpoint
find-replace_checkpoint j c x [] h = absurd (ground arith)
find-replace_checkpoint j c x (y ∷ rest) h = ground (
  arith,
  eq_iff y.run_id c.run_id,
  eq_iff y.run_id j,
  eq_iff c.run_id j,
  find-replace_checkpoint j c x rest,
)

written :
    (existing : Option Checkpoint) (expected_version : ℕ) (c : Checkpoint)
    (rows rows' : List Checkpoint)
    → find_checkpoint c.run_id rows ≡ existing
    → write_checkpoint existing expected_version c rows ≡ ok rows'
    → (version_of existing ≡ expected_version)
      × ((j : String)
          → find_checkpoint j rows' ≡ (if c.run_id == j then some c else find_checkpoint j rows))
unfolding find_checkpoint
written none expected_version c rows rows' nothing h =
    let (first, on) = require_ok (expected_version == 0) checkpoint_conflict _ rows' h in
    let (valid, returned) = require_ok (checkpoint_constraints c) constraint_violation _ rows' on in
    let made = ok_injective (c ∷ rows) rows' _ refl returned in
    (sym (==→≡ expected_version 0 first), λ j. ap (find_checkpoint j) (sym made))
written (some x) expected_version c rows rows' found h =
    let (same, on) =
      require_ok (x.checkpoint_version == expected_version) checkpoint_conflict _ rows' h in
    let (valid, returned) = require_ok (checkpoint_constraints c) constraint_violation _ rows' on in
    let made = ok_injective (replace_checkpoint c rows) rows' _ refl returned in
    (
      ==→≡ x.checkpoint_version expected_version same,
      λ j. ap (find_checkpoint j) (sym made) ∙ find-replace_checkpoint j c x rows found,
    )

locked :
    (clock : Clock) (lease : LeaseIdentity) (db : Db) (run : Run)
    → lock_current_lease clock lease db ≡ ok run
    → (is_identifier lease.run_id ≡ true)
      × (find_run lease.run_id db.runs ≡ some run)
      × (owns lease run ≡ true)
unfolding lock_current_lease fresh_run is_lease_identity
locked clock lease db run h =
    let (identified, reading) = require_ok (is_lease_identity lease) value_error _ run h in
    let (model, fresh, testing) = bind_ok (fresh_run lease.run_id db) _ run reading in
    let (owned, timing) = require_ok (owns lease model) stale_lease _ run testing in
    let (live, returned) =
      require_ok (not (has_expired model.lease_expires_at clock.after_update)) lease_expired _ run
        timing in
    let made = ok_injective model run _ refl returned in
    (
      ground arith,
      or_raise-some reference_not_found (find_run lease.run_id db.runs) fresh ∙ ap some made,
      ap (owns lease) (sym made) ∙ owned,
    )

checked :
    (run : Run) (lease : LeaseIdentity) (d : Members) (n : ℕ) (db : Db) (m : ℕ)
    → check_document run lease d n db ≡ ok m
    → m ≡ max_sequence run.run_id db.events
unfolding check_document
checked run lease d n db m h =
    let (schema, on1) =
      require_ok (is_text checkpoint_schema (get "schema_version" d)) persistence_integrity _ m h in
    let (named, on2) =
      require_ok (is_text run.run_id (get "run_id" d)) persistence_integrity _ m on1 in
    let (next, on3) =
      require_ok (equals_number n (get "checkpoint_version" d)) persistence_integrity _ m on2 in
    let (attempt, on4) =
      require_ok (equals_number lease.attempt (get "lease_attempt" d)) persistence_integrity _ m
        on3 in
    let (last, positive, on5) =
      bind_ok (or_raise (positive_integer (get "last_event_sequence" d)) persistence_integrity) _ m
        on4 in
    let (latest, returned) =
      require_ok (last == max_sequence run.run_id db.events) persistence_integrity _ m on5 in
    sym (ok_injective last m _ refl returned) ∙ ==→≡ last (max_sequence run.run_id db.events) latest

abbrev made_of : Run → LeaseIdentity → Members → ℕ → ℕ → String → ℕ → Checkpoint
made_of run lease document next_version last digest now = record {
  run_id = run.run_id;
  schema_version = checkpoint_schema;
  checkpoint_version = next_version;
  lease_attempt = lease.attempt;
  last_event_sequence = last;
  document = document;
  document_digest = digest;
  updated_at = now;
}

recorded_lem :
    (h : Hashing) (model stored : Checkpoint)
    → checkpoint_record h model ≡ ok stored
    → model ≡ stored
unfolding checkpoint_record
recorded_lem h model stored eq =
    let (t, digested, on) = bind_ok (digest_payload h model.document) _ stored eq in
    let (same, returned) =
      require_ok (t == model.document_digest) persistence_integrity _ stored on in
    ok_injective model stored _ refl returned

swap :
    (h : Hashing) (lease : LeaseIdentity) (document : Members) (expected_version : ℕ)
    (store : Store) (run : Run) (last : ℕ) (digest : String) (now : ℕ) (rows : List Checkpoint)
    → (is_identifier lease.run_id ≡ true)
      × (find_run lease.run_id store.db.runs ≡ some run)
      × (owns lease run ≡ true)
    → run.status ≡ running
    → last ≡ max_sequence run.run_id store.db.events
    → digest_payload h document ≡ ok digest
    → write_checkpoint
        (find_checkpoint run.run_id store.checkpoints)
        expected_version
        (made_of run lease document (expected_version + 1) last digest now)
        store.checkpoints
      ≡ ok rows
    → Swapped h lease document expected_version store
        (made_of run lease document (expected_version + 1) last digest now)
        (record store { checkpoints = rows })
unfolding version
swap h lease document expected_version store run last digest now rows (identified, held, owned)
      is_running latest digested wrote =
    let model = made_of run lease document (expected_version + 1) last digest now in
    let named = find_run_id lease.run_id store.db.runs held in
    let (expected, finds) =
      written (find_checkpoint run.run_id store.checkpoints) expected_version model
        store.checkpoints rows refl wrote in
    record {
      run = run;
      identified = identified;
      held = held;
      owned = owned;
      is_running = is_running;
      expected =
          ap (λ id. version_of (find_checkpoint id store.checkpoints)) (sym named) ∙ expected;
      found =
          ap (λ id. find_checkpoint id rows) (sym named)
          ∙ finds run.run_id
          ∙ ap (λ b. if b then some model else find_checkpoint run.run_id store.checkpoints)
              (==-refl run.run_id);
      named = named;
      next = refl;
      same_document = refl;
      attempt = refl;
      latest = latest ∙ ap (λ id. max_sequence id store.db.events) named;
      digested = digested;
      others = λ id other.
          finds id
          ∙ ap (λ b. if b then some model else find_checkpoint id store.checkpoints)
              (ap (λ j. j == id) named ∙ other);
      same_db = refl;
    }

-- A call that returns has compared and swapped.
pub store_execution_checkpoint-Swapped :
    (h : Hashing) (clock : Clock) (now : ℕ) (lease : LeaseIdentity) (document : Members)
    (expected_version : ℕ) (store : Store) (c : Checkpoint) (store' : Store)
    → store_execution_checkpoint h clock now lease document expected_version store ≡ ok (c, store')
    → Swapped h lease document expected_version store c store'
unfolding store_execution_checkpoint checkpoint_record version
store_execution_checkpoint-Swapped h clock now lease document expected_version store c store' eq =
    let (fits, locking) =
      require_ok (members_fit_jsonb document) persistence_profile _ (c, store') eq in
    let (run, held, testing) =
      bind_ok (lock_current_lease clock lease store.db) _ (c, store') locking in
    let (is_run, reading) =
      require_ok (run.status == running) lifecycle_conflict _ (c, store') testing in
    let (last, document_fits, digesting) =
      bind_ok (check_document run lease document (expected_version + 1) store.db) _ (c, store')
        reading in
    let (digest, digested, writing) = bind_ok (digest_payload h document) _ (c, store') digesting in
    let model = made_of run lease document (expected_version + 1) last digest now in
    let (rows, wrote, recording) =
      bind_ok
        (write_checkpoint (find_checkpoint run.run_id store.checkpoints) expected_version model
          store.checkpoints)
        _ (c, store') writing in
    let (stored, recorded, returned) =
      bind_ok (checkpoint_record h model) _ (c, store') recording in
    let made : (stored, record store { checkpoints = rows }) ≡ (c, store') =
      ok_injective (stored, record store { checkpoints = rows }) (c, store') _ refl returned in
    subst (λ z. Swapped h lease document expected_version store z.0 z.1)
      (ap (λ m. (m, record store { checkpoints = rows })) (recorded_lem h model stored recorded)
        ∙ made)
      (swap h lease document expected_version store run last digest now rows
        (locked clock lease store.db run held) ((status_eq.same_iff run.status running).0 is_run)
        (checked run lease document (expected_version + 1) store.db last document_fits) digested
        wrote)
