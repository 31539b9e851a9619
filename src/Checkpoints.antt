-- ===== src/Checkpoints.antt =====
-- The execution checkpoints in packages/persistence/src/chaosagent_persistence/repository.py, and the digest of
-- packages/evidence/src/chaosagent_evidence/contracts.py that they are stored with. All writers of a checkpoint
-- lock the row of its Run first, so one database serves the reads and the writes of a call.
pub mod Swap
pub mod Races
mod Tests
use chaosagent.Base.{
  ℕ, ◌+◌, ℤ, pos, String, Bool, true, false, not, ◌&&◌, ◌||◌, Option, none, some, List, [], ◌∷◌,
  leb, ◌==◌, nat_eq, string_eq, Result, ok, err, ◌>>=◌, ◌>>◌, require, or_raise, if◌then◌else◌,
}
use chaosagent.Lifecycle.{running, status_eq}
use chaosagent.Store.Tables.{
  Error, value_error, lifecycle_conflict, persistence_integrity, persistence_profile, invalid_event,
  checkpoint_conflict, constraint_violation, Run, LeaseIdentity, Db,
}
use chaosagent.Store.Identifiers.{is_identifier}
use chaosagent.Store.Texts.{concat, text_lt, is_digest}
use chaosagent.Json.{
  Value, null, boolean, integer, text, array, object, Items, nil, cons, Members, end, member, get,
  put,
}
use chaosagent.Faults.{Hashing}
use chaosagent.Events.{max_safe_integer, max_sequence, has_nul}
use chaosagent.Leases.{Clock}
use chaosagent.Runs.{lock_current_lease}

pub record Checkpoint : Type 0 where
  pub run_id : String
  pub schema_version : String
  pub checkpoint_version : ℕ
  pub lease_attempt : ℕ
  pub last_event_sequence : ℕ
  pub document : Members
  pub document_digest : String
  pub updated_at : ℕ

-- The other tables, and the table of checkpoints.
pub record Store : Type 0 where
  pub db : Db
  pub checkpoints : List Checkpoint

-- `list.sort()` of texts
unfoldable pub insert_text : String → Items → Items
insert_text s nil = cons (text s) nil
insert_text s (cons (text t) rest) =
    let later = insert_text s rest in
    if text_lt t s then cons (text t) later else cons (text s) (cons (text t) rest)
insert_text s (cons v rest) = cons v rest

unfoldable pub sort_texts : Items → Items
sort_texts nil = nil
sort_texts (cons (text s) rest) = insert_text s (sort_texts rest)
sort_texts (cons v rest) = cons v rest

abbrev pub all_texts : Items → Bool
all_texts nil = true
all_texts (cons (text s) rest) = all_texts rest
all_texts (cons v rest) = false

abbrev pub sorted_related : Option Value → Members → Members
sorted_related (some (array ids)) d =
    if all_texts ids then put "related_event_ids" (array (sort_texts ids)) d else d
sorted_related _ d = d

-- `_normalize_payload_set_arrays_v0`
unfoldable pub normalize_payload : Members → Members
normalize_payload d = sorted_related (get "related_event_ids" d) d

-- `digest_payload_v0`
unfoldable pub digest_payload : Hashing → Members → Result Error String
digest_payload h payload = do
  canonical ← or_raise (h.dumps (object (normalize_payload payload))) invalid_event
  ok (concat "sha256:" (h.hexdigest canonical))

-- `_validate_jsonb_persistence_profile`
unfoldable mutual
  pub value_fits_jsonb : Value → Bool
  value_fits_jsonb (text s) = not (has_nul s)
  value_fits_jsonb (array xs) = items_fit_jsonb xs
  value_fits_jsonb (object d) = members_fit_jsonb d
  value_fits_jsonb _ = true

  pub items_fit_jsonb : Items → Bool
  items_fit_jsonb nil = true
  items_fit_jsonb (cons x xs) = value_fits_jsonb x && items_fit_jsonb xs

  pub members_fit_jsonb : Members → Bool
  members_fit_jsonb end = true
  members_fit_jsonb (member k v rest) =
      (not (has_nul k) && value_fits_jsonb v) && members_fit_jsonb rest

abbrev pub checkpoint_schema : String
checkpoint_schema = "chaosagent.execution-checkpoint/v0"

abbrev pub is_text : String → Option Value → Bool
is_text s (some (text t)) = t == s
is_text s _ = false

-- `value == n`, where Python's Booleans are numbers too
abbrev pub equals_number : ℕ → Option Value → Bool
equals_number n (some (integer (pos m))) = m == n
equals_number n (some (boolean true)) = n == 1
equals_number n (some (boolean false)) = n == 0
equals_number n _ = false

abbrev pub positive_integer : Option Value → Option ℕ
positive_integer (some (integer (pos n))) = if leb 1 n then some n else none
positive_integer _ = none

abbrev pub is_number : Option Value → Bool
is_number (some (integer n)) = true
is_number _ = false

-- the CHECK constraints of `execution_checkpoints`
unfoldable pub checkpoint_constraints : Checkpoint → Bool
checkpoint_constraints c =
    ((leb 1 c.checkpoint_version && leb c.checkpoint_version max_safe_integer)
      && ((leb 1 c.lease_attempt && leb c.lease_attempt max_safe_integer)
          && (leb 1 c.last_event_sequence && leb c.last_event_sequence max_safe_integer)))
    && ((is_digest c.document_digest && is_number (get "checkpoint_version" c.document))
        && (is_number (get "lease_attempt" c.document)
            && is_number (get "last_event_sequence" c.document)))

unfoldable pub find_checkpoint : String → List Checkpoint → Option Checkpoint
find_checkpoint id [] = none
find_checkpoint id (c ∷ rest) = if c.run_id == id then some c else find_checkpoint id rest

unfoldable pub replace_checkpoint : Checkpoint → List Checkpoint → List Checkpoint
replace_checkpoint c [] = []
replace_checkpoint c (x ∷ rest) =
    if x.run_id == c.run_id then c ∷ rest else x ∷ replace_checkpoint c rest

-- the savepoint: an INSERT of the first checkpoint, or an UPDATE under the expected version
abbrev pub write_checkpoint :
    Option Checkpoint → ℕ → Checkpoint → List Checkpoint → Result Error (List Checkpoint)
write_checkpoint none expected_version c rows = do
  require (expected_version == 0) checkpoint_conflict
  require (checkpoint_constraints c) constraint_violation
  ok (c ∷ rows)
write_checkpoint (some existing) expected_version c rows = do
  require (existing.checkpoint_version == expected_version) checkpoint_conflict
  require (checkpoint_constraints c) constraint_violation
  ok (replace_checkpoint c rows)

-- the tests of the document against the Run, the lease and the log
unfoldable pub check_document : Run → LeaseIdentity → Members → ℕ → Db → Result Error ℕ
check_document run lease snapshot next_version db = do
  require (is_text checkpoint_schema (get "schema_version" snapshot)) persistence_integrity
  require (is_text run.run_id (get "run_id" snapshot)) persistence_integrity
  require (equals_number next_version (get "checkpoint_version" snapshot)) persistence_integrity
  require (equals_number lease.attempt (get "lease_attempt" snapshot)) persistence_integrity
  last_sequence ←
      or_raise (positive_integer (get "last_event_sequence" snapshot)) persistence_integrity
  require (last_sequence == max_sequence run.run_id db.events) persistence_integrity
  ok last_sequence

-- `_checkpoint_record`
unfoldable pub checkpoint_record : Hashing → Checkpoint → Result Error Checkpoint
checkpoint_record h c = do
  expected ← digest_payload h c.document
  require (expected == c.document_digest) persistence_integrity
  ok c

unfoldable pub get_execution_checkpoint :
    Hashing → String → Store → Result Error (Option Checkpoint)
get_execution_checkpoint h run_id store = do
  require (is_identifier run_id) value_error
  elim (find_checkpoint run_id store.checkpoints) [
    | none ↦ ok none
    | some c ↦ do stored ← checkpoint_record h c; ok (some stored)
  ]

-- `_store_execution_checkpoint`; `now` is the database time of the write
unfoldable pub store_execution_checkpoint :
    Hashing → Clock → ℕ → LeaseIdentity → Members → ℕ → Store → Result Error (Checkpoint × Store)
store_execution_checkpoint h clock now lease document expected_version store = do
  require (members_fit_jsonb document) persistence_profile
  run ← lock_current_lease clock lease store.db
  require (run.status == running) lifecycle_conflict
  last_sequence ← check_document run lease document (expected_version + 1) store.db
  digest ← digest_payload h document
  let model : Checkpoint = record {
    run_id = run.run_id;
    schema_version = checkpoint_schema;
    checkpoint_version = expected_version + 1;
    lease_attempt = lease.attempt;
    last_event_sequence = last_sequence;
    document = document;
    document_digest = digest;
    updated_at = now;
  }
  rows ←
      write_checkpoint (find_checkpoint run.run_id store.checkpoints) expected_version model
        store.checkpoints
  stored ← checkpoint_record h model
  ok (stored, record store { checkpoints = rows })
