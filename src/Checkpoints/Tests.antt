-- ===== src/Checkpoints/Tests.antt =====
-- The theorems on checkpoints at a Run that two executors resume.
use chaosagent.Base.{
  ◌⊎◌, ◌<◌, pos, ◌≡◌, refl, arith, none, some, [], ◌∷◌, ok, err, nat_eq, string_eq,
}
use chaosagent.Lifecycle.{running}
use chaosagent.Store.Tables.{Error, Run, LeaseIdentity, Event, other, Db}
use chaosagent.Store.Identifiers.{is_identifier, matches_identifier, is_lease_identity}
use chaosagent.Store.Texts.{is_digest}
use chaosagent.Store.Rows.{find_run}
use chaosagent.Json.{integer, text, Members, end, member, get}
use chaosagent.Faults.Sample.{constant_hash, digest}
use chaosagent.Events.{max_sequence, has_nul}
use chaosagent.Leases.{Clock, owns}
use chaosagent.Runs.{fresh_run, lock_current_lease}
use chaosagent.Checkpoints.{
  Checkpoint, Store, normalize_payload, digest_payload, members_fit_jsonb, checkpoint_schema,
  checkpoint_constraints, find_checkpoint, check_document, checkpoint_record,
  get_execution_checkpoint, store_execution_checkpoint,
}
use chaosagent.Checkpoints.Swap.{Swapped, store_execution_checkpoint-Swapped}
use chaosagent.Checkpoints.Races.{Steps, elsewhere, stop, next, stored_stays, stale_writer_raises}

abbrev run : Run
run = record {
  run_id = "run-1";
  status = running;
  lifecycle_version = 3;
  lease_owner = some "worker-1";
  lease_token = some "token-1";
  lease_expires_at = some 900;
  heartbeat_at = some 100;
  attempt = 1;
  created_at = 1;
  fault_seed = none;
}

abbrev event : Event
event = record {
  event_id = "event-1";
  run_id = "run-1";
  sequence = 1;
  occurred_at = 5;
  recorded_at = 5;
  producer_component = "worker";
  producer_instance_id = none;
  correlation_id = "run-1";
  causation_event_id = none;
  payload = other "tool.requested" [];
}

abbrev db : Db
db = record {
  runs = run ∷ [];
  events = event ∷ [];
  payments = [];
  refunds = [];
  tickets = [];
  effects = [];
}

abbrev lease : LeaseIdentity
lease = record { run_id = "run-1"; worker_id = "worker-1"; lease_token = "token-1"; attempt = 1 }

abbrev document : Members
document = member "schema_version" (text checkpoint_schema) (
    member "run_id" (text "run-1") (
      member "checkpoint_version" (integer (pos 1)) (
        member "lease_attempt" (integer (pos 1))
          (member "last_event_sequence" (integer (pos 1)) end))))

abbrev clock : Clock
clock = record { at_update = 200; after_update = 200 }

abbrev checkpoint : Checkpoint
checkpoint = record {
  run_id = "run-1";
  schema_version = checkpoint_schema;
  checkpoint_version = 1;
  lease_attempt = 1;
  last_event_sequence = 1;
  document = document;
  document_digest = digest;
  updated_at = 200;
}

abbrev before : Store
before = record { db = db; checkpoints = [] }

abbrev after : Store
after = record { db = db; checkpoints = checkpoint ∷ [] }

stores_first :
    store_execution_checkpoint constant_hash clock 200 lease document 0 before
    ≡ ok (checkpoint, after)
unfolding store_execution_checkpoint members_fit_jsonb has_nul lock_current_lease fresh_run find_run
    is_lease_identity is_identifier matches_identifier owns check_document get max_sequence
    digest_payload normalize_payload find_checkpoint checkpoint_constraints is_digest
    checkpoint_record
stores_first = refl

store_execution_checkpoint-Swapped_example :
    Swapped constant_hash lease document 0 before checkpoint after
store_execution_checkpoint-Swapped_example =
    store_execution_checkpoint-Swapped constant_hash clock 200 lease document 0 before checkpoint
      after stores_first

abbrev ended : Store
ended = record { db = record db { events = [] }; checkpoints = checkpoint ∷ [] }

moves_on : Steps constant_hash after ended
moves_on = next after ended ended (elsewhere after (record db { events = [] })) (stop ended)

stored_stays_example :
    (d : Checkpoint) × (get_execution_checkpoint constant_hash "run-1" ended ≡ ok (some d))
    × ((d ≡ checkpoint) ⊎ (1 < d.checkpoint_version))
    × (checkpoint.document ≡ document)
    × (checkpoint.checkpoint_version ≡ 1)
stored_stays_example =
    stored_stays constant_hash clock 200 lease document 0 before checkpoint after ended stores_first
      moves_on

stale_writer_raises_example :
    (e : Error) × (store_execution_checkpoint constant_hash clock 300 lease document 0 ended
      ≡ err e)
stale_writer_raises_example =
    stale_writer_raises constant_hash clock 200 lease document 0 before checkpoint after ended
      stores_first moves_on clock 300 lease document 0 refl (omega arith)
