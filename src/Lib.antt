-- ===== src/Lib.antt =====
-- The core of ChaosAgent: a queue of Runs in PostgreSQL, which workers claim under leases, the log of Run
-- Events, the refunds and tickets of the synthetic company with their ledger of effects, the policy that
-- decides on a refund, the approvals that it asks for, the faults that are injected into tool calls, the
-- evaluator that judges a Run by its evidence, and the figures of a Campaign.
--
-- The parts of the program, and the files that model them:
-- - packages/persistence/src/chaosagent_persistence/lifecycle.py, the statuses of a Run and the tests
--   of a change of status: Lifecycle. A `require_*` function that raises IllegalRunTransitionError is
--   a Boolean test here, and its callers raise.
-- - models.py and the records, exceptions and validators of repository.py, in the same package: Store.
--   A table is a list of rows. Run, Event and LeaseIdentity have the columns that the modelled
--   methods read or write.
-- - the appends of Run Events (`append_event`, `append_event_allocated`, `_append_lifecycle_event`) in
--   repository.py: Events; the reads `fetch_events` and `fetch_event_page`: Events.Reads.
-- - the coordination of Runs (`claim_next_run`, `heartbeat`, `transition_owned_run`,
--   `cancel_queued_run`, `requeue_expired_run`, `lock_current_lease`, `bind_run_fault_seed`, and the INSERT of
--   `create_run`) in repository.py: Leases has the
--   WHERE tests, the values and the diagnoses of the statements, Runs the methods.
-- - the mutations of the synthetic company (`apply_refund_effect`, `apply_support_ticket_effect`, the
--   ledger of effects and `_validate_company_effect_model`) in repository.py: Company has the tables'
--   operations and constraints, Company.Mutations the methods.
-- - packages/policies/src/chaosagent_policies/policy.py, the evaluation of a Policy v0: Policy. The JSON
--   document is a record of the members that the bundled JSON Schema requires.
-- - packages/evaluators/src/chaosagent_evaluators/campaigns.py, the counts, rates and reliability
--   figures of a Campaign: Campaigns; the pairs of a comparison (`_paired_rows`): Campaigns.Pairs.
-- - packages/evaluators/src/chaosagent_evaluators/engine.py, `evaluate_critical_v0` and `replay_state` with the
--   dataclasses of contracts.py: Evaluators has the types, and its children the parts of the engine: Lookups,
--   State (the replay), Chains (the evidence chains), Approvals, Ledger, Gates, FaultEvidence, Results, and
--   Verdict, which puts them together. `validate_run_event_stream_v0` of
--   packages/evidence/src/chaosagent_evidence/contracts.py: Evaluators.Streams. An event is a record of the
--   members that the engine reads, its payload is JSON.
-- - the approvals (`create_approval_request`, `resolve_approval_request`, `get_approval_request` and
--   `get_approval_request_for_authorization`) in repository.py and models.py: Approvals has the tables,
--   Approvals.Calls the arguments and constraints, Approvals.Integrity the checks of a loaded row, and
--   Approvals.Requests the methods.
-- - packages/faults/src/chaosagent_faults/matcher.py: Faults.Rules has the compiler (`compile_fault_plan_v0`)
--   and the checks of compiled rules and plans, Faults.Matching the decisions (`match_fault_plan_v0`) and the
--   activation identities (`expected_fault_activation_id_v0`).
-- - packages/faults/src/chaosagent_faults/application.py, the FaultEngine: Faults.Application has the
--   validators and lookups, Faults.Engine the methods `select`, `apply_before`, `apply_after`,
--   `apply_post_commit` and `authenticates_activation`. A call returns the sleeps that it asks for. Json has
--   the JSON values, Json.Pointers `_replace_json_pointer`.
-- - packages/faults/src/chaosagent_faults/history.py, the authentication of committed fault evidence
--   (`authenticate_fault_history_v0`): Faults.History has the documents and lookups, Faults.History.Passes the
--   loops and the function.
-- - services/control-plane/src/chaosagent_control_plane/cursor.py, the cursors of the event stream: Cursor.
--   Base64, `str` and `int` are written out on lists of code points.
-- - the execution checkpoints (`_store_execution_checkpoint`, `get_execution_checkpoint`) in repository.py, with
--   `digest_payload_v0` of packages/evidence/src/chaosagent_evidence/contracts.py: Checkpoints.
-- Runs.Steps and Company.Steps put the methods together: a history is a sequence of their returning
-- calls, by any workers, with any arguments, also of `append_event` with any event. A method of Runs writes its
-- event through Events in its own savepoint. Checkpoints takes the lease's lock from Runs and the last sequence from Events; its steps
-- (Checkpoints.Races) are returning writes and any change of the other tables. The counts of Faults.History are
-- the prior occurrences that Faults.Matching reads. The evaluator passes the fault events of a Run to
-- Faults.History, and expects of an approval the identity that Approvals gave it. Approvals writes its events
-- through Events; its steps (Approvals.Once) are returning creations and resolutions and any change of the
-- other tables. In the program a tool call is decided by Policy before it reaches Company; that order stands in
-- the tool gateway, which is not modelled.
--
-- How code becomes definitions:
-- - A method is a function from the database to a Result: an error value for the exception it raises,
--   or what it returns and the database after it. A savepoint is rolled back by an exception, so an
--   error value comes without a database. Names of methods, fields and statuses are the source's.
-- - The transactions run at READ COMMITTED, so the row that a method reads first may be changed before
--   its UPDATE, and an UPDATE that matches no row holds no lock, so the row that is read again for its
--   diagnosis may be another one. Such a method takes up to three databases: `seen` for the first read, `db`
--   for the UPDATE, and `again` for the diagnosis; nothing relates them but a theorem's hypotheses. The UPDATE
--   and the statements behind it see one database, since an UPDATE that matches holds the lock of the row.
-- - A timestamp is a number of microseconds. A `Clock` has the time of the UPDATE and the time of the
--   statements behind it, which nothing relates.
-- - Versions, attempts and durations are natural numbers. The tests that refuse a Boolean or a
--   negative number in their place have no counterpart. Of the bigint and integer bounds of the columns
--   those of sequences and of checkpoints are modelled.
-- - Parameters: `is_run_event`, the JSON Schema validation of an event by the contracts package;
--   `collate`, the database's order of texts, with the hypothesis that it is a strict order; `locked`,
--   the Runs whose rows other transactions have locked (SKIP LOCKED); `token`, the lease token that
--   the `secrets` module gave; `sha256`, the hexadecimal digest of hashlib; `now`, the database time of a
--   mutation; a record `Hashing` of rfc8785 and hashlib in Faults, with the hypotheses that a digest has 256
--   bits and is written as 64 hexadecimal digits; a record `Contracts` in Evaluators of the JSON Schemas of
--   events and results and of the texts that rfc8785 and json give, in one theorem with the hypothesis that the
--   schema of results accepts refusals of the engine's form.
-- - All functions are structural recursions. Only Cursor.digits and Evaluators.Results.decimal_text have a fuel,
--   the number of divisions by ten: fifteen give all sixteen digits that a safe integer may have.
--
-- Not modelled: the references of a new Run and the binding of fault plans, which only fill in columns that
-- the modelled methods do not read; event projections; the initial state of the synthetic company, its
-- reads, and `verify_company_effect`; the length limits of the text columns, which raise no IntegrityError;
-- trace contexts, which no modelled method reads back; the serialisation of events to JSON beyond the check
-- for NUL, and the check of a stored event against its contract when it is read; the parsing, digests and
-- serialisation of policies; Wilson intervals, decimals and the rates of a comparison of Campaigns; of the
-- evaluators, the service that assembles an input from the database and the reloading of a Scenario and its
-- ground truths from their bytes; of the faults, the registries of compiled objects and issued selections,
-- which rest on object identity, the freezing of JSON values but for its one effect on a stale field,
-- floating-point numbers, and the loading of a Scenario; the other packages (tool gateway, agent runtime,
-- exports), the services and the applications, which stand above the modelled methods and call them.
pub mod Base
pub mod Lifecycle
pub mod Store
pub mod Events
pub mod Leases
pub mod Runs
pub mod Company
pub mod Policy
pub mod Campaigns
pub mod Json
pub mod Faults
pub mod Checkpoints
pub mod Cursor
pub mod Evaluators
pub mod Approvals
