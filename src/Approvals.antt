-- ===== src/Approvals.antt =====
-- Approval requests in packages/persistence/src/chaosagent_persistence/repository.py and models.py: the tables
-- that their methods read and write. Events are those of Evaluators; a method that writes holds the lock of the
-- Run's row, so one store serves its reads and its writes.
--
-- A Scenario and a policy are the references under which they are stored, as their digests bind their documents;
-- a row of an approval has the columns of its table, and a record is a row with its resolution.
pub mod Integrity
pub mod Calls
pub mod Requests
pub mod Kept
pub mod Returned
pub mod Once
mod Tests
use chaosagent.Base.{
  ℕ, ◌+◌, ℤ, pos, String, Bool, true, false, not, ◌&&◌, ◌||◌, Option, none, some, List, [], ◌∷◌,
  ltb, leb, ◌==◌, nat_eq, string_eq, contains, Result, ok, err, ◌>>=◌, ◌>>◌, require, or_raise,
  if◌then◌else◌,
}
use chaosagent.Store.Texts.{concat}
use chaosagent.Json.{Value, integer, text, Members, get}
use chaosagent.Faults.{Hashing}
use chaosagent.Checkpoints.{digest_payload}
use chaosagent.Events.{max_safe_integer}
use chaosagent.Evaluators.{RevisionRef, ApprovalStatus, EvidenceEvent, Contracts}

pub data ApprovalError : Type 0 where
  value_error reference_not_found persistence_integrity persistence_profile : ApprovalError
  evidence_validation event_conflict approval_conflict constraint_violation : ApprovalError
  already_resolved : ApprovalStatus → ApprovalError

-- the columns of a Run that the methods read
pub record FrozenRun : Type 0 where
  pub run_id : String
  pub is_running : Bool
  pub attempt : ℕ
  pub scenario : RevisionRef

pub record ApprovalRow : Type 0 where
  pub approval_id : String
  pub run_id : String
  pub scenario : RevisionRef
  pub policy : RevisionRef
  pub tool_id : String
  pub contract_version : String
  pub request_digest : String
  pub idempotency_key_digest : String
  pub arguments : Members
  pub logical_call_id : String
  pub requested_attempt_id : String
  pub lease_attempt : ℕ
  pub decision_id : String
  pub decision_event_id : String
  pub request_event_id : String

pub record ResolutionRow : Type 0 where
  pub approval_id : String
  pub run_id : String
  pub result : ApprovalStatus
  pub actor_id : String
  pub responder_type : String
  pub resolution_event_id : String

pub record ApprovalStore : Type 0 where
  pub runs : List FrozenRun
  pub scenarios : List (RevisionRef × RevisionRef)
  pub policies : List RevisionRef
  pub events : List EvidenceEvent
  pub requests : List ApprovalRow
  pub resolutions : List ResolutionRow

pub record ApprovalRecord : Type 0 where
  pub row : ApprovalRow
  pub status : ApprovalStatus
  pub actor_id : Option String
  pub resolution_event_id : Option String
  pub newly_created : Bool

unfoldable pub frozen_run : String → List FrozenRun → Option FrozenRun
frozen_run id [] = none
frozen_run id (r ∷ rs) = if r.run_id == id then some r else frozen_run id rs

-- a Scenario by its identity and revision: its digest, and the policy that it names
unfoldable pub find_scenario :
    String → String → List (RevisionRef × RevisionRef) → Option (RevisionRef × RevisionRef)
find_scenario id revision [] = none
find_scenario id revision (s ∷ ss) =
    if s.0.id == id && s.0.revision == revision then some s else find_scenario id revision ss

unfoldable pub find_policy : String → String → List RevisionRef → Option RevisionRef
find_policy id revision [] = none
find_policy id revision (p ∷ ps) =
    if p.id == id && p.revision == revision then some p else find_policy id revision ps

unfoldable pub find_event : String → List EvidenceEvent → Option EvidenceEvent
find_event id [] = none
find_event id (e ∷ es) = if e.event_id == id then some e else find_event id es

unfoldable pub find_request : String → List ApprovalRow → Option ApprovalRow
find_request id [] = none
find_request id (r ∷ rs) = if r.approval_id == id then some r else find_request id rs

unfoldable pub find_resolution : String → List ResolutionRow → Option ResolutionRow
find_resolution id [] = none
find_resolution id (r ∷ rs) = if r.approval_id == id then some r else find_resolution id rs

-- `digest_payload_v0` of an object and of a text
abbrev pub digest_of_object : Hashing → Members → Option String
digest_of_object h d = elim (digest_payload h d) [ ok digest ↦ some digest | err e ↦ none ]

abbrev pub digest_of_text : Hashing → String → Option String
digest_of_text h s = elim (h.dumps (text s)) [
  | none ↦ none
  | some canonical ↦ some (concat "sha256:" (h.hexdigest canonical))
]

abbrev pub text_member : String → Members → Option String
text_member name d = elim (get name d) [ some (text s) ↦ some s | _ ↦ none ]

-- the greatest sequence of a Run
unfoldable pub last_sequence : String → List EvidenceEvent → ℕ
last_sequence id [] = 0
last_sequence id (e ∷ es) =
    let m = last_sequence id es in
    if e.run_id == id then (if ltb m e.sequence then e.sequence else m) else m

abbrev pub is_known : Option EvidenceEvent → Bool
is_known none = false
is_known (some e) = true

-- `append_event_allocated` with the factory of an approval's event; its sequence is fresh
unfoldable pub append_evidence :
    Contracts → String → (ℕ → EvidenceEvent) → ApprovalStore → Result ApprovalError ApprovalStore
append_evidence contracts run_id event_factory s = do
  run ← or_raise (frozen_run run_id s.runs) reference_not_found
  let sequence = last_sequence run_id s.events + 1
  require (not (ltb max_safe_integer sequence)) persistence_integrity
  require (contracts.is_run_event (event_factory sequence)) evidence_validation
  require (not (is_known (find_event (event_factory sequence).event_id s.events))) event_conflict
  ok (record s { events = event_factory sequence ∷ s.events })
