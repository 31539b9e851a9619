-- ===== src/Store/Tables.antt =====
-- The rows, the exceptions and the arguments of repository.py. Timestamps are microseconds; a column
-- that may be NULL is an `Option`. Of the wide tables the columns are kept that the methods use.
use chaosagent.Base.{ℕ, String, Option, List}
use chaosagent.Lifecycle.{RunStatus}

-- The exception classes that the modelled methods raise; `value_error` is Python's `ValueError`, and
-- `invalid_event` is EvidenceValidationError, and `constraint_violation` the IntegrityError of a CHECK constraint
-- that no method catches.
pub data Error : Type 0 where
  value_error reference_not_found illegal_run_transition : Error
  stale_lease lease_expired lease_not_expired lifecycle_conflict : Error
  persistence_integrity invalid_event persistence_profile : Error
  duplicate_event_id event_sequence_conflict event_identity_and_sequence_conflict : Error
  idempotency_conflict business_rule_violation : Error
  checkpoint_conflict constraint_violation persistence_conflict : Error

pub record Run : Type 0 where
  pub run_id : String
  pub status : RunStatus
  pub lifecycle_version : ℕ
  pub lease_owner : Option String
  pub lease_token : Option String
  pub lease_expires_at : Option ℕ
  pub heartbeat_at : Option ℕ
  pub attempt : ℕ
  pub created_at : ℕ
  pub fault_seed : Option ℕ

pub record LeaseIdentity : Type 0 where
  pub run_id : String
  pub worker_id : String
  pub lease_token : String
  pub attempt : ℕ

pub record ClaimedRun : Type 0 where
  pub run : Run
  pub lease : LeaseIdentity

pub record LifecycleEvidence : Type 0 where
  pub event_id : String
  pub producer_component : String
  pub producer_instance_id : Option String
  pub correlation_id : Option String
  pub causation_event_id : Option String
  pub reason_code : Option String

-- What an event says: a change of status, or the texts of any other payload.
pub data Payload : Type 0 where
  lifecycle : RunStatus → RunStatus → Option String → Payload
  other : String → List String → Payload

pub record Event : Type 0 where
  pub event_id : String
  pub run_id : String
  pub sequence : ℕ
  pub occurred_at : ℕ
  pub recorded_at : ℕ
  pub producer_component : String
  pub producer_instance_id : Option String
  pub correlation_id : String
  pub causation_event_id : Option String
  pub payload : Payload

pub data PaymentStatus : Type 0 where
  captured partially_refunded refunded : PaymentStatus

pub data RefundStatus : Type 0 where
  pending succeeded failed_refund : RefundStatus

pub record Payment : Type 0 where
  pub run_id : String
  pub payment_id : String
  pub order_id : String
  pub status : PaymentStatus
  pub currency : String
  pub amount_minor : ℕ

pub record Refund : Type 0 where
  pub run_id : String
  pub refund_id : String
  pub payment_id : String
  pub order_id : String
  pub status : RefundStatus
  pub amount_minor : ℕ
  pub reason : String
  pub created_at : ℕ
  pub effect_id : Option String

pub record Ticket : Type 0 where
  pub run_id : String
  pub ticket_id : String
  pub status : String
  pub note : String
  pub updated_at : ℕ
  pub last_effect_id : Option String

-- The result document of an effect: its tool, with the members that the two methods put there.
pub data EffectResult : Type 0 where
  refund_created : String → String → String → ℕ → String → EffectResult
  ticket_updated : String → String → String → ℕ → EffectResult

pub record Effect : Type 0 where
  pub run_id : String
  pub tool_id : String
  pub contract_version : String
  pub idempotency_key_digest : String
  pub request_digest : String
  pub effect_id : String
  pub subject_id : String
  pub result : EffectResult
  pub logical_call_id : String
  pub first_attempt_id : String
  pub lease_attempt : ℕ
  pub created_at : ℕ

pub record Db : Type 0 where
  pub runs : List Run
  pub events : List Event
  pub payments : List Payment
  pub refunds : List Refund
  pub tickets : List Ticket
  pub effects : List Effect
