-- ===== src/Faults.antt =====
-- packages/faults/src/chaosagent_faults: the rules by which faults are matched to tool calls and applied
-- to them. The types and validators of matcher.py, and what it takes from other libraries.
--
-- A compiled rule and a compiled plan keep their integrity digests. That they were made by the compiler,
-- which the code checks by object identity, has no counterpart here. The compiler freezes the parameters of a rule, which shows in one place: an object
-- among them cannot be copied (Faults.Engine.stale).
pub mod Rules
pub mod Matching
pub mod Application
pub mod Engine
pub mod Effects
pub mod Directives
pub mod Outcomes
pub mod Selected
pub mod Authentic
pub mod Compiled
pub mod Ordered
pub mod Issued
pub mod History
pub mod Sample
mod Tests
use chaosagent.Base.{
  ℕ, ◌^◌, ◌<◌, ◌≡◌, ◌↔◌, String, Bool, true, false, ◌&&◌, ◌||◌, Option, List, [], ◌∷◌, ltb, leb, Eq,
  nat_beq, arith,
}
use chaosagent.Store.Identifiers.{codes, is_alphanumeric}
use chaosagent.Store.Texts.{matches_segments, concat, is_digest}
use chaosagent.Json.{Value, Members}

pub data FaultPhase : Type 0 where
  before_tool after_commit after_tool : FaultPhase

pub data FaultKind : Type 0 where
  delay timeout http_error malformed_response stale_field : FaultKind
  ambiguous_post_commit_timeout auth_error indirect_prompt_injection duplicate_response : FaultKind

pub data FaultDecisionReason : Type 0 where
  matched_rule tool_mismatch phase_mismatch call_ordinal_mismatch : FaultDecisionReason
  argument_mismatch activation_cap_reached probability_not_selected : FaultDecisionReason

-- The exceptions: FaultRuleValidationError, FaultApplicationError, rfc8785's own, and
-- FaultHistoryValidationError.
pub data FaultError : Type 0 where
  rule_validation application canonicalization history_validation type_error : FaultError

abbrev pub phase_ordinal : FaultPhase → ℕ
phase_ordinal before_tool = 0
phase_ordinal after_commit = 1
phase_ordinal after_tool = 2

abbrev pub phase_beq : FaultPhase → FaultPhase → Bool
phase_beq a b = nat_beq (phase_ordinal a) (phase_ordinal b)

pub phase_beq_iff : (a b : FaultPhase) → (phase_beq a b ≡ true) ↔ (a ≡ b)
phase_beq_iff a b = ground arith

instance abbrev pub phase_eq : Eq FaultPhase
phase_eq = record { same = phase_beq; same_iff = phase_beq_iff }

abbrev pub kind_ordinal : FaultKind → ℕ
kind_ordinal delay = 0
kind_ordinal timeout = 1
kind_ordinal http_error = 2
kind_ordinal malformed_response = 3
kind_ordinal stale_field = 4
kind_ordinal ambiguous_post_commit_timeout = 5
kind_ordinal auth_error = 6
kind_ordinal indirect_prompt_injection = 7
kind_ordinal duplicate_response = 8

abbrev pub kind_beq : FaultKind → FaultKind → Bool
kind_beq a b = nat_beq (kind_ordinal a) (kind_ordinal b)

pub kind_beq_iff : (a b : FaultKind) → (kind_beq a b ≡ true) ↔ (a ≡ b)
kind_beq_iff a b = ground arith

instance abbrev pub kind_eq : Eq FaultKind
kind_eq = record { same = kind_beq; same_iff = kind_beq_iff }

abbrev pub kinds_by_phase : FaultPhase → List FaultKind
kinds_by_phase before_tool = delay ∷ timeout ∷ http_error ∷ auth_error ∷ []
kinds_by_phase after_commit = ambiguous_post_commit_timeout ∷ []
kinds_by_phase after_tool =
    delay ∷ timeout ∷ malformed_response ∷ stale_field ∷ indirect_prompt_injection
    ∷ duplicate_response ∷ []

abbrev pub phase_text : FaultPhase → String
phase_text before_tool = "before_tool"
phase_text after_commit = "after_commit"
phase_text after_tool = "after_tool"

abbrev pub kind_text : FaultKind → String
kind_text delay = "delay"
kind_text timeout = "timeout"
kind_text http_error = "http_error"
kind_text malformed_response = "malformed_response"
kind_text stale_field = "stale_field"
kind_text ambiguous_post_commit_timeout = "ambiguous_post_commit_timeout"
kind_text auth_error = "auth_error"
kind_text indirect_prompt_injection = "indirect_prompt_injection"
kind_text duplicate_response = "duplicate_response"

pub record CompiledFaultRule : Type 0 where
  pub fault_id : String
  pub scenario_digest : String
  pub kind : FaultKind
  pub tool_id : String
  pub phase : FaultPhase
  pub call_ordinal : Option ℕ
  pub argument_equals : Members
  pub probability_ppm : ℕ
  pub max_occurrences : ℕ
  pub parameters : Members
  pub integrity_digest : String

pub record CompiledFaultPlan : Type 0 where
  pub scenario_id : String
  pub scenario_revision : String
  pub scenario_digest : String
  pub rules : List CompiledFaultRule
  pub integrity_digest : String

pub record FaultMatchContext : Type 0 where
  pub run_id : String
  pub run_seed : ℕ
  pub scenario_digest : String
  pub tool_id : String
  pub phase : FaultPhase
  pub logical_call_id : String
  pub physical_attempt_id : String
  pub attempt_number : ℕ
  pub call_ordinal : ℕ
  pub arguments : Members
  pub arguments_digest : String
  pub prior_applied_occurrences : List (String × ℕ)

pub record FaultDecision : Type 0 where
  pub fault_id : String
  pub matched : Bool
  pub reason : FaultDecisionReason
  pub selection_bucket_ppm : Option ℕ
  pub activation_id : Option String

-- rfc8785 and hashlib: `dumps` has no result for a value outside RFC 8785, and `digest_int` is the digest
-- read as a big-endian number, which has 256 bits; `hexdigest` gives 64 hexadecimal digits in lower case.
pub record Hashing : Type 0 where
  pub dumps : Value → Option String
  pub hexdigest : String → String
  pub digest_int : String → ℕ
  pub digest_int_bound : (material : String) → digest_int material < 2 ^ 256
  pub hexdigest_digits :
      (material : String) → is_digest (concat "sha256:" (hexdigest material)) ≡ true

abbrev pub tool_ids : List String
tool_ids = "orders.get" ∷ "shipping.get_status" ∷ "payments.refund" ∷ "support.update_ticket" ∷ []

unfoldable pub is_lower_or_digit : ℕ → Bool
is_lower_or_digit c = (leb b'a' c && leb c b'z') || (leb b'0' c && leb c b'9')

-- `_CATALOG_ID_RE`
unfoldable pub is_catalog_id : String → Bool
unfolding is_lower_or_digit matches_segments
is_catalog_id s = matches_segments is_lower_or_digit false (codes s)

-- `_REVISION_RE`
unfoldable pub is_revision : String → Bool
unfolding is_alphanumeric matches_segments
is_revision s = matches_segments is_alphanumeric false (codes s)

-- `_require_positive_integer`
abbrev pub is_positive_to : ℕ → ℕ → Bool
is_positive_to maximum n = leb 1 n && leb n maximum
