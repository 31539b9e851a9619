-- ===== src/Company.antt =====
-- The mutations of the synthetic company in
-- packages/persistence/src/chaosagent_persistence/repository.py: refunds and support tickets, each with
-- its row in the ledger of effects that makes a repeated request harmless.
--
-- `sha256` is the hexadecimal digest of hashlib. A method locks the row of its Run, runs in a savepoint,
-- and raises PersistenceIntegrityError where a constraint of the tables fails, so the constraints are
-- tests of the inserts here. The foreign keys need no test: a payment or a ticket that is found belongs to
-- a company state of its Run.
pub mod Mutations
pub mod Created
pub mod Payments
pub mod Ledger
pub mod Steps
pub mod Conservation
pub mod Replay
mod Tests
use chaosagent.Base.{
  ℕ, ◌+◌, String, Bool, true, false, not, ◌&&◌, ◌||◌, Option, none, some, List, [], ◌∷◌, ltb, leb,
  length, ◌==◌, nat_eq, string_eq, contains, Result, ok, err, ◌>>=◌, ◌>>◌, require, or_raise,
  if◌then◌else◌,
}
use chaosagent.Store.Tables.{
  Error, value_error, reference_not_found, persistence_integrity, idempotency_conflict,
  business_rule_violation, PaymentStatus, captured, partially_refunded, refunded, RefundStatus,
  pending, succeeded, failed_refund, Payment, Refund, Ticket, EffectResult, refund_created,
  ticket_updated, Effect, Db,
}
use chaosagent.Store.Identifiers.{codes, is_identifier, matches_identifier}
use chaosagent.Store.Rows.{find_run}
use chaosagent.Store.Texts.{concat, join, removeprefix, is_digest, is_currency}
use chaosagent.Events.{max_safe_integer}

-- What a caller gets of an effect: the row, and whether this call applied it.
pub record CompanyEffect : Type 0 where
  pub row : Effect
  pub newly_applied : Bool

-- The key of a request: a tool, the version of its contract, and the digest of the idempotency key.
pub record EffectKey : Type 0 where
  pub run_id : String
  pub tool_id : String
  pub contract_version : String
  pub idempotency_key_digest : String

-- What both mutations are told of the request and of the attempt that makes it.
pub record MutationCall : Type 0 where
  pub contract_version : String
  pub idempotency_key_digest : String
  pub request_digest : String
  pub logical_call_id : String
  pub attempt_id : String
  pub lease_attempt : ℕ

pub record RefundRequest : Type 0 where
  pub order_id : String
  pub payment_id : String
  pub amount_minor : ℕ
  pub reason : String

pub record TicketRequest : Type 0 where
  pub ticket_id : String
  pub status : String
  pub note : String

-- The SELECTs and UPDATEs, by the primary keys.
unfoldable pub has_key : EffectKey → Effect → Bool
has_key key e =
    (e.run_id == key.run_id && e.tool_id == key.tool_id)
    && (e.contract_version == key.contract_version
        && e.idempotency_key_digest == key.idempotency_key_digest)

unfoldable pub find_effect : EffectKey → List Effect → Option Effect
find_effect key [] = none
find_effect key (e ∷ rest) = if has_key key e then some e else find_effect key rest

unfoldable pub effect_id_exists : String → String → List Effect → Bool
effect_id_exists run_id effect_id [] = false
effect_id_exists run_id effect_id (e ∷ rest) =
    (e.run_id == run_id && e.effect_id == effect_id) || effect_id_exists run_id effect_id rest

unfoldable pub is_payment : String → String → Payment → Bool
is_payment run_id payment_id p = p.run_id == run_id && p.payment_id == payment_id

unfoldable pub find_payment : String → String → List Payment → Option Payment
find_payment run_id payment_id [] = none
find_payment run_id payment_id (p ∷ rest) =
    if is_payment run_id payment_id p then some p else find_payment run_id payment_id rest

unfoldable pub set_payment_status : String → String → PaymentStatus → List Payment → List Payment
set_payment_status run_id payment_id status [] = []
set_payment_status run_id payment_id status (p ∷ ps) =
    let rest = set_payment_status run_id payment_id status ps in
    if is_payment run_id payment_id p then record p { status = status } ∷ rest else p ∷ rest

unfoldable pub refund_exists : String → String → List Refund → Bool
refund_exists run_id refund_id [] = false
refund_exists run_id refund_id (r ∷ rest) =
    (r.run_id == run_id && r.refund_id == refund_id) || refund_exists run_id refund_id rest

abbrev pub has_succeeded : RefundStatus → Bool
has_succeeded succeeded = true
has_succeeded _ = false

unfoldable pub counts : String → String → Refund → Bool
counts run_id payment_id r =
    (r.run_id == run_id && r.payment_id == payment_id) && has_succeeded r.status

-- the SUM over the succeeded refunds of a payment
unfoldable pub refunded_total : String → String → List Refund → ℕ
refunded_total run_id payment_id [] = 0
refunded_total run_id payment_id (r ∷ rs) =
    let rest = refunded_total run_id payment_id rs in
    if counts run_id payment_id r then r.amount_minor + rest else rest

unfoldable pub is_ticket : String → String → Ticket → Bool
is_ticket run_id ticket_id t = t.run_id == run_id && t.ticket_id == ticket_id

unfoldable pub ticket_exists : String → String → List Ticket → Bool
ticket_exists run_id ticket_id [] = false
ticket_exists run_id ticket_id (t ∷ rest) =
    is_ticket run_id ticket_id t || ticket_exists run_id ticket_id rest

unfoldable pub set_ticket : String → TicketRequest → ℕ → String → List Ticket → List Ticket
set_ticket run_id request now effect_id [] = []
set_ticket run_id request now effect_id (t ∷ ts) =
    let rest = set_ticket run_id request now effect_id ts in
    if is_ticket run_id request.ticket_id t
    then record t {
      status = request.status;
      note = request.note;
      updated_at = now;
      last_effect_id = some effect_id;
    }
      ∷ rest
    else t ∷ rest

abbrev pub is_refundable : PaymentStatus → Bool
is_refundable refunded = false
is_refundable _ = true

abbrev pub ticket_statuses : List String
ticket_statuses = "open" ∷ "pending" ∷ "closed" ∷ []

abbrev pub refund_contract : String
refund_contract = "chaosagent.tool/payments.refund/v0"

abbrev pub ticket_contract : String
ticket_contract = "chaosagent.tool/support.update_ticket/v0"

-- the part of the CHECK constraints of CompanyEffectModel that reads the result document
abbrev pub result_constraints : Effect → EffectResult → Bool
result_constraints e (refund_created refund_id order_id payment_id amount_minor currency) =
    (e.tool_id == "payments.refund" && e.contract_version == refund_contract)
    && (refund_id == e.subject_id && (leb 1 amount_minor && is_currency currency))
result_constraints e (ticket_updated ticket_id status note updated_at) =
    (e.tool_id == "support.update_ticket" && e.contract_version == ticket_contract)
    && ticket_id == e.subject_id

unfoldable pub effect_constraints : Effect → Bool
effect_constraints e =
    ((is_digest e.idempotency_key_digest && is_digest e.request_digest)
      && (matches_identifier (codes e.effect_id) && matches_identifier (codes e.subject_id)))
    && (result_constraints e e.result && leb 1 e.lease_attempt)

abbrev pub key_of : Effect → EffectKey
key_of e = record {
  run_id = e.run_id;
  tool_id = e.tool_id;
  contract_version = e.contract_version;
  idempotency_key_digest = e.idempotency_key_digest;
}

abbrev pub is_absent : Option Effect → Bool
is_absent none = true
is_absent (some _) = false

unfoldable pub insert_effect : Effect → Db → Result Error Db
insert_effect e db = do
  require (is_absent (find_effect (key_of e) db.effects)) persistence_integrity
  require (not (effect_id_exists e.run_id e.effect_id db.effects)) persistence_integrity
  require (effect_constraints e) persistence_integrity
  ok (record db { effects = e ∷ db.effects })

unfoldable pub insert_refund : Refund → Db → Result Error Db
insert_refund r db = do
  require (not (refund_exists r.run_id r.refund_id db.refunds)) persistence_integrity
  ok (record db { refunds = r ∷ db.refunds })
