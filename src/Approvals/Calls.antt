-- ===== src/Approvals/Calls.antt =====
-- The arguments and rows of approval requests, the constraints of their table (`ApprovalRequestModel` in
-- packages/persistence/src/chaosagent_persistence/models.py), and their comparison (`_approval_matches` in
-- repository.py).
use chaosagent.Base.{
  ℕ, pos, String, Bool, true, false, not, ◌&&◌, ◌||◌, Option, none, some, List, [], ◌∷◌, ltb, ◌==◌,
  nat_eq, string_eq,
}
use chaosagent.Store.Identifiers.{is_identifier}
use chaosagent.Store.Texts.{is_digest}
use chaosagent.Json.{Value, integer, object, Members, get}
use chaosagent.Json.Same.{same_value}
use chaosagent.Faults.History.{Producer}
use chaosagent.Evaluators.{RevisionRef, asked_approval, EvidenceEvent}
use chaosagent.Evaluators.Lookups.{same_ref}
use chaosagent.Approvals.{ApprovalRow, text_member}

-- the arguments of `create_approval_request`
pub record ApprovalCall : Type 0 where
  pub run_id : String
  pub scenario : RevisionRef
  pub policy : RevisionRef
  pub tool_id : String
  pub contract_version : String
  pub request_digest : String
  pub idempotency_key_digest : String
  pub arguments : Members
  pub logical_call_id : String
  pub requested_attempt_id : String
  pub lease_attempt : ℕ
  pub decision_id : String
  pub decision_event_id : String
  pub request_event_id : String
  pub producer : Producer

-- the tests before the savepoint; the reference is validated by its constructor
unfoldable pub is_well_formed_call : ApprovalCall → Bool
is_well_formed_call c =
    ((c.tool_id == "payments.refund" && is_identifier c.logical_call_id)
      && (is_identifier c.requested_attempt_id && is_identifier c.decision_id))
    && ((is_identifier c.decision_event_id && is_identifier c.request_event_id)
        && (is_digest c.request_digest && is_digest c.idempotency_key_digest))

abbrev pub is_positive_amount : Option Value → Bool
is_positive_amount (some (integer (pos n))) = ltb 0 n
is_positive_amount _ = false

abbrev pub is_given : Option String → Bool
is_given none = false
is_given (some s) = true

-- the unique binding of a request
unfoldable pub same_binding : ApprovalRow → ApprovalRow → Bool
same_binding a b =
    ((a.run_id == b.run_id && same_ref a.scenario b.scenario)
      && (same_ref a.policy b.policy && a.tool_id == b.tool_id))
    && (a.contract_version == b.contract_version
        && (a.request_digest == b.request_digest
            && a.idempotency_key_digest == b.idempotency_key_digest))

-- another request has the decision, the event or the binding already
unfoldable pub is_taken : ApprovalRow → List ApprovalRow → Bool
is_taken row [] = false
is_taken row (r ∷ rs) =
    (r.decision_id == row.decision_id
      || (r.decision_event_id == row.decision_event_id
          || (r.request_event_id == row.request_event_id || same_binding r row)))
    || is_taken row rs

-- the constraints of the table on a new row; its references have been resolved before
unfoldable pub request_constraints : ApprovalRow → List ApprovalRow → Bool
request_constraints row rows =
    ((is_identifier row.approval_id && is_identifier row.decision_id)
      && (row.contract_version == "chaosagent.tool/payments.refund/v0" && ltb 0 row.lease_attempt))
    && ((is_positive_amount (get "amount_minor" row.arguments)
          && is_given (text_member "order_id" row.arguments))
        && ((is_given (text_member "payment_id" row.arguments)
              && is_given (text_member "idempotency_key" row.arguments))
            && not (is_taken row rows)))

abbrev pub row_of : String → String → String → ApprovalCall → ApprovalRow
row_of approval_id request_digest key_digest c = record {
  approval_id = approval_id;
  run_id = c.run_id;
  scenario = c.scenario;
  policy = c.policy;
  tool_id = c.tool_id;
  contract_version = c.contract_version;
  request_digest = request_digest;
  idempotency_key_digest = key_digest;
  arguments = c.arguments;
  logical_call_id = c.logical_call_id;
  requested_attempt_id = c.requested_attempt_id;
  lease_attempt = c.lease_attempt;
  decision_id = c.decision_id;
  decision_event_id = c.decision_event_id;
  request_event_id = c.request_event_id;
}

abbrev pub request_event : ApprovalRow → Producer → ℕ → EvidenceEvent
request_event row producer sequence = record {
  event_id = row.request_event_id;
  run_id = row.run_id;
  sequence = sequence;
  causation_event_id = some row.decision_event_id;
  correlation_id = some row.logical_call_id;
  producer = producer;
  payload = asked_approval (record {
    approval_id = row.approval_id;
    decision_id = row.decision_id;
    action_digest = row.request_digest;
  });
}

-- the request that an approval is compared with
pub record FrozenRequest : Type 0 where
  pub run_id : String
  pub scenario : RevisionRef
  pub policy : RevisionRef
  pub tool_id : String
  pub contract_version : String
  pub request_digest : String
  pub idempotency_key_digest : String
  pub arguments : Members

abbrev pub request_of : ApprovalRow → FrozenRequest
request_of row = record {
  run_id = row.run_id;
  scenario = row.scenario;
  policy = row.policy;
  tool_id = row.tool_id;
  contract_version = row.contract_version;
  request_digest = row.request_digest;
  idempotency_key_digest = row.idempotency_key_digest;
  arguments = row.arguments;
}

-- `_approval_matches`
unfoldable pub approval_matches : ApprovalRow → FrozenRequest → Bool
approval_matches stored asked =
    ((stored.run_id == asked.run_id && same_ref stored.scenario asked.scenario)
      && (same_ref stored.policy asked.policy && stored.tool_id == asked.tool_id))
    && ((stored.contract_version == asked.contract_version
          && stored.request_digest == asked.request_digest)
        && (stored.idempotency_key_digest == asked.idempotency_key_digest
            && same_value (object stored.arguments) (object asked.arguments)))

-- the digests of a call, which agree with those that it gives
pub record CallDigests : Type 0 where
  pub request : String
  pub key : String
