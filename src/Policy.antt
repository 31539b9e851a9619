-- ===== src/Policy.antt =====
-- packages/policies/src/chaosagent_policies/policy.py: the thresholds of a Policy v0 and its
-- evaluation. The JSON document is a record of the members that the evaluation reads, which the
-- bundled JSON Schema requires.
pub mod Bands
mod Tests
use Prim.Native.Char.{code}
use chaosagent.Base.{
  ℕ, String, Bool, true, false, not, ◌&&◌, Option, none, some, ltb, leb, ◌==◌, nat_eq, string_eq,
  is_some_of, Result, ok, err, ◌>>=◌, ◌>>◌, require, or_raise, if◌then◌else◌,
}
use chaosagent.Store.Texts.{concat, is_currency}
use chaosagent.Events.{max_safe_integer}

pub data Decision : Type 0 where
  allow deny require_approval : Decision

pub record PolicyDecision : Type 0 where
  pub decision : Decision
  pub reason_code : String

pub data PolicyError : Type 0 where
  policy_validation_error : PolicyError

pub record RefundRule : Type 0 where
  pub currency : String
  pub automatic_max_minor : ℕ
  pub approval_max_minor : ℕ

pub record Policy : Type 0 where
  pub orders_get : Decision
  pub shipping_get_status : Decision
  pub support_update_ticket : Decision
  pub payments_refund : RefundRule

-- `arguments.get("amount_minor")`: no exact integer, an integer from 0 up, or -1 - n
pub data Amount : Type 0 where
  not_exact : Amount
  natural : ℕ → Amount
  negative : ℕ → Amount

abbrev pub is_exact : Amount → Bool
is_exact not_exact = false
is_exact _ = true

-- `amount <= limit`, for a limit from 0 up
abbrev pub is_within : Amount → ℕ → Bool
is_within not_exact limit = false
is_within (natural n) limit = leb n limit
is_within (negative n) limit = true

-- `canonicalize_policy_v0`: the schema's bounds of the thresholds, and their order
unfoldable pub is_valid_policy : Policy → Bool
is_valid_policy policy =
    let rule = policy.payments_refund in
    (is_currency rule.currency
      && (leb rule.automatic_max_minor max_safe_integer
          && (leb 1 rule.approval_max_minor && leb rule.approval_max_minor max_safe_integer)))
    && not (leb rule.approval_max_minor rule.automatic_max_minor)

-- `expected_versions.get(tool_id)`
unfoldable pub expected_version : String → Option String
expected_version tool_id =
    if tool_id == "orders.get"
    then some "chaosagent.tool/orders.get/v0"
    else if tool_id == "shipping.get_status"
    then some "chaosagent.tool/shipping.get_status/v0"
    else if tool_id == "payments.refund"
    then some "chaosagent.tool/payments.refund/v0"
    else if tool_id == "support.update_ticket"
    then some "chaosagent.tool/support.update_ticket/v0"
    else none

-- `tools[tool_id]["decision"]`; a tool without such a rule is denied by the test of its version
unfoldable pub simple_rule : Policy → String → Decision
simple_rule policy tool_id =
    if tool_id == "orders.get"
    then policy.orders_get
    else if tool_id == "shipping.get_status"
    then policy.shipping_get_status
    else if tool_id == "support.update_ticket"
    then policy.support_update_ticket
    else deny

abbrev pub is_allow : Decision → Bool
is_allow allow = true
is_allow _ = false

-- `tool_id.replace('.', '_')`
abbrev pub replace_dots : String → String
replace_dots String.[] = ""
replace_dots (String.◌∷◌ c s) =
    let rest = replace_dots s in if code c == b'.' then concat "_" rest else String.◌∷◌ c rest

-- `payment_currency is not None and payment_currency != rule["currency"]`
abbrev pub is_mismatch : Option String → String → Bool
is_mismatch none currency = false
is_mismatch (some c) currency = not (c == currency)

unfoldable pub evaluate_simple : Policy → String → PolicyDecision
unfolding simple_rule
evaluate_simple policy tool_id =
    if is_allow (simple_rule policy tool_id)
    then record { decision = allow; reason_code = concat "allow_" (replace_dots tool_id) }
    else record { decision = deny; reason_code = "tool_not_permitted_by_policy" }

unfoldable pub evaluate_refund : RefundRule → Amount → Option String → PolicyDecision
evaluate_refund rule amount payment_currency =
    if is_mismatch payment_currency rule.currency
    then record { decision = deny; reason_code = "deny_refund_currency_mismatch" }
    else if is_within amount rule.automatic_max_minor
    then record { decision = allow; reason_code = "allow_within_refund_limit" }
    else if is_within amount rule.approval_max_minor
    then record { decision = require_approval; reason_code = "approval_required_refund_amount" }
    else record { decision = deny; reason_code = "deny_refund_above_absolute_limit" }

unfoldable pub evaluate_policy :
    Policy → String → String → Amount → Option String → Result PolicyError PolicyDecision
unfolding expected_version evaluate_simple evaluate_refund
evaluate_policy policy tool_id contract_version amount payment_currency =
    if not (is_some_of (expected_version tool_id) contract_version)
    then ok (record { decision = deny; reason_code = "tool_not_permitted_by_policy" })
    else if not (tool_id == "payments.refund")
    then ok (evaluate_simple policy tool_id)
    else if not (is_exact amount)
    then err policy_validation_error
    else ok (evaluate_refund policy.payments_refund amount payment_currency)
