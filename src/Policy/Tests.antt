-- ===== src/Policy/Tests.antt =====
-- The theorems on policies at a concrete policy.
use chaosagent.Base.{
  ◌+◌, ◌≤◌, ◌≡◌, refl, String, true, false, ◌⊎◌, ◌↔◌, none, some, ok, nat_eq, string_eq,
}
use chaosagent.Store.Texts.{is_currency}
use chaosagent.Policy.{
  allow, deny, require_approval, PolicyDecision, Policy, natural, is_valid_policy, expected_version,
  simple_rule, evaluate_simple, evaluate_refund, evaluate_policy, is_mismatch, is_exact, is_within,
}
use chaosagent.Policy.Bands.{refund_bands, allowed_inversion}

abbrev policy1 : Policy
policy1 = record {
  orders_get = allow;
  shipping_get_status = allow;
  support_update_ticket = deny;
  payments_refund = record { currency = "USD"; automatic_max_minor = 50; approval_max_minor = 200 };
}

valid1 : is_valid_policy policy1 ≡ true
unfolding is_valid_policy is_currency
valid1 = refl

refund_bands_example :
    (d : PolicyDecision) × (evaluate_policy policy1 "payments.refund"
        "chaosagent.tool/payments.refund/v0"
        (natural 60)
        (some "USD")
      ≡ ok d)
    × ((d.decision ≡ allow) ↔ (60 ≤ 50))
    × ((d.decision ≡ require_approval) ↔ (50 + 1 ≤ 60) × (60 ≤ 200))
    × ((d.decision ≡ deny) ↔ (200 + 1 ≤ 60))
refund_bands_example = refund_bands policy1 60 (some "USD") valid1 refl

abbrev approval : PolicyDecision
approval = record { decision = require_approval; reason_code = "approval_required_refund_amount" }

abbrev above : PolicyDecision
above = record { decision = deny; reason_code = "deny_refund_above_absolute_limit" }

evaluated_60 :
    evaluate_policy policy1 "payments.refund" "chaosagent.tool/payments.refund/v0" (natural 60) none
    ≡ ok approval
unfolding evaluate_policy expected_version evaluate_refund
evaluated_60 = refl

evaluated_201 :
    evaluate_policy policy1 "payments.refund" "chaosagent.tool/payments.refund/v0"
      (natural 201)
      none
    ≡ ok above
unfolding evaluate_policy expected_version evaluate_refund
evaluated_201 = refl

abbrev order_tool : String
order_tool = "orders.get"

abbrev order_allowed : PolicyDecision
order_allowed = record { decision = allow; reason_code = "allow_orders_get" }

evaluated_order :
    evaluate_policy policy1 "orders.get" "chaosagent.tool/orders.get/v0" (natural 0) none
    ≡ ok order_allowed
unfolding evaluate_policy expected_version evaluate_simple simple_rule
evaluated_order = refl

allowed_inversion_example :
    (expected_version "orders.get" ≡ some "chaosagent.tool/orders.get/v0")
    × ((simple_rule policy1 "orders.get" ≡ allow)
        ⊎ ((order_tool ≡ "payments.refund")
            × (is_exact (natural 0) ≡ true)
            × (is_within (natural 0) 50 ≡ true)
            × (is_mismatch none "USD" ≡ false)))
allowed_inversion_example =
    allowed_inversion policy1 "orders.get" "chaosagent.tool/orders.get/v0" (natural 0) none
      order_allowed evaluated_order refl
