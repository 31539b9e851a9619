-- ===== src/Policy/Bands.antt =====
-- The bands of the evaluation in packages/policies/src/chaosagent_policies/policy.py, and its order.
use chaosagent.Base.{
  ℕ, ◌+◌, ◌≤◌, ◌≡◌, refl, String, true, false, ◌⊎◌, inl, inr, ◌↔◌, Option, some, ◌==◌, string_eq,
  nat_eq, ok, Bool-cases, arith, eq_iff, is_some_of-true,
}
use chaosagent.Policy.{
  Decision, allow, deny, require_approval, PolicyDecision, RefundRule, Policy, Amount, natural,
  negative, not_exact, is_within, is_mismatch, is_valid_policy, expected_version, simple_rule,
  evaluate_simple, evaluate_refund, evaluate_policy, is_exact,
}

-- from allow to deny
abbrev pub strictness : Decision → ℕ
strictness allow = 0
strictness require_approval = 1
strictness deny = 2

abbrev pub AmountLe : Amount → Amount → Type 0
AmountLe (natural a) (natural b) = a ≤ b
AmountLe (natural a) (negative b) = ⊥
AmountLe (negative a) (natural b) = Unit
AmountLe (negative a) (negative b) = b ≤ a
AmountLe _ _ = ⊥

-- Under a validated policy a refund of an exact amount from 0 up, in no other currency than the rule's, is
-- decided: it is allowed exactly up to the automatic limit, needs an approval exactly above it and up to
-- the approval limit, and is denied exactly above that.
pub refund_bands :
    (policy : Policy) (n : ℕ) (currency : Option String)
    → is_valid_policy policy ≡ true
    → is_mismatch currency policy.payments_refund.currency ≡ false
    → (d : PolicyDecision) × (evaluate_policy policy "payments.refund"
          "chaosagent.tool/payments.refund/v0"
          (natural n)
          currency
        ≡ ok d)
      × ((d.decision ≡ allow) ↔ (n ≤ policy.payments_refund.automatic_max_minor))
      × ((d.decision ≡ require_approval)
          ↔ (policy.payments_refund.automatic_max_minor + 1 ≤ n)
            × (n ≤ policy.payments_refund.approval_max_minor))
      × ((d.decision ≡ deny) ↔ (policy.payments_refund.approval_max_minor + 1 ≤ n))
unfolding evaluate_policy expected_version evaluate_refund is_valid_policy
refund_bands policy n currency valid same = (
  evaluate_refund policy.payments_refund (natural n) currency,
  refl,
  ground arith,
  ground arith,
  ground arith,
)

evaluate_refund_monotone :
    (rule : RefundRule) (a b : Amount) (currency : Option String)
    → rule.automatic_max_minor ≤ rule.approval_max_minor
    → AmountLe a b
    → strictness (evaluate_refund rule a currency).decision
      ≤ strictness (evaluate_refund rule b currency).decision
unfolding evaluate_refund
evaluate_refund_monotone rule (natural a) (natural b) currency order le = ground arith
evaluate_refund_monotone rule (negative a) (natural b) currency order le = ground arith
evaluate_refund_monotone rule (negative a) (negative b) currency order le = ground arith
evaluate_refund_monotone rule not_exact b currency order le = elim le [ ]
evaluate_refund_monotone rule (natural a) not_exact currency order le = elim le [ ]
evaluate_refund_monotone rule (natural a) (negative b) currency order le = elim le [ ]
evaluate_refund_monotone rule (negative a) not_exact currency order le = elim le [ ]

-- Under a validated policy, with all else the same, a larger amount is never decided more leniently.
evaluate_monotone :
    (policy : Policy) (tool_id version : String) (a b : Amount) (currency : Option String)
    (d e : PolicyDecision)
    → is_valid_policy policy ≡ true
    → AmountLe a b
    → evaluate_policy policy tool_id version a currency ≡ ok d
    → evaluate_policy policy tool_id version b currency ≡ ok e
    → strictness d.decision ≤ strictness e.decision
unfolding evaluate_policy is_valid_policy
evaluate_monotone policy tool_id version a b currency d e valid le h k =
    ground (arith, evaluate_refund_monotone policy.payments_refund a b currency)

-- Only what the policy allows is allowed: a known tool under its own contract version, and either a tool
-- whose rule allows it, or a refund of an exact amount within the automatic limit in no other currency.
pub allowed_inversion :
    (policy : Policy) (tool_id version : String) (amount : Amount) (currency : Option String)
    (d : PolicyDecision)
    → evaluate_policy policy tool_id version amount currency ≡ ok d
    → d.decision ≡ allow
    → (expected_version tool_id ≡ some version)
      × ((simple_rule policy tool_id ≡ allow)
          ⊎ ((tool_id ≡ "payments.refund")
              × (is_exact amount ≡ true)
              × (is_within amount policy.payments_refund.automatic_max_minor ≡ true)
              × (is_mismatch currency policy.payments_refund.currency ≡ false)))
unfolding evaluate_policy evaluate_simple evaluate_refund
allowed_inversion policy tool_id version amount currency d h allowed = (
  ground (arith, is_some_of-true (expected_version tool_id) version),
  elim (Bool-cases (tool_id == "payments.refund")) [
    | inl refund ↦
        inr (
          ground (arith, eq_iff tool_id "payments.refund"),
          ground arith,
          ground arith,
          ground arith,
        )
    | inr other ↦ inl (ground arith)
  ],
)
