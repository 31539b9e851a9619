-- ===== src/Campaigns/Samples.antt =====
-- pass@k in packages/evaluators/src/chaosagent_evaluators/campaigns.py.
use chaosagent.Base.{
  ℕ, ◌+◌, ◌-◌, ◌≤◌, ◌<◌, ◌≡◌, ◌↔◌, List, length, ltb, arith, Bool-cases, inl, inr,
}
use chaosagent.Campaigns.{
  IndexedClassification, is_pass, count, comb, available_pass_at, pass_at, reliability,
  valid_classifications,
}
use chaosagent.Campaigns.Combinations.{comb_pos, comb_zero, comb_monotone, comb_strict}
use chaosagent.Campaigns.Groups.{length-filter}

-- The estimate is a proper fraction, is 0 exactly if no trial passed, and 1 exactly if fewer than `k`
-- did not.
comb_extremes :
    (n c k : ℕ)
    → 1 ≤ k
    → k ≤ n
    → c ≤ n
    → (1 ≤ comb n k)
      × (comb n k - comb (n - c) k ≤ comb n k)
      × ((comb n k - comb (n - c) k ≡ 0) ↔ (c ≡ 0))
      × ((comb n k - comb (n - c) k ≡ comb n k) ↔ (n < c + k))
comb_extremes n c k positive enough within =
    let some_sample = comb_pos n k enough in
    let at_least = comb_monotone (n - c) n k (omega arith) in
    (
      some_sample,
      omega arith,
      (
        λ e. elim (Bool-cases (ltb 0 c)) [
          | inl more ↦
              let less = comb_strict (n - c) n k (ground arith) positive enough in
              absurd (omega (arith, less, e))
          | inr none_passed ↦ ground arith
        ],
        λ e. ground arith,
      ),
      (
        λ e. elim (Bool-cases (ltb n (c + k))) [
          | inl few ↦ ground arith
          | inr many ↦
              let rest = comb_pos (n - c) k (ground arith) in absurd (omega (arith, rest, e))
        ],
        λ e. let rest = comb_zero (n - c) k (omega arith) in omega (arith, rest),
      ),
    )

pass_at-enough :
    (n c k : ℕ)
    → k ≤ n
    → pass_at n c k ≡ available_pass_at n c (comb n k - comb (n - c) k) (comb n k)
unfolding pass_at
pass_at-enough n c k enough = ground arith

-- Where at least `k` trials are valid and `k` is not 0, the estimate of pass@k is a proper fraction, is 0
-- exactly if no trial passed, and is 1 exactly if fewer than `k` valid trials did not pass.
pub pass_at_k_estimate :
    (items : List IndexedClassification) (planned_trials k : ℕ)
    → 1 ≤ k
    → k ≤ length (valid_classifications items)
    → (numerator denominator : ℕ) × ((reliability items planned_trials k).pass_at_k
        ≡ available_pass_at
            (length (valid_classifications items))
            (count is_pass (valid_classifications items))
            numerator
            denominator)
      × (1 ≤ denominator)
      × (numerator ≤ denominator)
      × ((numerator ≡ 0) ↔ (count is_pass (valid_classifications items) ≡ 0))
      × ((numerator ≡ denominator) ↔ (
          length (valid_classifications items) < count is_pass (valid_classifications items) + k))
unfolding reliability
pass_at_k_estimate items planned_trials k positive enough =
    let valid = valid_classifications items in
    let n = length valid in
    let c = count is_pass valid in
    let (some_sample, proper, no_pass, all_pass) =
      comb_extremes n c k positive enough (length-filter is_pass valid) in
    (
      comb n k - comb (n - c) k,
      comb n k,
      pass_at-enough n c k enough,
      some_sample,
      proper,
      no_pass,
      all_pass,
    )
