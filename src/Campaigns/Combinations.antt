-- ===== src/Campaigns/Combinations.antt =====
-- `math.comb`, as packages/evaluators/src/chaosagent_evaluators/campaigns.py uses it.
use chaosagent.Base.{ℕ, zero, suc, ◌≤◌, ◌<◌, ◌≡◌, refl, arith}
use chaosagent.Campaigns.{comb}

pub comb_pos : (n k : ℕ) → k ≤ n → 1 ≤ comb n k
unfolding comb
comb_pos n zero h = omega arith
comb_pos zero (suc k) h = absurd (omega arith)
comb_pos (suc n) (suc k) h = let first : 1 ≤ comb n k = comb_pos n k (omega arith) in omega arith

pub comb_zero : (n k : ℕ) → n < k → comb n k ≡ 0
unfolding comb
comb_zero n zero h = absurd (omega arith)
comb_zero zero (suc k) h = refl
comb_zero (suc n) (suc k) h =
    let first : comb n k ≡ 0 = comb_zero n k (omega arith) in
    let second : comb n (suc k) ≡ 0 = comb_zero n (suc k) (omega arith) in omega arith

-- A larger set has at least as many subsets of a size, and more if it has one.
pub comb_monotone : (m n k : ℕ) → m ≤ n → comb m k ≤ comb n k
unfolding comb
comb_monotone m n zero h = omega arith
comb_monotone zero n (suc k) h = omega arith
comb_monotone (suc m) zero (suc k) h = absurd (omega arith)
comb_monotone (suc m) (suc n) (suc k) h =
    let a : comb m k ≤ comb n k = comb_monotone m n k (omega arith) in
    let b : comb m (suc k) ≤ comb n (suc k) = comb_monotone m n (suc k) (omega arith) in omega arith

pub comb_strict : (m n k : ℕ) → m < n → 1 ≤ k → k ≤ n → comb m k < comb n k
unfolding comb
comb_strict m zero k h positive le = absurd (omega arith)
comb_strict m (suc n) zero h positive le = absurd (omega arith)
comb_strict m (suc n) (suc k) h positive le =
    let a : 1 ≤ comb n k = comb_pos n k (omega arith) in
    let b : comb m (suc k) ≤ comb n (suc k) = comb_monotone m n (suc k) (omega arith) in omega arith
