-- ===== src/Campaigns.antt =====
-- The statistics of a Campaign in packages/evaluators/src/chaosagent_evaluators/campaigns.py: counts,
-- rates and the two reliability figures. A rate is its numerator and its denominator, before it is
-- written as a decimal; a set of warnings is the list of those that a call adds.
pub mod Combinations
pub mod Groups
pub mod Samples
pub mod Pairs
mod Tests
use chaosagent.Base.{
  ℕ, zero, suc, ◌+◌, ◌-◌, ◌*◌, ◌/◌, ◌%◌, Bool, true, false, not, ◌&&◌, Option, none, some, List, [],
  ◌∷◌, ◌++◌, map, ltb, length, filter, ◌==◌, nat_eq, if◌then◌else◌,
}

pub data Classification : Type 0 where
  pass fail invalid : Classification

pub record IndexedClassification : Type 0 where
  pub trial_index : ℕ
  pub classification : Classification

pub data Warning : Type 0 where
  no_valid_evaluations small_sample invalid_evaluations_present : Warning
  insufficient_pass_at_k_samples incomplete_pass_power_group : Warning
  invalid_pass_power_groups missing_pass_power_groups : Warning

pub record Counts : Type 0 where
  pub total_runs : ℕ
  pub valid_evaluated : ℕ
  pub pass_count : ℕ
  pub fail_count : ℕ
  pub invalid_count : ℕ

pub data Rate : Type 0 where
  zero_denominator : Rate
  available_rate : (n successes : ℕ) → Rate

pub data PassAt : Type 0 where
  k_exceeds_valid_sample : (n successes : ℕ) → PassAt
  available_pass_at : (n successes numerator denominator : ℕ) → PassAt

pub record PassPower : Type 0 where
  pub complete_groups : ℕ
  pub valid_groups : ℕ
  pub successful_groups : ℕ
  pub invalid_groups : ℕ
  pub missing_groups : ℕ
  pub discarded_runs : ℕ
  pub estimate : Rate

pub record Reliability : Type 0 where
  pub k : ℕ
  pub pass_at_k : PassAt
  pub pass_power_k : PassPower
  pub added_warnings : List Warning

abbrev pub is_pass : Classification → Bool
is_pass pass = true
is_pass _ = false

abbrev pub is_fail : Classification → Bool
is_fail fail = true
is_fail _ = false

abbrev pub is_invalid : Classification → Bool
is_invalid invalid = true
is_invalid _ = false

-- `classifications.count(...)`
abbrev pub count : (Classification → Bool) → List Classification → ℕ
count p cs = length (filter p cs)

unfoldable pub counts : List Classification → Counts
counts classifications = record {
  total_runs = length classifications;
  valid_evaluated = count is_pass classifications + count is_fail classifications;
  pass_count = count is_pass classifications;
  fail_count = count is_fail classifications;
  invalid_count = count is_invalid classifications;
}

abbrev pub small_sample_threshold : ℕ
small_sample_threshold = 30

abbrev pub when : Bool → Warning → List Warning
when true w = w ∷ []
when false w = []

unfoldable pub count_warnings : Counts → List Warning
count_warnings c =
    (if c.valid_evaluated == 0
      then no_valid_evaluations ∷ []
      else when (ltb c.valid_evaluated small_sample_threshold) small_sample)
    ++ when (not (c.invalid_count == 0)) invalid_evaluations_present

unfoldable pub binomial_rate : ℕ → ℕ → Rate
binomial_rate successes n = if n == 0 then zero_denominator else available_rate n successes

-- `math.comb`
unfoldable pub comb : ℕ → ℕ → ℕ
comb n zero = 1
comb zero (suc k) = 0
comb (suc n) (suc k) = comb n k + comb n (suc k)

unfoldable pub pass_at : ℕ → ℕ → ℕ → PassAt
pass_at n pass_count k =
    if ltb n k
    then k_exceeds_valid_sample n pass_count
    else available_pass_at n pass_count (comb n k - comb (n - pass_count) k) (comb n k)

-- `dict(indexed_classifications).get(index)`: the last entry of an index counts
abbrev pub or_entry : Option Classification → ℕ → IndexedClassification → Option Classification
or_entry (some c) index item = some c
or_entry none index item = if item.trial_index == index then some item.classification else none

unfoldable pub by_index : List IndexedClassification → ℕ → Option Classification
by_index [] index = none
by_index (item ∷ rest) index = or_entry (by_index rest index) index item

-- the entries of `size` indexes from `start` on
unfoldable pub group_from : List IndexedClassification → ℕ → ℕ → List (Option Classification)
group_from items start zero = []
group_from items start (suc size) = by_index items start ∷ group_from items (start + 1) size

-- the groups of size `k` from number `group` on
unfoldable pub groups_from :
    List IndexedClassification → ℕ → ℕ → ℕ → List (List (Option Classification))
groups_from items k group zero = []
groups_from items k group (suc n) =
    group_from items (group * k) k ∷ groups_from items k (group + 1) n

abbrev pub all_of {ℓ} : {A : Type ℓ} → (A → Bool) → List A → Bool
all_of p [] = true
all_of p (x ∷ xs) = p x && all_of p xs

abbrev pub is_present : Option Classification → Bool
is_present none = false
is_present (some _) = true

-- `item != "invalid"`
abbrev pub is_not_invalid : Option Classification → Bool
is_not_invalid (some c) = not (is_invalid c)
is_not_invalid none = true

abbrev pub has_passed : Option Classification → Bool
has_passed (some c) = is_pass c
has_passed none = false

unfoldable pub pass_power : List IndexedClassification → ℕ → ℕ → PassPower
unfolding binomial_rate
pass_power items planned_trials k =
    let complete = planned_trials / k in
    let groups = groups_from items k 0 complete in
    let present = filter (all_of is_present) groups in
    let valid = filter (all_of is_not_invalid) present in
    let successful = length (filter (all_of has_passed) valid) in
    record {
      complete_groups = complete;
      valid_groups = length valid;
      successful_groups = successful;
      invalid_groups = length present - length valid;
      missing_groups = complete - length present;
      discarded_runs = planned_trials % k;
      estimate = binomial_rate successful (length valid);
    }

abbrev pub is_insufficient : PassAt → Bool
is_insufficient (k_exceeds_valid_sample n s) = true
is_insufficient _ = false

abbrev pub valid_classifications : List IndexedClassification → List Classification
valid_classifications items = filter (λ c. not (is_invalid c)) (map (λ i. i.classification) items)

unfoldable pub reliability : List IndexedClassification → ℕ → ℕ → Reliability
unfolding pass_at pass_power
reliability items planned_trials k =
    let valid = valid_classifications items in
    let sample = pass_at (length valid) (count is_pass valid) k in
    let power = pass_power items planned_trials k in
    record {
      k = k;
      pass_at_k = sample;
      pass_power_k = power;
      added_warnings =
          when (is_insufficient sample) insufficient_pass_at_k_samples
          ++ (when (not (power.discarded_runs == 0)) incomplete_pass_power_group
              ++ (when (not (power.invalid_groups == 0)) invalid_pass_power_groups
                  ++ when (not (power.missing_groups == 0)) missing_pass_power_groups));
    }
