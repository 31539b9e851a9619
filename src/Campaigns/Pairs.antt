-- ===== src/Campaigns/Pairs.antt =====
-- The comparison of the two arms of an experiment (`_paired_rows`, `_signed_rate`) in
-- packages/evaluators/src/chaosagent_evaluators/campaigns.py. A signed rate is its numerator and its
-- denominator, before it is written as a decimal.
pub mod Partition
use chaosagent.Base.{
  ℕ, ◌+◌, ◌-◌, ℤ, pos, negsuc, String, Bool, true, false, not, ◌&&◌, ◌||◌, Option, none, some, List,
  [], ◌∷◌, ◌++◌, ltb, leb, length, filter, ◌==◌, nat_eq, string_eq, contains, if◌then◌else◌,
}
use chaosagent.Json.{all_in}
use chaosagent.Campaigns.{
  Classification, pass, fail, invalid, small_sample_threshold, is_pass, is_fail, is_invalid,
}

pub record TrialRow : Type 0 where
  pub trial_index : ℕ
  pub classification : Classification
  pub observed_fault_ids : List String

pub data PairWarning : Type 0 where
  missing_pairs invalid_pairs_excluded small_paired_sample : PairWarning
  observed_fault_pair_set_empty : PairWarning

pub data SignedRate : Type 0 where
  zero_denominator : SignedRate
  signed : (numerator : ℤ) → (denominator : ℕ) → SignedRate

abbrev pub difference : ℕ → ℕ → ℤ
difference a b = if leb b a then pos (a - b) else negsuc (b - a - 1)

-- `_signed_rate(up - down, n)`
unfoldable pub signed_rate : ℕ → ℕ → ℕ → SignedRate
signed_rate up down n = if n == 0 then zero_denominator else signed (difference up down) n

-- `sorted(set(…))` of indexes
unfoldable pub insert_index : ℕ → List ℕ → List ℕ
insert_index n [] = n ∷ []
insert_index n (m ∷ ms) =
    let later = insert_index n ms in
    if n == m then m ∷ ms else if ltb n m then n ∷ m ∷ ms else m ∷ later

unfoldable pub sorted_indexes : List TrialRow → List ℕ
sorted_indexes [] = []
sorted_indexes (r ∷ rs) = insert_index r.trial_index (sorted_indexes rs)

-- `by_index.get(index)`: the last row of an index counts
unfoldable pub row_at : ℕ → List TrialRow → Option TrialRow
row_at n [] = none
row_at n (r ∷ rs) = elim (row_at n rs) [
  | some x ↦ some x
  | none ↦ if r.trial_index == n then some r else none
]

abbrev pub Pair : Type 0
Pair = TrialRow × TrialRow

abbrev pub pair_at : List TrialRow → List TrialRow → ℕ → Option Pair
pair_at baseline faulted n = elim (row_at n baseline) [
  | none ↦ none
  | some left ↦ elim (row_at n faulted) [ none ↦ none | some right ↦ some (left, right) ]
]

-- the pairs of the common indexes, in their order
unfoldable pub pairs_of : List TrialRow → List TrialRow → List ℕ → List Pair
pairs_of baseline faulted [] = []
pairs_of baseline faulted (n ∷ ns) =
    let rest = pairs_of baseline faulted ns in
    elim (pair_at baseline faulted n) [ none ↦ rest | some p ↦ p ∷ rest ]

abbrev pub is_invalid_pair : Pair → Bool
is_invalid_pair p = is_invalid p.0.classification || is_invalid p.1.classification

abbrev pub is_improved : Pair → Bool
is_improved p = is_fail p.0.classification && is_pass p.1.classification

abbrev pub is_regressed : Pair → Bool
is_regressed p = is_pass p.0.classification && is_fail p.1.classification

abbrev pub is_observed : List String → Pair → Bool
is_observed selected p = all_in selected p.1.observed_fault_ids

abbrev pub count_pairs : (Pair → Bool) → List Pair → ℕ
count_pairs p pairs = length (filter p pairs)

pub record ObservedPairs : Type 0 where
  pub n : ℕ
  pub improved : ℕ
  pub regressed : ℕ
  pub pass_delta : SignedRate

pub record PairedRows : Type 0 where
  pub common_pairs : ℕ
  pub valid_pairs : ℕ
  pub invalid_pairs : ℕ
  pub improved : ℕ
  pub regressed : ℕ
  pub unchanged : ℕ
  pub missing_baseline : List ℕ
  pub missing_faulted : List ℕ
  pub pass_delta : SignedRate
  pub observed : ObservedPairs
  pub warnings : List PairWarning

abbrev pub warn_if : Bool → PairWarning → List PairWarning
warn_if true w = w ∷ []
warn_if false w = []

abbrev pub is_empty {ℓ} : {A : Type ℓ} → List A → Bool
is_empty [] = true
is_empty (x ∷ xs) = false

unfoldable pub common_indexes : List TrialRow → List TrialRow → List ℕ
common_indexes baseline faulted =
    filter (λ n. contains n (sorted_indexes faulted)) (sorted_indexes baseline)

-- the indexes of the rows that the other arm lacks
unfoldable pub missing_from : List TrialRow → List TrialRow → List ℕ
missing_from other rows =
    filter (λ n. not (contains n (sorted_indexes other))) (sorted_indexes rows)

abbrev pub valid_of : List Pair → List Pair
valid_of pairs = filter (λ p. not (is_invalid_pair p)) pairs

unfoldable pub observed_pairs : List Pair → ObservedPairs
observed_pairs pairs = record {
  n = length pairs;
  improved = count_pairs is_improved pairs;
  regressed = count_pairs is_regressed pairs;
  pass_delta =
      signed_rate (count_pairs is_improved pairs) (count_pairs is_regressed pairs) (length pairs);
}

unfoldable pub summary : List ℕ → List ℕ → List ℕ → List Pair → List String → PairedRows
summary common missing_baseline missing_faulted pairs selected =
    let valid = valid_of pairs in
    let improved = count_pairs is_improved valid in
    let regressed = count_pairs is_regressed valid in
    let observed = filter (is_observed selected) valid in
    record {
      common_pairs = length common;
      valid_pairs = length valid;
      invalid_pairs = count_pairs is_invalid_pair pairs;
      improved = improved;
      regressed = regressed;
      unchanged = length valid - improved - regressed;
      missing_baseline = missing_baseline;
      missing_faulted = missing_faulted;
      pass_delta = signed_rate improved regressed (length valid);
      observed = observed_pairs observed;
      warnings =
          warn_if (not (is_empty missing_baseline) || not (is_empty missing_faulted)) missing_pairs
          ++ (warn_if (not (count_pairs is_invalid_pair pairs == 0)) invalid_pairs_excluded
              ++ (warn_if (ltb (length valid) small_sample_threshold) small_paired_sample
                  ++ warn_if (is_empty observed) observed_fault_pair_set_empty));
    }

-- `_paired_rows`
unfoldable pub paired_rows : List TrialRow → List TrialRow → List String → PairedRows
paired_rows baseline faulted selected =
    summary (common_indexes baseline faulted) (missing_from baseline faulted)
      (missing_from faulted baseline) (pairs_of baseline faulted (common_indexes baseline faulted))
      selected
