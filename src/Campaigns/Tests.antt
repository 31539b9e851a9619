-- ===== src/Campaigns/Tests.antt =====
-- The theorems on Campaign statistics at a Campaign of three reported trials.
use chaosagent.Base.{
  ℕ, String, refl, ◌+◌, ◌*◌, ◌/◌, ◌≤◌, ◌<◌, ◌≡◌, ◌↔◌, some, List, [], ◌∷◌, length, arith, nat_eq,
  string_eq,
}
use chaosagent.Campaigns.{
  Classification, IndexedClassification, pass, fail, invalid, is_pass, count, by_index,
  available_pass_at, reliability, valid_classifications,
}
use chaosagent.Campaigns.Pairs.{
  TrialRow, signed_rate, insert_index, sorted_indexes, row_at, pairs_of, common_indexes,
  missing_from, observed_pairs, summary, paired_rows,
}
use chaosagent.Campaigns.Samples.{pass_at_k_estimate}

abbrev trials : List IndexedClassification
trials =
    record { trial_index = 0; classification = pass }
    ∷ record { trial_index = 1; classification = fail }
    ∷ record { trial_index = 2; classification = pass }
    ∷ []

abbrev good_trials : List IndexedClassification
good_trials =
    record { trial_index = 0; classification = pass }
    ∷ record { trial_index = 1; classification = pass }
    ∷ []

pass_at_k_estimate_example :
    (numerator denominator : ℕ) × ((reliability trials 5 2).pass_at_k
      ≡ available_pass_at 3 2 numerator denominator)
    × (1 ≤ denominator)
    × (numerator ≤ denominator)
    × ((numerator ≡ 0) ↔ (count is_pass (valid_classifications trials) ≡ 0))
    × ((numerator ≡ denominator) ↔ (
        length (valid_classifications trials) < count is_pass (valid_classifications trials) + 2))
pass_at_k_estimate_example = pass_at_k_estimate trials 5 2 (omega arith) (omega arith)

good_trials_passed : (i : ℕ) → i < 3 / 2 * 2 → by_index good_trials i ≡ some pass
unfolding by_index
good_trials_passed i h = ground arith

abbrev row : ℕ → Classification → List String → TrialRow
row n c observed = record { trial_index = n; classification = c; observed_fault_ids = observed }

abbrev baseline_rows : List TrialRow
baseline_rows = row 1 pass [] ∷ row 2 fail [] ∷ row 3 pass [] ∷ row 4 pass [] ∷ []

abbrev faulted_rows : List TrialRow
faulted_rows = row 2 pass ("slow" ∷ []) ∷ row 1 fail [] ∷ row 3 invalid [] ∷ row 5 pass [] ∷ []

paired : (paired_rows baseline_rows faulted_rows ("slow" ∷ [])).observed.improved ≡ 1
unfolding paired_rows summary common_indexes missing_from sorted_indexes insert_index pairs_of
    row_at observed_pairs signed_rate
paired = refl
