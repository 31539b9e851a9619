-- ===== src/Campaigns/Pairs/Partition.antt =====
-- How the pairs of two arms divide up.
use chaosagent.Base.{
  ℕ, ◌+◌, ◌≤◌, ◌≡◌, ◌≢◌, refl, String, Bool, true, false, not, ◌&&◌, none, List, [], ◌∷◌, length,
  filter, ◌==◌, nat_eq, contains, arith, All, Bool-cases, Option-cases, inl, inr,
}
use chaosagent.Campaigns.{Classification, pass, fail, invalid, is_pass, is_fail}
use chaosagent.Campaigns.Pairs.{
  TrialRow, insert_index, sorted_indexes, row_at, Pair, pair_at, pairs_of, is_invalid_pair,
  is_improved, is_regressed, is_observed, count_pairs, common_indexes, missing_from, valid_of,
  observed_pairs, summary, paired_rows,
}

contains-insert_index :
    (n m : ℕ) (ms : List ℕ)
    → contains n (insert_index m ms) ≡ true
    → (n == m) ≡ false
    → contains n ms ≡ true
unfolding insert_index
contains-insert_index n m [] h other = absurd (ground arith)
contains-insert_index n m (k ∷ ks) h other = ground (arith, contains-insert_index n m ks)

has_row :
    (n : ℕ) (rows : List TrialRow) → contains n (sorted_indexes rows) ≡ true → row_at n rows ≢ none
unfolding row_at sorted_indexes
has_row n [] h = absurd (ground arith)
has_row n (r ∷ rs) h = elim (Bool-cases (n == r.trial_index)) [
  | inl here ↦ λ missing. absurd (ground arith)
  | inr there ↦
      let later =
        has_row n rs (contains-insert_index n r.trial_index (sorted_indexes rs) h there) in
      λ missing. absurd (ground (arith, later))
]

All-kept {ℓ} :
    {A : Type ℓ} (p q : A → Bool) (xs : List A)
    → All (λ x. q x ≡ true) xs
    → All (λ x. (p x ≡ true) × (q x ≡ true)) (filter p xs)
All-kept p q [] h = tt
All-kept p q (x ∷ xs) h = elim (Bool-cases (p x)) [
  | inl kept ↦ rw kept ((kept, h.0), All-kept p q xs h.1)
  | inr dropped ↦ rw dropped (All-kept p q xs h.1)
]

All-contains_tail :
    (x : ℕ) (all xs : List ℕ)
    → All (λ n. contains n all ≡ true) xs
    → All (λ n. contains n (x ∷ all) ≡ true) xs
All-contains_tail x all [] h = tt
All-contains_tail x all (y ∷ ys) h = (ground (arith, h.0), All-contains_tail x all ys h.1)

All-contains : (xs : List ℕ) → All (λ n. contains n xs ≡ true) xs
All-contains [] = tt
All-contains (x ∷ xs) = (ground arith, All-contains_tail x xs xs (All-contains xs))

module _ (baseline faulted : List TrialRow) where
  pair_found :
      (n : ℕ)
      → contains n (sorted_indexes faulted) ≡ true
      → contains n (sorted_indexes baseline) ≡ true
      → pair_at baseline faulted n ≢ none
  pair_found n right left =
      let left_row = has_row n baseline left in
      let right_row = has_row n faulted right in
      elim (Option-cases (row_at n baseline)) [
        | inl missing ↦ absurd (left_row missing)
        | inr (l, there) ↦ elim (Option-cases (row_at n faulted)) [
          | inl missing ↦ absurd (right_row missing)
          | inr (r, here) ↦ λ nothing. absurd (ground arith)
        ]
      ]

  length-pairs_of :
      (ns : List ℕ)
      → All
          (λ n.
            (contains n (sorted_indexes faulted) ≡ true)
            × (contains n (sorted_indexes baseline) ≡ true))
          ns
      → length (pairs_of baseline faulted ns) ≡ length ns
  unfolding pairs_of
  length-pairs_of [] h = refl
  length-pairs_of (n ∷ ns) h =
      let rest = length-pairs_of ns h.1 in
      let found = pair_found n h.0.0 h.0.1 in
      elim (Option-cases (pair_at baseline faulted n)) [
        | inl nothing ↦ absurd (found nothing)
        | inr (p, here) ↦ ground (arith, rest, here)
      ]

  length-common :
      length (pairs_of baseline faulted (common_indexes baseline faulted))
      ≡ length (common_indexes baseline faulted)
  unfolding common_indexes
  length-common = length-pairs_of _ (
      All-kept (λ n. contains n (sorted_indexes faulted)) _ (sorted_indexes baseline)
        (All-contains (sorted_indexes baseline)))

length-partition {ℓ} :
    {A : Type ℓ} (p : A → Bool) (xs : List A)
    → length xs ≡ length (filter p xs) + length (filter (λ x. not (p x)) xs)
length-partition p [] = omega arith
length-partition p (x ∷ xs) = let rest = length-partition p xs in ground (arith, rest)

filter-le {ℓ} : {A : Type ℓ} (p : A → Bool) (xs : List A) → length (filter p xs) ≤ length xs
filter-le p [] = omega arith
filter-le p (x ∷ xs) = let rest = filter-le p xs in ground (arith, rest)

filter-filter-le {ℓ} :
    {A : Type ℓ} (p q : A → Bool) (xs : List A)
    → length (filter p (filter q xs)) ≤ length (filter p xs)
filter-filter-le p q [] = omega arith
filter-filter-le p q (x ∷ xs) = let rest = filter-filter-le p q xs in ground (arith, rest)

common-length :
    (baseline faulted : List TrialRow)
    → length (sorted_indexes baseline)
      ≡ length (common_indexes baseline faulted) + length (missing_from faulted baseline)
unfolding common_indexes missing_from
common-length baseline faulted =
    length-partition (λ n. contains n (sorted_indexes faulted)) (sorted_indexes baseline)

pass_is_not_fail : (c : Classification) → (is_pass c && is_fail c) ≡ false
pass_is_not_fail pass = refl
pass_is_not_fail fail = refl
pass_is_not_fail invalid = refl

-- no pair is improved and regressed at once
improved_or_regressed :
    (pairs : List Pair)
    → count_pairs is_improved pairs + count_pairs is_regressed pairs ≤ length pairs
improved_or_regressed [] = omega arith
improved_or_regressed ((l, r) ∷ ps) =
    let rest = improved_or_regressed ps in
    ground (arith, rest, pass_is_not_fail l.classification, pass_is_not_fail r.classification)

-- The common pairs are the valid and the invalid ones; the valid ones are the improved, the regressed and the
-- unchanged ones; the indexes of the baseline are those of the common pairs and those that the faulted arm
-- lacks; and of the valid pairs, of the improved and of the regressed ones, no more are observed than there
-- are.
paired_rows-partition :
    (baseline faulted : List TrialRow) (selected : List String)
    → let r = paired_rows baseline faulted selected in
      (r.common_pairs ≡ r.valid_pairs + r.invalid_pairs)
      × (r.valid_pairs ≡ r.improved + r.regressed + r.unchanged)
      × (length (sorted_indexes baseline) ≡ r.common_pairs + length r.missing_faulted)
      × (r.observed.n ≤ r.valid_pairs)
      × (r.observed.improved ≤ r.improved)
      × (r.observed.regressed ≤ r.regressed)
unfolding paired_rows summary observed_pairs missing_from
paired_rows-partition baseline faulted selected =
    let pairs = pairs_of baseline faulted (common_indexes baseline faulted) in
    let all = length-common baseline faulted in
    let parts = length-partition is_invalid_pair pairs in
    let changed = improved_or_regressed (valid_of pairs) in
    (
      omega (arith, all, parts),
      omega (arith, changed),
      common-length baseline faulted,
      filter-le (is_observed selected) (valid_of pairs),
      filter-filter-le is_improved (is_observed selected) (valid_of pairs),
      filter-filter-le is_regressed (is_observed selected) (valid_of pairs),
    )
