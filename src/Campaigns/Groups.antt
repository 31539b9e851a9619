-- ===== src/Campaigns/Groups.antt =====
-- The groups of `_reliability` in packages/evaluators/src/chaosagent_evaluators/campaigns.py.
use native.Mathlib.Nat.{div-add-mod', mod-lt}
use chaosagent.Base.{
  ℕ, zero, suc, ◌+◌, ◌*◌, ◌/◌, ◌≤◌, ◌<◌, ◌≡◌, refl, Bool, true, Option, some, List, [], ◌∷◌, length,
  filter, All, All-map, ap, arith,
}
use chaosagent.Campaigns.{
  Classification, pass, IndexedClassification, by_index, group_from, groups_from, all_of,
  is_present, is_not_invalid, has_passed, pass_power,
}

pub length-filter {ℓ} : {A : Type ℓ} (p : A → Bool) (xs : List A) → length (filter p xs) ≤ length xs
length-filter p [] = omega arith
length-filter p (x ∷ xs) =
    let rest : length (filter p xs) ≤ length xs = length-filter p xs in ground arith

pub length-groups_from :
    (items : List IndexedClassification) (k group n : ℕ) → length (groups_from items k group n) ≡ n
unfolding groups_from
length-groups_from items k group zero = refl
length-groups_from items k group (suc n) = ap suc (length-groups_from items k (group + 1) n)

-- The complete groups and the discarded runs make up the planned trials, every complete group is
-- valid, invalid or missing, and only valid groups succeed, where k is not 0.
pass_power_partition :
    (items : List IndexedClassification) (planned_trials k : ℕ)
    → 1 ≤ k
    → ((pass_power items planned_trials k).complete_groups * k
          + (pass_power items planned_trials k).discarded_runs
        ≡ planned_trials)
      × ((pass_power items planned_trials k).discarded_runs < k)
      × ((pass_power items planned_trials k).valid_groups
            + (pass_power items planned_trials k).invalid_groups
            + (pass_power items planned_trials k).missing_groups
          ≡ (pass_power items planned_trials k).complete_groups)
      × ((pass_power items planned_trials k).successful_groups
          ≤ (pass_power items planned_trials k).valid_groups)
unfolding pass_power
pass_power_partition items planned_trials k positive =
    let complete = planned_trials / k in
    let groups = groups_from items k 0 complete in
    let present = filter (all_of is_present) groups in
    let valid = filter (all_of is_not_invalid) present in
    let n = length-groups_from items k 0 complete in
    let a = length-filter (all_of is_present) groups in
    let b = length-filter (all_of is_not_invalid) present in
    let c = length-filter (all_of has_passed) valid in
    (div-add-mod' planned_trials k, mod-lt planned_trials positive, omega (arith, n, a, b), c)

-- All of a group has passed that holds passed trials only.
all_of-group_from :
    (items : List IndexedClassification) (start size : ℕ)
    → ((i : ℕ) → start ≤ i → i < start + size → by_index items i ≡ some pass)
    → (all_of is_present (group_from items start size) ≡ true)
      × (all_of is_not_invalid (group_from items start size) ≡ true)
      × (all_of has_passed (group_from items start size) ≡ true)
unfolding group_from
all_of-group_from items start zero h = (refl, refl, refl)
all_of-group_from items start (suc size) h =
    let here : by_index items start ≡ some pass = h start (omega arith) (omega arith) in
    let (p, q, r) =
      all_of-group_from items (start + 1) size (λ i low high. h i (omega arith) (omega arith)) in
    (rw (here, p), rw (here, q), rw (here, r))

abbrev pub HasPassed : List (Option Classification) → Type 0
HasPassed g =
    (all_of is_present g ≡ true) × (all_of is_not_invalid g ≡ true) × (all_of has_passed g ≡ true)

All-groups_from :
    (items : List IndexedClassification) (k group n : ℕ)
    → ((i : ℕ) → group * k ≤ i → i < (group + n) * k → by_index items i ≡ some pass)
    → All HasPassed (groups_from items k group n)
unfolding groups_from
All-groups_from items k group zero h = tt
All-groups_from items k group (suc n) h = (
  all_of-group_from items (group * k) k (λ i low high. h i low (grind arith)),
  All-groups_from items k (group + 1) n (λ i low high. h i (grind arith) (grind arith)),
)

filter-All :
    (p : List (Option Classification) → Bool) (gs : List (List (Option Classification)))
    → All (λ g. p g ≡ true) gs
    → filter p gs ≡ gs
filter-All p [] h = refl
filter-All p (g ∷ gs) h = let rest : filter p gs ≡ gs = filter-All p gs h.1 in rw (h.0, rest)

-- Where every trial of the complete groups has passed, every complete group succeeds, and none is missing
-- or invalid.
all_passed :
    (items : List IndexedClassification) (planned_trials k : ℕ)
    → ((i : ℕ) → i < planned_trials / k * k → by_index items i ≡ some pass)
    → ((pass_power items planned_trials k).successful_groups
        ≡ (pass_power items planned_trials k).complete_groups)
      × ((pass_power items planned_trials k).missing_groups ≡ 0)
      × ((pass_power items planned_trials k).invalid_groups ≡ 0)
unfolding pass_power
all_passed items planned_trials k h =
    let complete = planned_trials / k in
    let groups = groups_from items k 0 complete in
    let passed = All-groups_from items k 0 complete (λ i low high. h i (omega (arith, high))) in
    let present = filter-All (all_of is_present) groups (All-map _ _ groups (λ g x. x.0) passed) in
    let valid =
      filter-All (all_of is_not_invalid) groups (All-map _ _ groups (λ g x. x.1) passed) in
    let success = filter-All (all_of has_passed) groups (All-map _ _ groups (λ g x. x.2) passed) in
    let n = length-groups_from items k 0 complete in
    (
      rw (present, valid, success) n,
      rw present (omega (arith, n)),
      rw (present, valid) (omega arith),
    )
