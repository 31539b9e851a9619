-- ===== src/Events/Pages.antt =====
-- Paging through the events of a Run in
-- packages/persistence/src/chaosagent_persistence/repository.py: pages follow on without gap or overlap.
use chaosagent.Base.{
  ℕ, suc, zero, ◌≤◌, ◌<◌, ◌≡◌, refl, sym, ap, subst, ◌∙◌, String, Bool, true, false, none, List, [],
  ◌∷◌, ◌++◌, leb, filter, ◌==◌, nat_eq, string_eq, Bool-cases, inl, inr, All, All-map, ok, arith,
  eq_iff,
}
use chaosagent.Store.Tables.{Event, Db}
use chaosagent.Events.{sequence_exists}
use chaosagent.Events.Log.{IsLog}
use chaosagent.Events.Reads.{
  insert_event, sorted_events, is_after, is_through, take, fetch_events, fetch_event_page,
}

-- in strictly increasing order of sequences
abbrev pub IsSorted : List Event → Type 0
IsSorted [] = Unit
IsSorted (e ∷ rest) = All (λ x. e.sequence < x.sequence) rest × IsSorted rest

-- where the reader of a page goes on: after its last event
abbrev pub last_sequence : ℕ → List Event → ℕ
last_sequence n [] = n
last_sequence n (e ∷ rest) = last_sequence e.sequence rest

All-insert_event :
    (P : Event → Type 0) (e : Event) (xs : List Event) → P e → All P xs → All P (insert_event e xs)
unfolding insert_event
All-insert_event P e [] p h = (p, tt)
All-insert_event P e (x ∷ xs) p h = elim (Bool-cases (leb e.sequence x.sequence)) [
  | inl before ↦ rw before (p, h)
  | inr behind ↦ rw behind (h.0, All-insert_event P e xs p h.1)
]

-- Inserting a new sequence keeps the order.
insert_event-IsSorted :
    (e : Event) (xs : List Event)
    → All (λ x. (x.sequence == e.sequence) ≡ false) xs
    → IsSorted xs
    → IsSorted (insert_event e xs)
unfolding insert_event
insert_event-IsSorted e [] new sorted = (tt, tt)
insert_event-IsSorted e (x ∷ xs) new sorted = elim (Bool-cases (leb e.sequence x.sequence)) [
  | inl before ↦
      let less : e.sequence < x.sequence = ground (arith, new.0) in
      rw before ((less, All-map _ _ xs (λ y q. omega (arith, q, less)) sorted.0), sorted)
  | inr behind ↦
      rw behind
        (All-insert_event _ e xs (ground arith) sorted.0, insert_event-IsSorted e xs new.1 sorted.1)
]

sequence_new :
    (run_id : String) (n : ℕ) (events : List Event)
    → sequence_exists run_id n events ≡ false
    → All (λ x. (x.sequence == n) ≡ false) (sorted_events run_id events)
unfolding sequence_exists sorted_events
sequence_new run_id n [] h = tt
sequence_new run_id n (e ∷ events) h = elim (Bool-cases (e.run_id == run_id)) [
  | inl mine ↦ rw mine (
      All-insert_event _ e (sorted_events run_id events) (ground arith)
        (sequence_new run_id n events (ground arith)))
  | inr other ↦ rw other (sequence_new run_id n events (ground arith))
]

pub sorted_events-IsSorted :
    (run_id : String) (events : List Event) → IsLog events → IsSorted (sorted_events run_id events)
unfolding sorted_events
sorted_events-IsSorted run_id [] log = tt
sorted_events-IsSorted run_id (e ∷ events) log =
    let rest = sorted_events-IsSorted run_id events log.4 in
    elim (Bool-cases (e.run_id == run_id)) [
      | inl mine ↦
          let same : e.run_id ≡ run_id = (eq_iff e.run_id run_id).0 mine in
          let new : sequence_exists run_id e.sequence events ≡ false =
            subst (λ id. sequence_exists id e.sequence events ≡ false) same log.1 in
          rw mine (
            insert_event-IsSorted e (sorted_events run_id events)
              (sequence_new run_id e.sequence events new) rest)
      | inr other ↦ rw other rest
    ]

filter-after :
    (n : ℕ) (xs : List Event) → All (λ x. n < x.sequence) xs → filter (is_after n) xs ≡ xs
filter-after n [] h = refl
filter-after n (x ∷ xs) h = ground (arith, filter-after n xs h.1, h.0)

last_sequence-le :
    (n limit : ℕ) (xs : List Event)
    → All (λ x. n < x.sequence) xs
    → IsSorted xs
    → n ≤ last_sequence n (take limit xs)
last_sequence-le n zero xs h sorted = omega arith
last_sequence-le n (suc limit) [] h sorted = omega arith
last_sequence-le n (suc limit) (x ∷ xs) h sorted =
    let rest = last_sequence-le x.sequence limit xs sorted.0 sorted.1 in omega (arith, h.0, rest)

sorted_split :
    (n limit : ℕ) (xs : List Event)
    → All (λ x. n < x.sequence) xs
    → IsSorted xs
    → xs ≡ take limit xs ++ filter (is_after (last_sequence n (take limit xs))) xs
sorted_split n zero xs h sorted = sym (filter-after n xs h)
sorted_split n (suc limit) [] h sorted = refl
sorted_split n (suc limit) (x ∷ xs) h sorted =
    let rest = sorted_split x.sequence limit xs sorted.0 sorted.1 in
    let past = last_sequence-le x.sequence limit xs sorted.0 sorted.1 in
    let skipped : filter (is_after (last_sequence x.sequence (take limit xs))) (x ∷ xs)
        ≡ filter (is_after (last_sequence x.sequence (take limit xs))) xs =
      ground arith in
    ap (λ t. x ∷ t) (rest ∙ ap (λ t. take limit xs ++ t) (sym skipped))

filter-filter :
    (n m : ℕ) (xs : List Event)
    → n ≤ m
    → filter (is_after m) (filter (is_after n) xs) ≡ filter (is_after m) xs
filter-filter n m [] h = refl
filter-filter n m (x ∷ xs) h = ground (arith, filter-filter n m xs h)

All-filter :
    (P : Event → Type 0) (p : Event → Bool) (xs : List Event) → All P xs → All P (filter p xs)
All-filter P p [] h = tt
All-filter P p (x ∷ xs) h = elim (Bool-cases (p x)) [
  | inl kept ↦ rw kept (h.0, All-filter P p xs h.1)
  | inr gone ↦ rw gone (All-filter P p xs h.1)
]

filter-IsSorted : (p : Event → Bool) (xs : List Event) → IsSorted xs → IsSorted (filter p xs)
filter-IsSorted p [] h = tt
filter-IsSorted p (x ∷ xs) h = elim (Bool-cases (p x)) [
  | inl kept ↦ rw kept (All-filter _ p xs h.0, filter-IsSorted p xs h.1)
  | inr gone ↦ rw gone (filter-IsSorted p xs h.1)
]

All-filter_test :
    (P : Event → Type 0) (p : Event → Bool) (xs : List Event)
    → ((x : Event) → p x ≡ true → P x)
    → All P (filter p xs)
All-filter_test P p [] f = tt
All-filter_test P p (x ∷ xs) f = elim (Bool-cases (p x)) [
  | inl kept ↦ rw kept (f x kept, All-filter_test P p xs f)
  | inr gone ↦ rw gone (All-filter_test P p xs f)
]

filter-through_none : (xs : List Event) → filter (is_through none) xs ≡ xs
filter-through_none [] = refl
filter-through_none (x ∷ xs) = ap (λ t. x ∷ t) (filter-through_none xs)

fetch_events-rest :
    (run_id : String) (n : ℕ) (db : Db) (rest : List Event)
    → fetch_events run_id n none db ≡ ok rest
    → rest ≡ filter (is_after n) (sorted_events run_id db.events)
unfolding fetch_events
fetch_events-rest run_id n db rest h =
    let later = filter (is_after n) (sorted_events run_id db.events) in
    let all : filter (is_through none) later ≡ later = filter-through_none later in
    let same : rest ≡ filter (is_through none) later = cc in same ∙ all

-- In a well-formed log, a page and the events that are fetched after its last sequence are together what
-- is fetched after the sequence that the page was asked for, in order.
pub pages_follow_on :
    (run_id : String) (after_sequence limit : ℕ) (db : Db) (page rest : List Event)
    → IsLog db.events
    → fetch_event_page run_id after_sequence limit db ≡ ok page
    → fetch_events run_id (last_sequence after_sequence page) none db ≡ ok rest
    → fetch_events run_id after_sequence none db ≡ ok (page ++ rest)
unfolding fetch_event_page fetch_events
pages_follow_on run_id after_sequence limit db page rest log h k =
    let S = sorted_events run_id db.events in
    let F = filter (is_after after_sequence) S in
    let all_after =
      All-filter_test (λ x. after_sequence < x.sequence) (is_after after_sequence) S
        (λ x t. ground (arith, t)) in
    let in_order =
      filter-IsSorted (is_after after_sequence) S (sorted_events-IsSorted run_id db.events log) in
    let past = last_sequence-le after_sequence limit F all_after in_order in
    let page_eq : page ≡ take limit F = ground (arith, h) in
    let rest_eq : rest ≡ filter (is_after (last_sequence after_sequence (take limit F))) S =
      fetch_events-rest run_id (last_sequence after_sequence page) db rest k
      ∙ ap (λ p. filter (is_after (last_sequence after_sequence p)) S) page_eq in
    ap ok (
      filter-through_none F
      ∙ sorted_split after_sequence limit F all_after in_order
      ∙ ap (λ t. take limit F ++ t)
          (filter-filter after_sequence (last_sequence after_sequence (take limit F)) S past)
      ∙ rw (page_eq, rest_eq))
