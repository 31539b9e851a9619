-- ===== src/Events/Reads.antt =====
-- The reads of Run Events in packages/persistence/src/chaosagent_persistence/repository.py. A row is the
-- event that an append stored.
use chaosagent.Base.{
  ℕ, suc, zero, String, Bool, true, ◌&&◌, Option, none, some, List, [], ◌∷◌, ltb, leb, filter, ◌==◌,
  nat_eq, string_eq, Result, ok, ◌>>◌, require, if◌then◌else◌,
}
use chaosagent.Store.Tables.{Error, value_error, Event, Db}
use chaosagent.Store.Identifiers.{is_identifier}

-- ORDER BY sequence
unfoldable pub insert_event : Event → List Event → List Event
insert_event e [] = e ∷ []
insert_event e (x ∷ xs) =
    let rest = insert_event e xs in if leb e.sequence x.sequence then e ∷ x ∷ xs else x ∷ rest

-- the rows of a Run in the order of their sequences
unfoldable pub sorted_events : String → List Event → List Event
sorted_events run_id [] = []
sorted_events run_id (e ∷ events) =
    let rest = sorted_events run_id events in
    if e.run_id == run_id then insert_event e rest else rest

abbrev pub is_after : ℕ → Event → Bool
is_after after_sequence e = ltb after_sequence e.sequence

-- `sequence <= through_sequence`, where one is given
abbrev pub is_through : Option ℕ → Event → Bool
is_through none e = true
is_through (some through_sequence) e = leb e.sequence through_sequence

-- LIMIT
abbrev pub take {ℓ} : {A : Type ℓ} → ℕ → List A → List A
take zero xs = []
take (suc n) [] = []
take (suc n) (x ∷ xs) = x ∷ take n xs

abbrev pub is_positive : Option ℕ → Bool
is_positive none = true
is_positive (some n) = leb 1 n

unfoldable pub fetch_events : String → ℕ → Option ℕ → Db → Result Error (List Event)
fetch_events run_id after_sequence through_sequence db = do
  require (is_positive through_sequence) value_error
  let later = filter (is_after after_sequence) (sorted_events run_id db.events)
  ok (filter (is_through through_sequence) later)

unfoldable pub fetch_event_page : String → ℕ → ℕ → Db → Result Error (List Event)
fetch_event_page run_id after_sequence limit db = do
  require (is_identifier run_id) value_error
  require (leb 1 limit && leb limit 1000) value_error
  ok (take limit (filter (is_after after_sequence) (sorted_events run_id db.events)))
