-- ===== src/Evaluators/Lookups.antt =====
-- Python's dictionaries, comprehensions and `sorted` as the evaluator engine uses them.
use chaosagent.Base.{
  String, Bool, true, false, ◌&&◌, Option, none, some, List, [], ◌∷◌, ◌==◌, string_eq, Result, ok,
  err, ◌>>=◌, if◌then◌else◌,
}
use chaosagent.Json.{Value, text, Members, get}
use chaosagent.Evaluators.{
  RevisionRef, EvidenceEvent, Stop, malformed, Authority, ApprovalStatus, pending, approved, denied,
}

-- `{key: item for …}.get(key)`: the last item of the key counts
unfoldable pub last_with {ℓ} : {A : Type ℓ} → (A → Bool) → List A → Option A
last_with p [] = none
last_with p (x ∷ xs) = elim (last_with p xs) [
  | some y ↦ some y
  | none ↦ if p x then some x else none
]

-- `[f(item) for item in items if …]`
unfoldable pub collect {ℓ κ} : {A : Type ℓ} {B : Type κ} → (A → Option B) → List A → List B
collect f [] = []
collect f (x ∷ xs) = let rest = collect f xs in elim (f x) [ none ↦ rest | some y ↦ y ∷ rest ]

abbrev pub each_of {ℓ} : {A : Type ℓ} → (A → Bool) → List A → Bool
each_of p [] = true
each_of p (x ∷ xs) = p x && each_of p xs

abbrev pub any_of {ℓ} : {A : Type ℓ} → (A → Bool) → List A → Bool
any_of p [] = false
any_of p (x ∷ xs) = if p x then true else any_of p xs

-- `sorted(items, key=…)`, stable; `lt` compares the keys
unfoldable pub insert_by {ℓ} : {A : Type ℓ} → (A → A → Bool) → A → List A → List A
insert_by lt x [] = x ∷ []
insert_by lt x (y ∷ ys) = let later = insert_by lt x ys in if lt y x then y ∷ later else x ∷ y ∷ ys

unfoldable pub sort_by {ℓ} : {A : Type ℓ} → (A → A → Bool) → List A → List A
sort_by lt [] = []
sort_by lt (x ∷ xs) = insert_by lt x (sort_by lt xs)

-- `authorities[effect_id] = authority`
unfoldable pub assign : String → Authority → List (String × Authority) → List (String × Authority)
assign key a [] = (key, a) ∷ []
assign key a ((k, b) ∷ rest) = if k == key then (k, a) ∷ rest else (k, b) ∷ assign key a rest

-- `by_id.get(event_id)`
unfoldable pub event_of : String → List EvidenceEvent → Option EvidenceEvent
event_of id events = last_with (λ e. e.event_id == id) events

-- the identity of a row, which is a text
abbrev pub text_of_value : Option Value → Result Stop String
text_of_value (some (text s)) = ok s
text_of_value _ = err malformed

-- `{row[field]: row for row in rows}`, the last row first
unfoldable pub keyed :
    String → List Members → List (String × Members) → Result Stop (List (String × Members))
keyed name [] earlier = ok earlier
keyed name (row ∷ rows) earlier = do
  id ← text_of_value (get name row)
  keyed name rows ((id, row) ∷ earlier)

abbrev pub same_ref : RevisionRef → RevisionRef → Bool
same_ref a b = a.id == b.id && (a.revision == b.revision && a.digest == b.digest)

abbrev pub same_optional : Option String → Option String → Bool
same_optional none none = true
same_optional (some a) (some b) = a == b
same_optional _ _ = false

abbrev pub same_status : ApprovalStatus → ApprovalStatus → Bool
same_status pending pending = true
same_status approved approved = true
same_status denied denied = true
same_status _ _ = false
