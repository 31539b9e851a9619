-- ===== src/Json/Laws.antt =====
-- What an assignment through a JSON pointer changes, in
-- packages/faults/src/chaosagent_faults/application.py.
use chaosagent.Base.{
  ◌≡◌, refl, ◌↔◌, ◌⊎◌, String, true, Option, none, some, List, [], ◌∷◌, map, arith, eq_iff,
  Bool-cases, Option-cases, inl, inr, ◌==◌, nat_eq, string_eq, if◌then◌else◌,
}
use chaosagent.Json.{
  Value, null, boolean, integer, text, array, object, Members, member, end, get, put,
}
use chaosagent.Json.Pointers.{
  members_of, replace_at, replace_json_pointer, get_at, part, decode, split, tail, any_empty,
}

pub get-put :
    (j k : String) (v : Value) (d : Members) {old : Value}
    → get k d ≡ some old
    → get j (put k v d) ≡ (if k == j then some v else get j d)
unfolding get put
get-put j k v end h = ground arith
get-put j k v (member i w rest) {old} h =
    ground (arith, eq_iff i k, eq_iff i j, eq_iff k j, get-put j k v rest {old = old})

members_of-eq-some :
    (o : Option Value) {inner : Members} → members_of o ≡ some inner → o ≡ some (object inner)
members_of-eq-some none h = ground arith
members_of-eq-some (some null) h = ground arith
members_of-eq-some (some (boolean b)) h = ground arith
members_of-eq-some (some (integer n)) h = ground arith
members_of-eq-some (some (text s)) h = ground arith
members_of-eq-some (some (array xs)) h = ground arith
members_of-eq-some (some (object m)) h = ground arith

-- A replacement below the top goes through an object, and puts the changed object back.
pub record Through (token : String) (ts : List String) (v : Value) (d d' : Members) : Type 0 where
  pub inner : Members
  pub inner' : Members
  pub found : get token d ≡ some (object inner)
  pub below : replace_at ts v inner ≡ some inner'
  pub back : d' ≡ put token (object inner') d

replace_at-Through :
    (token t : String) (ts : List String) (v : Value) (d d' : Members)
    → replace_at (token ∷ t ∷ ts) v d ≡ some d'
    → Through token (t ∷ ts) v d d'
unfolding replace_at
replace_at-Through token t ts v d d' h = elim (Option-cases (members_of (get token d))) [
  | inl missing ↦ absurd (ground arith)
  | inr (inner, found) ↦ elim (Option-cases (replace_at (t ∷ ts) v inner)) [
    | inl missing ↦ absurd (ground arith)
    | inr (inner', below) ↦ record {
      inner = inner;
      inner' = inner';
      found = members_of-eq-some (get token d) found;
      below = below;
      back = ground arith;
    }
  ]
]

module _ (token : String) (ts : List String) (v : Value) (d d' : Members)
    (w : Through token ts v d d') where
  get-Through : (j : String) → get j d' ≡ (if token == j then some (object w.inner') else get j d)
  get-Through j = rw w.back (get-put j token (object w.inner') d w.found)

-- The field that a replacement names has the new value afterwards.
pub get_at-replace_at :
    (ts : List String) (v : Value) (d d' : Members)
    → replace_at ts v d ≡ some d'
    → get_at ts d' ≡ some v
unfolding replace_at get_at
get_at-replace_at [] v d d' h = ground arith
get_at-replace_at (leaf ∷ []) v d d' h = elim (Option-cases (get leaf d)) [
  | inl missing ↦ absurd (ground arith)
  | inr (old, found) ↦ ground (arith, get-put leaf leaf v d found, eq_iff leaf leaf)
]
get_at-replace_at (token ∷ t ∷ ts) v d d' h =
    let w = replace_at-Through token t ts v d d' h in
    ground (
      arith,
      get-Through token (t ∷ ts) v d d' w token,
      eq_iff token token,
      get_at-replace_at (t ∷ ts) v w.inner w.inner' w.below,
    )

-- Every path that parts from the replaced one leads to what it led to.
pub get_at-part :
    (ts qs : List String) (v : Value) (d d' : Members)
    → replace_at ts v d ≡ some d'
    → part ts qs ≡ true
    → get_at qs d' ≡ get_at qs d
unfolding replace_at get_at part
get_at-part [] qs v d d' h apart = ground arith
get_at-part (x ∷ xs) [] v d d' h apart = ground arith
get_at-part (x ∷ []) (y ∷ []) v d d' h apart = elim (Option-cases (get x d)) [
  | inl missing ↦ absurd (ground arith)
  | inr (old, found) ↦ ground (arith, get-put y x v d found)
]
get_at-part (x ∷ []) (y ∷ y' ∷ ys) v d d' h apart = elim (Option-cases (get x d)) [
  | inl missing ↦ absurd (ground arith)
  | inr (old, found) ↦ ground (arith, get-put y x v d found)
]
get_at-part (x ∷ x' ∷ xs) (y ∷ []) v d d' h apart =
    let w = replace_at-Through x x' xs v d d' h in
    ground (arith, get-Through x (x' ∷ xs) v d d' w y)
get_at-part (x ∷ x' ∷ xs) (y ∷ y' ∷ ys) v d d' h apart =
    let w = replace_at-Through x x' xs v d d' h in
    ground (
      arith,
      get-Through x (x' ∷ xs) v d d' w y,
      eq_iff x y,
      w.found,
      get_at-part (x' ∷ xs) (y' ∷ ys) v w.inner w.inner' w.below,
    )

-- A replacement is refused exactly where the pointer leads to nothing.
pub replace_at-eq-none :
    (ts : List String) (v : Value) (d : Members) → (replace_at ts v d ≡ none) ↔ (get_at ts d ≡ none)
unfolding replace_at get_at
replace_at-eq-none [] v d = ground arith
replace_at-eq-none (leaf ∷ []) v d = ground arith
replace_at-eq-none (token ∷ t ∷ ts) v d = elim (Option-cases (members_of (get token d))) [
  | inl missing ↦ ground arith
  | inr (inner, found) ↦ ground (arith, replace_at-eq-none (t ∷ ts) v inner)
]

-- the names of the fields that a pointer leads through
abbrev pub path : String → List String
path pointer = map decode (split (tail pointer))

-- A pointer is an assignment to one field: after it the path of the pointer leads to the new value, and every
-- path that parts from it leads to what it led to.
pub replace_json_pointer-lens :
    (document changed : Members) (pointer : String) (value : Value) (other : List String)
    → replace_json_pointer document pointer value ≡ some changed
    → part (path pointer) other ≡ true
    → (get_at (path pointer) changed ≡ some value) × (get_at other changed ≡ get_at other document)
unfolding replace_json_pointer
replace_json_pointer-lens document changed pointer value other h parts =
    elim (Bool-cases (any_empty (split (tail pointer)))) [
      | inl empty ↦ absurd (ground arith)
      | inr named ↦
          let replaced : replace_at (path pointer) value document ≡ some changed = ground arith in
          (
            get_at-replace_at (path pointer) value document changed replaced,
            get_at-part (path pointer) other value document changed replaced parts,
          )
    ]

-- FaultApplicationError is raised exactly for a pointer that has an empty token or leads to nothing.
replace_json_pointer-err :
    (document : Members) (pointer : String) (value : Value)
    → (replace_json_pointer document pointer value ≡ none)
      ↔ ((any_empty (split (tail pointer)) ≡ true) ⊎ (get_at (path pointer) document ≡ none))
unfolding replace_json_pointer
replace_json_pointer-err document pointer value =
    let refused = replace_at-eq-none (path pointer) value document in
    elim (Bool-cases (any_empty (split (tail pointer)))) [
      | inl empty ↦ (λ h. inl empty, λ h. rw (empty) refl)
      | inr named ↦ (
        λ h. inr (refused.0 (ground arith)),
        λ reason. elim reason [
          | inl empty ↦ absurd (ground arith)
          | inr lost ↦ rw (named) (refused.1 lost)
        ],
      )
    ]
