-- ===== src/Json/Pointers.antt =====
-- `_replace_json_pointer` of packages/faults/src/chaosagent_faults/application.py. `none` is the
-- FaultApplicationError of a pointer that names no field of the document.
use Prim.Native.Char.{Char, code}
use chaosagent.Base.{
  ℕ, String, Bool, true, false, ◌||◌, Option, none, some, List, [], ◌∷◌, map, ◌==◌, nat_eq,
  string_eq, if◌then◌else◌,
}
use chaosagent.Json.{Value, object, Members, get, put}
use chaosagent.Store.Texts.{concat}

-- the text of a character, unless it is a tilde, whose text waits for the next character
abbrev pub plain : Char → String
plain c = if code c == b'~' then String.[] else String.◌∷◌ c String.[]

-- `token.replace("~" + digit, by)`; `pending` says that a tilde came last
abbrev pub emit : ℕ → String → Bool → Char → String
emit digit by false c = plain c
emit digit by true c = if code c == digit then by else concat "~" (plain c)

unfoldable pub replace_escape : ℕ → String → Bool → String → String
replace_escape digit by pending String.[] = if pending then "~" else String.[]
replace_escape digit by pending (String.◌∷◌ c rest) =
    concat (emit digit by pending c) (replace_escape digit by (code c == b'~') rest)

-- `token.replace("~1", "/").replace("~0", "~")`
unfoldable pub decode : String → String
unfolding replace_escape
decode token = replace_escape b'0' "~" false (replace_escape b'1' "/" false token)

abbrev pub prepend : Char → List String → List String
prepend c [] = String.◌∷◌ c String.[] ∷ []
prepend c (w ∷ ws) = String.◌∷◌ c w ∷ ws

-- `text.split("/")`
unfoldable pub split : String → List String
split String.[] = String.[] ∷ []
split (String.◌∷◌ c rest) =
    let words = split rest in if code c == b'/' then String.[] ∷ words else prepend c words

-- `pointer[1:]`
abbrev pub tail : String → String
tail String.[] = String.[]
tail (String.◌∷◌ c rest) = rest

abbrev pub is_empty : String → Bool
is_empty String.[] = true
is_empty (String.◌∷◌ c rest) = false

abbrev pub any_empty : List String → Bool
any_empty [] = false
any_empty (t ∷ ts) = is_empty t || any_empty ts

abbrev pub put_in : String → Members → Option Members → Option Members
put_in token d none = none
put_in token d (some inner) = some (put token (object inner) d)

abbrev pub put_leaf : String → Value → Members → Option Value → Option Members
put_leaf leaf value d none = none
put_leaf leaf value d (some old) = some (put leaf value d)

abbrev pub members_of : Option Value → Option Members
members_of (some (object inner)) = some inner
members_of _ = none

-- the walk to the field that the tokens name, and the assignment to it
unfoldable pub replace_at : List String → Value → Members → Option Members
replace_at [] value d = none
replace_at (leaf ∷ []) value d = put_leaf leaf value d (get leaf d)
replace_at (token ∷ t ∷ ts) value d = elim (members_of (get token d)) [
  | none ↦ none
  | some inner ↦ put_in token d (replace_at (t ∷ ts) value inner)
]

unfoldable pub replace_json_pointer : Members → String → Value → Option Members
unfolding split decode
replace_json_pointer document pointer value =
    let tokens = split (tail pointer) in
    if any_empty tokens then none else replace_at (map decode tokens) value document

-- the value at a path of names
abbrev pub value_in : Option Members → (Members → Option Value) → Option Value
value_in none f = none
value_in (some inner) f = f inner

unfoldable pub get_at : List String → Members → Option Value
get_at [] d = none
get_at (leaf ∷ []) d = get leaf d
get_at (token ∷ t ∷ ts) d = value_in (members_of (get token d)) (get_at (t ∷ ts))

-- Two paths part where neither goes on from the end of the other.
unfoldable pub part : List String → List String → Bool
part [] q = false
part (x ∷ xs) [] = false
part (x ∷ xs) (y ∷ ys) = if x == y then part xs ys else true
