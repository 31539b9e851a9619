-- ===== src/Json.antt =====
-- The JSON values that packages/faults/src/chaosagent_faults handles: what `json` gives, frozen or not.
-- Floating-point numbers are left out. A dictionary is a list of its members in order, a key once.
pub mod Pointers
pub mod Laws
pub mod Escapes
pub mod Same
mod Tests
use chaosagent.Base.{
  ℕ, zero, suc, ℤ, String, Bool, true, false, ◌&&◌, ◌||◌, Option, none, some, List, [], ◌∷◌, ◌==◌,
  string_eq, contains, if◌then◌else◌,
}

mutual
  pub data Value : Type 0 where
    null : Value
    boolean : Bool → Value
    integer : ℤ → Value
    text : String → Value
    array : Items → Value
    object : Members → Value

  pub data Items : Type 0 where
    nil : Items
    cons : Value → Items → Items

  pub data Members : Type 0 where
    end : Members
    member : String → Value → Members → Members

-- whether an object stands in a value; `holds_objects` is that of a list
unfoldable mutual
  pub holds_object : Value → Bool
  holds_object (object d) = true
  holds_object (array vs) = holds_objects vs
  holds_object null = false
  holds_object (boolean b) = false
  holds_object (integer n) = false
  holds_object (text s) = false

  pub holds_objects : Items → Bool
  holds_objects nil = false
  holds_objects (cons v vs) = holds_object v || holds_objects vs

-- `d.get(key)`
unfoldable pub get : String → Members → Option Value
get key end = none
get key (member k v rest) = if k == key then some v else get key rest

-- `d[key] = value` for a key that is there
unfoldable pub put : String → Value → Members → Members
put key value end = end
put key value (member k v rest) =
    if k == key then member k value rest else member k v (put key value rest)

abbrev pub keys : Members → List String
keys end = []
keys (member k v rest) = k ∷ keys rest

abbrev pub all_in : List String → List String → Bool
all_in [] names = true
all_in (x ∷ xs) names = contains x names && all_in xs names

-- `set(d) == {…}`
abbrev pub has_exactly : List String → Members → Bool
has_exactly names d = all_in (keys d) names && all_in names (keys d)

abbrev pub repeat : ℕ → Value → Items
repeat zero v = nil
repeat (suc n) v = cons v (repeat n v)
