-- ===== src/Json/Same.antt =====
-- `==` on the values of `json` in Python: a Boolean equals the number that it stands for, and the order of
-- the members of a dictionary does not count.
use chaosagent.Base.{
  ℕ, suc, ℤ, pos, negsuc, String, Bool, true, false, ◌&&◌, Option, none, some, ◌==◌, nat_eq,
  string_eq, if◌then◌else◌,
}
use chaosagent.Json.{
  Value, null, boolean, integer, text, array, object, Items, nil, cons, Members, end, member, get,
}

abbrev pub same_integer : ℤ → ℤ → Bool
same_integer (pos n) (pos m) = n == m
same_integer (negsuc n) (negsuc m) = n == m
same_integer (pos n) (negsuc m) = false
same_integer (negsuc n) (pos m) = false

abbrev pub number_of_boolean : Bool → ℤ
number_of_boolean true = pos 1
number_of_boolean false = pos 0

abbrev pub equals_number_value : ℤ → Value → Bool
equals_number_value n (integer m) = same_integer n m
equals_number_value n (boolean b) = same_integer n (number_of_boolean b)
equals_number_value n _ = false

abbrev pub equals_text_value : String → Value → Bool
equals_text_value s (text t) = s == t
equals_text_value s _ = false

abbrev pub is_null_value : Value → Bool
is_null_value null = true
is_null_value _ = false

abbrev pub size : Members → ℕ
size end = 0
size (member k v rest) = suc (size rest)

unfoldable mutual
  pub same_value : Value → Value → Bool
  same_value null w = is_null_value w
  same_value (boolean b) w = equals_number_value (number_of_boolean b) w
  same_value (integer n) w = equals_number_value n w
  same_value (text s) w = equals_text_value s w
  same_value (array xs) w = elim w [ array ys ↦ same_items xs ys | _ ↦ false ]
  same_value (object d) w = elim w [ object e ↦ size d == size e && same_members d e | _ ↦ false ]

  pub same_items : Items → Items → Bool
  same_items nil nil = true
  same_items nil (cons y ys) = false
  same_items (cons x xs) nil = false
  same_items (cons x xs) (cons y ys) = same_value x y && same_items xs ys

  pub same_members : Members → Members → Bool
  same_members end e = true
  same_members (member k v rest) e =
      elim (get k e) [ none ↦ false | some w ↦ same_value v w ] && same_members rest e

-- `d.get(key)` as a value: None where the key is missing
abbrev pub or_null : Option Value → Value
or_null none = null
or_null (some v) = v

unfoldable pub field : String → Members → Value
field key d = or_null (get key d)

-- `d[key] = value`
unfoldable pub assign_member : String → Value → Members → Members
assign_member key value end = member key value end
assign_member key value (member k v rest) =
    if k == key then member k value rest else member k v (assign_member key value rest)
