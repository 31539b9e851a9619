-- ===== src/Json/Tests.antt =====
-- The theorems on JSON pointers at a small document.
use chaosagent.Base.{pos, ◌≡◌, refl, some, [], ◌∷◌, string_eq}
use chaosagent.Json.{Value, integer, text, object, Members, end, member, get, put}
use chaosagent.Json.Pointers.{decode, split, replace_at, replace_json_pointer, get_at, part}
use chaosagent.Json.Laws.{path, replace_json_pointer-lens}

abbrev order : Value → Members
order status =
    member "id" (integer (pos 7))
      (member "order" (object (member "a/b" status (member "total" (integer (pos 40)) end))) end)

replace_json_pointer-lens_example :
    (get_at (path "/order/a~1b") (order (text "old")) ≡ some (text "old"))
    × (get_at ("order" ∷ "total" ∷ []) (order (text "old"))
        ≡ get_at ("order" ∷ "total" ∷ []) (order (text "new")))
unfolding replace_json_pointer replace_at get_at part decode split get put
replace_json_pointer-lens_example =
    replace_json_pointer-lens (order (text "new")) (order (text "old")) "/order/a~1b" (text "old")
      ("order" ∷ "total" ∷ []) refl refl
