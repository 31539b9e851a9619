-- ===== src/Store/Texts.antt =====
-- Python's operations on texts that repository.py uses, and its regular expressions for digests and
-- currencies.
use Prim.Native.Char.{code}
use chaosagent.Base.{
  ℕ, String, Bool, true, false, ◌&&◌, ◌||◌, Option, none, some, List, [], ◌∷◌, ltb, leb, length,
  ◌==◌, nat_eq, if◌then◌else◌,
}
use chaosagent.Store.Identifiers.{codes, every}

abbrev pub concat : String → String → String
concat String.[] t = t
concat (String.◌∷◌ c s) t = String.◌∷◌ c (concat s t)

-- `separator.join(texts)`
abbrev pub join : String → List String → String
join separator [] = ""
join separator (s ∷ []) = s
join separator (s ∷ t ∷ rest) = concat s (concat separator (join separator (t ∷ rest)))

abbrev pub strip_prefix : String → String → Option String
strip_prefix String.[] s = some s
strip_prefix (String.◌∷◌ c p) String.[] = none
strip_prefix (String.◌∷◌ c p) (String.◌∷◌ d s) =
    let rest = strip_prefix p s in if code c == code d then rest else none

-- `s.removeprefix(p)`
abbrev pub removeprefix : String → String → String
removeprefix s p = elim (strip_prefix p s) [ none ↦ s | some rest ↦ rest ]

unfoldable pub is_hex : ℕ → Bool
is_hex c = (leb b'0' c && leb c b'9') || (leb b'a' c && leb c b'f')

-- `^sha256:[0-9a-f]{64}$`
unfoldable pub is_digest : String → Bool
unfolding is_hex
is_digest s = elim (strip_prefix "sha256:" s) [
  | none ↦ false
  | some rest ↦ length (codes rest) == 64 && every is_hex (codes rest)
]

-- `[A-Z]{3}`
unfoldable pub is_currency : String → Bool
is_currency s = length (codes s) == 3 && every (λ c. leb b'A' c && leb c b'Z') (codes s)

-- `a < b` on texts, by code points
unfoldable pub text_lt : String → String → Bool
text_lt String.[] String.[] = false
text_lt String.[] (String.◌∷◌ d t) = true
text_lt (String.◌∷◌ c s) String.[] = false
text_lt (String.◌∷◌ c s) (String.◌∷◌ d t) =
    let rest = text_lt s t in if code c == code d then rest else ltb (code c) (code d)

-- `[…]+(?:[._-][…]+)*` over the characters that pass a test; `inside` says that one of them came last
unfoldable pub matches_segments : (ℕ → Bool) → Bool → List ℕ → Bool
matches_segments p inside [] = inside
matches_segments p inside (c ∷ rest) =
    let separates = inside && ((c == b'.' || c == b'_') || c == b'-') in
    (p c || separates) && matches_segments p (p c) rest
