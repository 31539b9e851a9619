-- ===== src/Json/Escapes.antt =====
-- The escapes of a JSON pointer's tokens, in packages/faults/src/chaosagent_faults/application.py.
use Prim.Native.Char.{Char, code}
use text.Mathlib.TextEquality.{codes_equal}
use chaosagent.Base.{
  ◌≡◌, refl, ap, ◌∙◌, String, true, false, arith, Bool-cases, inl, inr, ◌==◌, nat_eq, if◌then◌else◌,
}
use chaosagent.Store.Texts.{concat}
use chaosagent.Json.Pointers.{replace_escape, decode}

-- RFC 6901: a tilde is written "~0" and a slash "~1".
abbrev pub encode_char : Char → String
encode_char c =
    if code c == b'~' then "~0" else if code c == b'/' then "~1" else String.◌∷◌ c String.[]

unfoldable pub encode : String → String
encode String.[] = String.[]
encode (String.◌∷◌ c rest) = concat (encode_char c) (encode rest)

-- with the slashes plain again
abbrev tilde_char : Char → String
tilde_char c = if code c == b'~' then "~0" else String.◌∷◌ c String.[]

tildes : String → String
tildes String.[] = String.[]
tildes (String.◌∷◌ c rest) = concat (tilde_char c) (tildes rest)

char_eq : (c d : Char) → (code c == code d) ≡ true → c ≡ d
char_eq c d h = codes_equal c d (ground arith)

slashes_back : (s : String) → replace_escape b'1' "/" false (encode s) ≡ tildes s
unfolding replace_escape encode tildes
slashes_back String.[] = refl
slashes_back (String.◌∷◌ c rest) = elim (Bool-cases (code c == b'~')) [
  | inl tilde ↦ rw (tilde, slashes_back rest)
  | inr other ↦ elim (Bool-cases (code c == b'/')) [
    | inl slash ↦ rw (char_eq c "/" slash, slashes_back rest)
    | inr plain_char ↦ rw (other, plain_char, other, slashes_back rest)
  ]
]

tildes_back : (s : String) → replace_escape b'0' "~" false (tildes s) ≡ s
unfolding replace_escape tildes
tildes_back String.[] = refl
tildes_back (String.◌∷◌ c rest) = elim (Bool-cases (code c == b'~')) [
  | inl tilde ↦ rw (char_eq c "~" tilde, tildes_back rest)
  | inr other ↦ rw (other, other, tildes_back rest)
]

-- A token written with the escapes of RFC 6901 is read back.
pub decode-encode : (s : String) → decode (encode s) ≡ s
unfolding decode
decode-encode s = ap (replace_escape b'0' "~" false) (slashes_back s) ∙ tildes_back s
