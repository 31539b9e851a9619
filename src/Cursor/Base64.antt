-- ===== src/Cursor/Base64.antt =====
-- Base64 without padding, as services/control-plane/src/chaosagent_control_plane/cursor.py uses it.
use chaosagent.Base.{
  ℕ, ◌+◌, ◌*◌, ◌/◌, ◌%◌, ◌≤◌, ◌<◌, ◌≡◌, refl, ap, ◌∙◌, some, List, [], ◌∷◌, map, length, nat_eq,
  arith, All,
}
use chaosagent.Cursor.{symbol, value_of, cons_value, b64encode, values_of, cons_three, bytes_of}

value_of-symbol : (v : ℕ) → v < 64 → value_of (symbol v) ≡ some v
unfolding value_of symbol
value_of-symbol v small = ground arith

-- the values that `b64encode` writes as symbols
unfoldable pub sextets : List ℕ → List ℕ
sextets [] = []
sextets (a ∷ []) = (a / 4) ∷ (a % 4 * 16) ∷ []
sextets (a ∷ b ∷ []) = (a / 4) ∷ (a % 4 * 16 + b / 16) ∷ (b % 16 * 4) ∷ []
sextets (a ∷ b ∷ c ∷ rest) =
    (a / 4) ∷ (a % 4 * 16 + b / 16) ∷ (b % 16 * 4 + c / 64) ∷ (c % 64) ∷ sextets rest

abbrev pub IsBytes : List ℕ → Type 0
IsBytes = All (λ c. c < 256)

b64encode-sextets : (bytes : List ℕ) → b64encode bytes ≡ map symbol (sextets bytes)
unfolding b64encode sextets
b64encode-sextets [] = refl
b64encode-sextets (a ∷ []) = refl
b64encode-sextets (a ∷ b ∷ []) = refl
b64encode-sextets (a ∷ b ∷ c ∷ rest) =
    ap
      (λ r.
        symbol (a / 4)
        ∷ symbol (a % 4 * 16 + b / 16)
        ∷ symbol (b % 16 * 4 + c / 64)
        ∷ symbol (c % 64)
        ∷ r)
      (b64encode-sextets rest)

sextets-small : (bytes : List ℕ) → IsBytes bytes → All (λ v. v < 64) (sextets bytes)
unfolding sextets
sextets-small [] all = tt
sextets-small (a ∷ []) (la, all) = (omega arith, (omega arith, tt))
sextets-small (a ∷ b ∷ []) (la, (lb, all)) = (omega arith, (omega arith, (omega arith, tt)))
sextets-small (a ∷ b ∷ c ∷ rest) (la, (lb, (lc, all))) =
    (omega arith, (omega arith, (omega arith, (omega arith, sextets-small rest all))))

values_of-symbols : (vs : List ℕ) → All (λ v. v < 64) vs → values_of (map symbol vs) ≡ some vs
unfolding values_of
values_of-symbols [] all = refl
values_of-symbols (v ∷ vs) (small, all) =
    ap (λ o. cons_value o (values_of (map symbol vs))) (value_of-symbol v small)
    ∙ ap (cons_value (some v)) (values_of-symbols vs all)

pub values_of-b64encode :
    (bytes : List ℕ) → IsBytes bytes → values_of (b64encode bytes) ≡ some (sextets bytes)
values_of-b64encode bytes all =
    ap values_of (b64encode-sextets bytes)
    ∙ values_of-symbols (sextets bytes) (sextets-small bytes all)

only_byte : (a : ℕ) → a / 4 * 4 + a % 4 * 16 / 16 ≡ a
only_byte a = omega arith

last_byte : (a b : ℕ) → b < 256 → (a % 4 * 16 + b / 16) % 16 * 16 + b % 16 * 4 / 4 ≡ b
last_byte a b lb = omega arith

first_byte : (a n : ℕ) → n < 16 → a / 4 * 4 + (a % 4 * 16 + n) / 16 ≡ a
first_byte a n small = omega arith

second_byte :
    (a b n : ℕ) → b < 256 → n < 4 → (a % 4 * 16 + b / 16) % 16 * 16 + (b % 16 * 4 + n) / 4 ≡ b
second_byte a b n lb small = omega arith

third_byte : (b c : ℕ) → c < 256 → (b % 16 * 4 + c / 64) % 4 * 64 + c % 64 ≡ c
third_byte b c lc = omega arith

pub bytes_of-sextets : (bytes : List ℕ) → IsBytes bytes → bytes_of (sextets bytes) ≡ some bytes
unfolding bytes_of sextets
bytes_of-sextets [] all = refl
bytes_of-sextets (a ∷ []) (la, all) = ap (λ x. some (x ∷ [])) (only_byte a)
bytes_of-sextets (a ∷ b ∷ []) (la, (lb, all)) =
    λ i. some (first_byte a (b / 16) (omega arith) i ∷ last_byte a b lb i ∷ [])
bytes_of-sextets (a ∷ b ∷ c ∷ rest) (la, (lb, (lc, all))) = λ i.
    cons_three (first_byte a (b / 16) (omega arith) i) (second_byte a b (c / 64) lb (omega arith) i)
      (third_byte b c lc i) (bytes_of-sextets rest all i)

-- Three bytes make four symbols.
pub length-b64encode : (bytes : List ℕ) → length (b64encode bytes) * 3 ≤ length bytes * 4 + 2
unfolding b64encode
length-b64encode [] = omega arith
length-b64encode (a ∷ []) = omega arith
length-b64encode (a ∷ b ∷ []) = omega arith
length-b64encode (a ∷ b ∷ c ∷ rest) = let h = length-b64encode rest in omega arith

pub nonempty-b64encode : (bytes : List ℕ) → 1 ≤ length bytes → 1 ≤ length (b64encode bytes)
unfolding b64encode
nonempty-b64encode [] some_byte = some_byte
nonempty-b64encode (a ∷ []) some_byte = omega arith
nonempty-b64encode (a ∷ b ∷ []) some_byte = omega arith
nonempty-b64encode (a ∷ b ∷ c ∷ rest) some_byte = omega arith
