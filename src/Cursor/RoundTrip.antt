-- ===== src/Cursor/RoundTrip.antt =====
-- Cursors and their texts in services/control-plane/src/chaosagent_control_plane/cursor.py.
use chaosagent.Base.{
  ℕ, ◌+◌, ◌≤◌, ◌≡◌, ◌↔◌, refl, ap, ◌∙◌, subst, Bool, true, false, not, ◌&&◌, List, [], ◌∷◌, ◌++◌,
  ltb, leb, length, ◌==◌, ==→≡, ==-refl, nat_eq, arith, and_true, ok, or_raise, bind_ok, require_ok,
  ok_injective, le→leb,
}
use chaosagent.Events.{max_safe_integer}
use chaosagent.Store.Identifiers.{every, is_alphanumeric, is_identifier_char, matches_identifier}
use chaosagent.Cursor.{
  EventCursor, invalid_event_cursor, b64encode, values_of, bytes_of, decimal, is_digit, parse_int,
  split_lines, three_of, encoded_of, same_codes, is_cursor, material, encode_cursor, is_ascii,
  decode_cursor,
}
use chaosagent.Cursor.Base64.{
  IsBytes, values_of-b64encode, bytes_of-sextets, length-b64encode, nonempty-b64encode,
}
use chaosagent.Cursor.Decimal.{every-append, every_digit, length-digits, parse_int-decimal}

abbrev is_inline : ℕ → Bool
is_inline c = ltb c 128 && not (c == 10)

every-weaken :
    (p q : ℕ → Bool) (xs : List ℕ)
    → ((c : ℕ) → p c ≡ true → q c ≡ true)
    → every p xs ≡ true
    → every q xs ≡ true
every-weaken p q [] f h = refl
every-weaken p q (x ∷ xs) f h =
    let (first, rest) = and_true (p x) (every p xs) h in rw (f x first) (every-weaken p q xs f rest)

identifier_inline : (s : List ℕ) → matches_identifier s ≡ true → every is_inline s ≡ true
unfolding matches_identifier is_identifier_char is_alphanumeric
identifier_inline [] h = refl
identifier_inline (c ∷ cs) h =
    let (first, rest) = and_true (is_alphanumeric c) (every is_identifier_char cs) h in
    let tail_inline =
      every-weaken is_identifier_char is_inline cs (λ d ok_d. ground (arith, ok_d)) rest in
    ground (arith, first, tail_inline)

split_lines-last : (s : List ℕ) → every is_inline s ≡ true → split_lines s ≡ s ∷ []
unfolding split_lines
split_lines-last [] h = refl
split_lines-last (c ∷ cs) h =
    let (first, rest) = and_true (is_inline c) (every is_inline cs) h in
    let tail_line = split_lines-last cs rest in
    let other : (c == 10) ≡ false = ground arith in rw (other, tail_line) refl

split_lines-append :
    (s t : List ℕ) → every is_inline s ≡ true → split_lines (s ++ 10 ∷ t) ≡ s ∷ split_lines t
unfolding split_lines
split_lines-append [] t h = refl
split_lines-append (c ∷ cs) t h =
    let (first, rest) = and_true (is_inline c) (every is_inline cs) h in
    let tail_line = split_lines-append cs t rest in
    let other : (c == 10) ≡ false = ground arith in rw (other, tail_line) refl

every-All : (bytes : List ℕ) → every is_ascii bytes ≡ true → IsBytes bytes
every-All [] h = tt
every-All (c ∷ cs) h =
    let (first, rest) = and_true (is_ascii c) (every is_ascii cs) h in
    (ground arith, every-All cs rest)

same_codes_refl : (s : List ℕ) → same_codes s s ≡ true
same_codes_refl [] = refl
same_codes_refl (c ∷ cs) = rw (==-refl c) (same_codes_refl cs)

same_codes→≡ : (s t : List ℕ) → same_codes s t ≡ true → s ≡ t
same_codes→≡ [] [] h = refl
same_codes→≡ [] (y ∷ ys) h = absurd (ground arith)
same_codes→≡ (x ∷ xs) [] h = absurd (ground arith)
same_codes→≡ (x ∷ xs) (y ∷ ys) h =
    let (first, rest) = and_true (x == y) (same_codes xs ys) h in
    λ i. ==→≡ x y first i ∷ same_codes→≡ xs ys rest i

length-append : (s t : List ℕ) → length (s ++ t) ≡ length s + length t
length-append [] t = omega arith
length-append (c ∷ s) t = let rest = length-append s t in omega arith

unfoldable text_of : EventCursor → List ℕ
text_of c = b'v' ∷ b'1' ∷ b'.' ∷ b64encode (material c)

-- What a cursor's material is made of.
module _ (c : EventCursor) (valid : is_cursor c ≡ true) where
  run_inline : every is_inline c.run_id ≡ true
  run_inline = identifier_inline c.run_id (ground (arith, valid))

  event_inline : every is_inline c.event_id ≡ true
  event_inline = identifier_inline c.event_id (ground (arith, valid))

  sequence_inline : every is_inline (decimal c.sequence) ≡ true
  sequence_inline =
      every-weaken is_digit is_inline (decimal c.sequence) (λ d h. ground (arith, h))
        (every_digit 15 c.sequence)

  material_lines : split_lines (material c) ≡ c.run_id ∷ decimal c.sequence ∷ c.event_id ∷ []
  material_lines =
      split_lines-append c.run_id (decimal c.sequence ++ (10 ∷ c.event_id)) run_inline
      ∙ ap (λ ls. c.run_id ∷ ls)
          (split_lines-append (decimal c.sequence) c.event_id sequence_inline
            ∙ ap (λ ls. decimal c.sequence ∷ ls) (split_lines-last c.event_id event_inline))

  ascii_of : (s : List ℕ) → every is_inline s ≡ true → every is_ascii s ≡ true
  ascii_of s = every-weaken is_inline is_ascii s (λ d h. ground (arith, h))

  material_ascii : every is_ascii (material c) ≡ true
  material_ascii =
      every-append is_ascii c.run_id (10 ∷ (decimal c.sequence ++ (10 ∷ c.event_id)))
        (ascii_of c.run_id run_inline)
        (every-append is_ascii (decimal c.sequence) (10 ∷ c.event_id)
          (ascii_of (decimal c.sequence) sequence_inline) (ascii_of c.event_id event_inline))

  material_length : (1 ≤ length (material c)) × (length (material c) ≤ 274)
  material_length =
      let whole = length-append c.run_id (10 ∷ (decimal c.sequence ++ (10 ∷ c.event_id))) in
      let later = length-append (decimal c.sequence) (10 ∷ c.event_id) in
      let number = length-digits 15 c.sequence in
      let run_short : length c.run_id ≤ 128 = ground (arith, valid) in
      let event_short : length c.event_id ≤ 128 = ground (arith, valid) in
      (omega arith, omega arith)

  safe : c.sequence ≤ max_safe_integer
  safe = ground (arith, valid)

  encoded_length : (1 ≤ length (b64encode (material c))) × (length (b64encode (material c)) ≤ 600)
  encoded_length =
      let (some_byte, short) = material_length in
      let symbols = length-b64encode (material c) in
      (nonempty-b64encode (material c) some_byte, omega arith)

  decodes : decode_cursor (text_of c) ≡ ok c
  unfolding decode_cursor encode_cursor text_of
  decodes =
      let (some_symbol, short) = encoded_length in
      let bytes = every-All (material c) material_ascii in
      rw
        (
          le→leb (length (text_of c)) 605 (omega arith),
          le→leb 1 (length (b64encode (material c))) some_symbol,
          le→leb (length (b64encode (material c))) 600 short,
          values_of-b64encode (material c) bytes,
          bytes_of-sextets (material c) bytes,
          material_ascii,
          material_lines,
          parse_int-decimal c.sequence safe,
          valid,
          same_codes_refl (text_of c),
        )
        refl

encode-valid :
    (c : EventCursor) (value : List ℕ)
    → encode_cursor c ≡ ok value
    → (is_cursor c ≡ true) × (text_of c ≡ value)
unfolding encode_cursor text_of
encode-valid c value h =
    let (valid, returned) = require_ok (is_cursor c) invalid_event_cursor _ value h in
    (valid, ok_injective (text_of c) value _ refl returned)

decode-encodes :
    (c : EventCursor) (value : List ℕ) → decode_cursor value ≡ ok c → encode_cursor c ≡ ok value
unfolding decode_cursor
decode-encodes c value h =
    let (short, on1) = require_ok (leb (length value) 605) invalid_event_cursor _ c h in
    let (encoded, found, on2) =
      bind_ok (or_raise (encoded_of value) invalid_event_cursor) _ c on1 in
    let (values, symbols, on3) =
      bind_ok (or_raise (values_of encoded) invalid_event_cursor) _ c on2 in
    let (bytes, padded, on4) = bind_ok (or_raise (bytes_of values) invalid_event_cursor) _ c on3 in
    let (ascii, on5) = require_ok (every is_ascii bytes) invalid_event_cursor _ c on4 in
    let (fields, lines, on6) =
      bind_ok (or_raise (three_of (split_lines bytes)) invalid_event_cursor) _ c on5 in
    let (sequence, number, on7) =
      bind_ok (or_raise (parse_int fields.1) invalid_event_cursor) _ c on6 in
    let made : EventCursor = record {
      run_id = fields.0;
      sequence = sequence;
      event_id = fields.2;
    } in
    let (again, encoded_again, on8) = bind_ok (encode_cursor made) _ c on7 in
    let (same, returned) = require_ok (same_codes again value) invalid_event_cursor _ c on8 in
    subst (λ z. encode_cursor z ≡ ok value) (ok_injective made c _ refl returned)
      (encoded_again ∙ ap ok (same_codes→≡ again value same))

-- A text is decoded to a cursor exactly where it is the text that the cursor is encoded as.
pub decode_cursor_iff :
    (c : EventCursor) (value : List ℕ) → (decode_cursor value ≡ ok c) ↔ (encode_cursor c ≡ ok value)
decode_cursor_iff c value = (
  decode-encodes c value,
  λ h.
      let (valid, is_text) = encode-valid c value h in
      subst (λ v. decode_cursor v ≡ ok c) is_text (decodes c valid),
)
