-- ===== src/Cursor.antt =====
-- The cursors of the event stream in services/control-plane/src/chaosagent_control_plane/cursor.py. A text is
-- the list of its code points, and a material is ASCII, so its code points are its bytes.
pub mod Base64
pub mod Decimal
pub mod RoundTrip
mod Tests
use chaosagent.Base.{
  ℕ, suc, zero, ◌+◌, ◌-◌, ◌*◌, ◌/◌, ◌%◌, String, Bool, true, false, not, ◌&&◌, ◌||◌, Option, none,
  some, List, [], ◌∷◌, ◌++◌, ltb, leb, length, ◌==◌, nat_eq, Result, ok, err, ◌>>=◌, ◌>>◌, require,
  or_raise, if◌then◌else◌,
}
use chaosagent.Events.{max_safe_integer}
use chaosagent.Store.Identifiers.{every, matches_identifier}

pub record EventCursor : Type 0 where
  pub run_id : List ℕ
  pub sequence : ℕ
  pub event_id : List ℕ

-- `bad_request("invalid_event_cursor", …)`, the only exception
pub data CursorError : Type 0 where
  invalid_event_cursor : CursorError

-- a character of the URL-safe alphabet
unfoldable pub symbol : ℕ → ℕ
symbol v =
    if ltb v 26
    then v + b'A'
    else if ltb v 52
    then (v - 26) + b'a'
    else if ltb v 62
    then (v - 52) + b'0'
    else if v == 62
    then b'-'
    else b'_'

unfoldable pub value_of : ℕ → Option ℕ
value_of c =
    if leb b'A' c && leb c b'Z'
    then some (c - b'A')
    else if leb b'a' c && leb c b'z'
    then some ((c - b'a') + 26)
    else if leb b'0' c && leb c b'9'
    then some ((c - b'0') + 52)
    else if c == b'-'
    then some 62
    else if c == b'_'
    then some 63
    else none

-- `base64.urlsafe_b64encode(material).rstrip(b"=")`
unfoldable pub b64encode : List ℕ → List ℕ
b64encode [] = []
b64encode (a ∷ []) = symbol (a / 4) ∷ symbol (a % 4 * 16) ∷ []
b64encode (a ∷ b ∷ []) = symbol (a / 4) ∷ symbol (a % 4 * 16 + b / 16) ∷ symbol (b % 16 * 4) ∷ []
b64encode (a ∷ b ∷ c ∷ rest) =
    symbol (a / 4)
    ∷ symbol (a % 4 * 16 + b / 16)
    ∷ symbol (b % 16 * 4 + c / 64)
    ∷ symbol (c % 64)
    ∷ b64encode rest

abbrev pub cons_value : Option ℕ → Option (List ℕ) → Option (List ℕ)
cons_value (some v) (some vs) = some (v ∷ vs)
cons_value _ _ = none

-- the values of the symbols
unfoldable pub values_of : List ℕ → Option (List ℕ)
values_of [] = some []
values_of (c ∷ cs) = cons_value (value_of c) (values_of cs)

abbrev pub cons_three : ℕ → ℕ → ℕ → Option (List ℕ) → Option (List ℕ)
cons_three a b c none = none
cons_three a b c (some rest) = some (a ∷ b ∷ c ∷ rest)

-- the bytes of the values with their padding; a single symbol at the end is the `binascii.Error`
unfoldable pub bytes_of : List ℕ → Option (List ℕ)
bytes_of [] = some []
bytes_of (v ∷ []) = none
bytes_of (v ∷ w ∷ []) = some ((v * 4 + w / 16) ∷ [])
bytes_of (v ∷ w ∷ x ∷ []) = some ((v * 4 + w / 16) ∷ (w % 16 * 16 + x / 4) ∷ [])
bytes_of (v ∷ w ∷ x ∷ y ∷ rest) =
    cons_three (v * 4 + w / 16) (w % 16 * 16 + x / 4) (x % 4 * 64 + y) (bytes_of rest)

-- `str(n)`, where the first number bounds the divisions by ten
unfoldable pub digits : ℕ → ℕ → List ℕ
digits zero n = (n % 10 + b'0') ∷ []
digits (suc fuel) n =
    let rest = digits fuel (n / 10) in
    if ltb n 10 then (n + b'0') ∷ [] else rest ++ (n % 10 + b'0') ∷ []

-- A safe integer has at most sixteen digits.
abbrev pub decimal : ℕ → List ℕ
decimal n = digits 15 n

abbrev pub is_digit : ℕ → Bool
is_digit c = leb b'0' c && leb c b'9'

unfoldable pub number_from : ℕ → List ℕ → ℕ
number_from n [] = n
number_from n (c ∷ cs) = number_from (n * 10 + (c - b'0')) cs

-- `int(text)`. What else Python reads as a number is not the text that `encode_cursor` makes of it.
abbrev pub parse_int : List ℕ → Option ℕ
parse_int [] = none
parse_int (c ∷ cs) = if every is_digit (c ∷ cs) then some (number_from 0 (c ∷ cs)) else none

abbrev pub push : ℕ → List (List ℕ) → List (List ℕ)
push c [] = (c ∷ []) ∷ []
push c (w ∷ ws) = (c ∷ w) ∷ ws

-- `material.split("\n")`
unfoldable pub split_lines : List ℕ → List (List ℕ)
split_lines [] = [] ∷ []
split_lines (c ∷ cs) = let rest = split_lines cs in if c == 10 then [] ∷ rest else push c rest

abbrev pub three_of : List (List ℕ) → Option (List ℕ × List ℕ × List ℕ)
three_of (a ∷ b ∷ c ∷ []) = some (a, b, c)
three_of _ = none

-- what follows "v1." in a text that `_CURSOR_RE` matches
abbrev pub encoded_of : List ℕ → Option (List ℕ)
encoded_of (a ∷ b ∷ c ∷ rest) =
    if (a == b'v' && (b == b'1' && c == b'.')) && (leb 1 (length rest) && leb (length rest) 600)
    then some rest
    else none
encoded_of _ = none

abbrev pub same_codes : List ℕ → List ℕ → Bool
same_codes [] [] = true
same_codes (x ∷ xs) (y ∷ ys) = x == y && same_codes xs ys
same_codes _ _ = false

-- `_IDENTIFIER_RE`
abbrev pub is_name : List ℕ → Bool
is_name s = leb (length s) 128 && matches_identifier s

abbrev pub is_cursor : EventCursor → Bool
is_cursor c =
    (is_name c.run_id && is_name c.event_id)
    && (leb 1 c.sequence && leb c.sequence max_safe_integer)

abbrev pub material : EventCursor → List ℕ
material c = c.run_id ++ (10 ∷ (decimal c.sequence ++ (10 ∷ c.event_id)))

unfoldable pub encode_cursor : EventCursor → Result CursorError (List ℕ)
encode_cursor c = do
  require (is_cursor c) invalid_event_cursor
  ok (b'v' ∷ b'1' ∷ b'.' ∷ b64encode (material c))

abbrev pub is_ascii : ℕ → Bool
is_ascii c = ltb c 128

unfoldable pub decode_cursor : List ℕ → Result CursorError EventCursor
decode_cursor value = do
  require (leb (length value) 605) invalid_event_cursor
  encoded ← or_raise (encoded_of value) invalid_event_cursor
  values ← or_raise (values_of encoded) invalid_event_cursor
  bytes ← or_raise (bytes_of values) invalid_event_cursor
  require (every is_ascii bytes) invalid_event_cursor
  fields ← or_raise (three_of (split_lines bytes)) invalid_event_cursor
  sequence ← or_raise (parse_int fields.1) invalid_event_cursor
  let cursor : EventCursor = record { run_id = fields.0; sequence = sequence; event_id = fields.2 }
  again ← encode_cursor cursor
  require (same_codes again value) invalid_event_cursor
  ok cursor
