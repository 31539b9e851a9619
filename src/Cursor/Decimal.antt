-- ===== src/Cursor/Decimal.antt =====
-- The digits of a sequence in services/control-plane/src/chaosagent_control_plane/cursor.py.
use chaosagent.Base.{
  ℕ, suc, zero, ◌+◌, ◌-◌, ◌*◌, ◌/◌, ◌%◌, ◌≤◌, ◌<◌, ◌≡◌, refl, ap, ◌∙◌, Bool, true, some, List, [],
  ◌∷◌, ◌++◌, ltb, length, nat_eq, arith, Bool-cases, inl, inr,
}
use chaosagent.Events.{max_safe_integer}
use chaosagent.Store.Identifiers.{every}
use chaosagent.Cursor.{digits, decimal, is_digit, number_from, parse_int}

-- the first number that has one digit more than the divisions allow
unfoldable pub limit : ℕ → ℕ
limit zero = 10
limit (suc fuel) = 10 * limit fuel

pub every-append :
    (p : ℕ → Bool) (xs ys : List ℕ)
    → every p xs ≡ true
    → every p ys ≡ true
    → every p (xs ++ ys) ≡ true
every-append p [] ys hx hy = hy
every-append p (x ∷ xs) ys hx hy = let rest = every-append p xs ys in ground (arith, rest)

number_from-append :
    (n d : ℕ) (xs : List ℕ) → number_from n (xs ++ d ∷ []) ≡ number_from n xs * 10 + (d - b'0')
unfolding number_from
number_from-append n d [] = refl
number_from-append n d (x ∷ xs) = number_from-append (n * 10 + (x - b'0')) d xs

pub length-append_one : (xs : List ℕ) (d : ℕ) → length (xs ++ d ∷ []) ≡ length xs + 1
length-append_one [] d = omega arith
length-append_one (x ∷ xs) d = let rest = length-append_one xs d in omega arith

pub every_digit : (fuel n : ℕ) → every is_digit (digits fuel n) ≡ true
unfolding digits
every_digit zero n = ground arith
every_digit (suc fuel) n = elim (Bool-cases (ltb n 10)) [
  | inl small ↦ rw (small) (ground arith)
  | inr large ↦ rw (large) (
      every-append is_digit (digits fuel (n / 10)) ((n % 10 + b'0') ∷ [])
        (every_digit fuel (n / 10)) (ground arith))
]

-- Enough divisions give all the digits of a number.
pub number_from-digits : (fuel n : ℕ) → n < limit fuel → number_from 0 (digits fuel n) ≡ n
unfolding digits number_from limit
number_from-digits zero n below = omega arith
number_from-digits (suc fuel) n below = elim (Bool-cases (ltb n 10)) [
  | inl small ↦ rw (small) (omega arith)
  | inr large ↦
      let l = limit fuel in
      let rest = number_from-digits fuel (n / 10) (omega arith) in
      rw (large) (
        number_from-append 0 (n % 10 + b'0') (digits fuel (n / 10))
        ∙ ap (λ m. m * 10 + (n % 10 + b'0' - b'0')) rest
        ∙ omega arith)
]

pub length-digits : (fuel n : ℕ) → length (digits fuel n) ≤ fuel + 1
unfolding digits
length-digits zero n = omega arith
length-digits (suc fuel) n = elim (Bool-cases (ltb n 10)) [
  | inl small ↦ rw (small) (omega arith)
  | inr large ↦
      let rest = length-digits fuel (n / 10) in
      let one_more = length-append_one (digits fuel (n / 10)) (n % 10 + b'0') in
      rw (large) (omega arith)
]

pub safe-limit : (n : ℕ) → n ≤ max_safe_integer → n < limit 15
unfolding limit
safe-limit n safe = omega arith

nonempty : (fuel n : ℕ) → 1 ≤ length (digits fuel n)
unfolding digits
nonempty zero n = omega arith
nonempty (suc fuel) n = elim (Bool-cases (ltb n 10)) [
  | inl small ↦ rw (small) (omega arith)
  | inr large ↦
      let one_more = length-append_one (digits fuel (n / 10)) (n % 10 + b'0') in
      rw (large) (omega arith)
]

parsed :
    (cs : List ℕ)
    → 1 ≤ length cs
    → every is_digit cs ≡ true
    → parse_int cs ≡ some (number_from 0 cs)
parsed [] some_digit all = absurd (omega arith)
parsed (c ∷ cs) some_digit all = rw (all) refl

-- A text of digits is read as the number that it is.
pub parse_int-decimal : (n : ℕ) → n ≤ max_safe_integer → parse_int (decimal n) ≡ some n
parse_int-decimal n safe =
    parsed (decimal n) (nonempty 15 n) (every_digit 15 n)
    ∙ ap some (number_from-digits 15 n (safe-limit n safe))
