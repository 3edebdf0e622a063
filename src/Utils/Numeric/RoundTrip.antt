-- ===== src/Utils/Numeric/RoundTrip.antt =====
-- utils/numeric_util.cc: `StrToInt64` reads back what `std::to_string` prints.
use sim_search.Prelude.{
  ℕ, zero, suc, ◌+◌, ◌/◌, ◌%◌, ◌<◌, ◌≡◌, refl, sym, ap, ◌∙◌, Bool, true, false, [], ◌∷◌, ◌++◌, leb,
  is_empty, if◌then◌else◌, arith, Bool-cases, inl, inr, ltb, Str, digits_onto, to_string,
}
use sim_search.Prelude.Int.{ℤ, pos, negsuc}
use sim_search.Utils.Numeric.{
  Stoll, out_of_range, not_int64, int64_overflow, parsed, is_space, is_digit, read_digits,
  starts_with_digit, int64_limit, with_sign, unsigned_part, signed_part, stoll, str_to_int64,
  int64_to_string,
}

-- Digits put before a text are read as their number, and the text goes on from it.
read_digits-digits_onto :
    (fuel n : ℕ) (rest : Str)
    → n < fuel
    → read_digits 0 (digits_onto fuel n rest) ≡ read_digits n rest
unfolding read_digits digits_onto
read_digits-digits_onto zero n rest h = absurd (omega arith)
read_digits-digits_onto (suc fuel) n rest h = elim (Bool-cases (ltb n 10)) [
  | inl e ↦ ground arith
  | inr e ↦
      rw (e, digits_onto)
        (read_digits-digits_onto fuel (n / 10) ((48 + n % 10) ∷ rest) (ground arith) ∙ ground arith)
]

-- What is printed begins with a digit.
abbrev BeginsWithDigit : Str → Type 0
BeginsWithDigit s = (c : ℕ) × (t : Str) × (s ≡ c ∷ t) × (is_digit c ≡ true)

digits_onto-BeginsWithDigit :
    (fuel n : ℕ) (rest : Str) → n < fuel → BeginsWithDigit (digits_onto fuel n rest)
unfolding digits_onto is_digit
digits_onto-BeginsWithDigit zero n rest h = absurd (omega arith)
digits_onto-BeginsWithDigit (suc fuel) n rest h = elim (Bool-cases (ltb n 10)) [
  | inl e ↦ (48 + n, rest, rw (e, digits_onto), ground arith)
  | inr e ↦
      rw (e, digits_onto)
        (digits_onto-BeginsWithDigit fuel (n / 10) ((48 + n % 10) ∷ rest) (ground arith))
]

digits_onto-append :
    (fuel n : ℕ) (s rest : Str) → digits_onto fuel n s ++ rest ≡ digits_onto fuel n (s ++ rest)
unfolding digits_onto
digits_onto-append zero n s rest = refl
digits_onto-append (suc fuel) n s rest = elim (Bool-cases (ltb n 10)) [
  | inl e ↦ rw (e, digits_onto) refl
  | inr e ↦ rw (e, digits_onto) (digits_onto-append fuel (n / 10) ((48 + n % 10) ∷ s) rest)
]

to_string-append : (n : ℕ) (rest : Str) → to_string n ++ rest ≡ digits_onto (n + 1) n rest
unfolding to_string
to_string-append n rest = digits_onto-append (n + 1) n [] rest

-- The digits end where the text goes on with no digit.
read_digits-end :
    (n : ℕ) (rest : Str) → starts_with_digit rest ≡ false → read_digits n rest ≡ (n, rest)
unfolding read_digits starts_with_digit
read_digits-end n [] h = refl
read_digits-end n (c ∷ rest) h = rw (h, read_digits) refl

-- A text of digits after the sign, and what stands behind them.
unsigned_part-digits :
    (negative : Bool) (n : ℕ) (rest : Str)
    → starts_with_digit rest ≡ false
    → unsigned_part negative (digits_onto (n + 1) n rest) ≡ with_sign negative n rest
unfolding unsigned_part starts_with_digit
unsigned_part-digits negative n rest h =
    let (c, t, e, d) = digits_onto-BeginsWithDigit (n + 1) n rest (omega arith) in
    rw (read_digits-digits_onto (n + 1) n rest (omega arith), read_digits-end n rest h, e, d) refl

-- No sign and no white space stand before a digit.
stoll-digit : (c : ℕ) (t : Str) → is_digit c ≡ true → stoll (c ∷ t) ≡ unsigned_part false (c ∷ t)
unfolding stoll signed_part is_space is_digit
stoll-digit c t h = ground arith

stoll-to_string :
    (n : ℕ) (rest : Str)
    → starts_with_digit rest ≡ false
    → stoll (to_string n ++ rest) ≡ with_sign false n rest
stoll-to_string n rest h =
    let (c, t, e, d) = digits_onto-BeginsWithDigit (n + 1) n rest (omega arith) in
    ap stoll (to_string-append n rest ∙ e)
    ∙ stoll-digit c t d
    ∙ ap (unsigned_part false) (sym e)
    ∙ unsigned_part-digits false n rest h

stoll-minus :
    (n : ℕ) (rest : Str)
    → starts_with_digit rest ≡ false
    → stoll (b'-' ∷ to_string n ++ rest) ≡ with_sign true n rest
unfolding stoll signed_part is_space
stoll-minus n rest h =
    ap (unsigned_part true) (to_string-append n rest) ∙ unsigned_part-digits true n rest h

-- Whether an int64_t holds a number.
abbrev pub in_int64 : ℤ → Bool
in_int64 (pos n) = ltb n int64_limit
in_int64 (negsuc n) = leb (suc n) int64_limit

-- The outcome of `std::stoll` on a number and what stands behind it.
abbrev outcome : ℤ → Str → Stoll
outcome z rest = if in_int64 z then parsed z rest else out_of_range

stoll-int64_to_string :
    (z : ℤ) (rest : Str)
    → starts_with_digit rest ≡ false
    → stoll (int64_to_string z ++ rest) ≡ outcome z rest
unfolding int64_to_string with_sign
stoll-int64_to_string (pos n) rest h = stoll-to_string n rest h
stoll-int64_to_string (negsuc n) rest h = stoll-minus (suc n) rest h ∙ ground arith

-- What `StrToInt64` makes of the text of a number, with a text behind it that does not begin with a
-- digit: a number that an int64_t holds is the result, with no message if nothing stands behind it and
-- with the message of an invalid text otherwise; any other number gives the message of an overflow,
-- and the result stays as it was.
pub str_to_int64-int64_to_string :
    (z result : ℤ) (rest : Str)
    → starts_with_digit rest ≡ false
    → str_to_int64 (int64_to_string z ++ rest) result ≡ (
        if in_int64 z
        then ((if is_empty rest then [] else not_int64), z)
        else (int64_overflow, result))
unfolding str_to_int64
str_to_int64-int64_to_string z result rest h =
    let read = stoll-int64_to_string z rest h in
    elim (Bool-cases (in_int64 z)) [
      | inr e ↦ rw (read, e, str_to_int64) refl
      | inl e ↦ elim (Bool-cases (is_empty rest)) [
        | inl f ↦ rw (read, e, f, str_to_int64) refl
        | inr f ↦ rw (read, e, f, str_to_int64) refl
      ]
    ]
