-- ===== src/Utils/Numeric.antt =====
-- utils/numeric_util.cc, StrToInt64, and `std::stoll` as it uses it: white space, a sign, and the
-- longest run of digits.
pub mod RoundTrip
use sim_search.Prelude.{
  ℕ, ◌+◌, ◌-◌, ◌*◌, Bool, true, false, ◌&&◌, ◌||◌, List, [], ◌∷◌, ◌++◌, if◌then◌else◌, ltb, leb,
  ◌==◌, is_empty, Str, codes, to_string, suc,
}
use sim_search.Prelude.Int.{ℤ, pos, negsuc}

pub data Stoll : Type 0 where
  invalid_argument out_of_range : Stoll
  -- The value, and what is left of the text.
  parsed : ℤ → Str → Stoll

unfoldable pub is_space : ℕ → Bool
is_space c = c == 32 || (leb 9 c && leb c 13)

unfoldable pub is_digit : ℕ → Bool
is_digit c = leb 48 c && leb c 57

-- The number that the leading digits make behind `acc`, and the rest.
unfoldable pub read_digits : ℕ → Str → ℕ × Str
unfolding is_digit
read_digits acc [] = (acc, [])
read_digits acc (c ∷ s) =
    let more = read_digits (acc * 10 + (c - 48)) s in if is_digit c then more else (acc, c ∷ s)

unfoldable pub starts_with_digit : Str → Bool
unfolding is_digit
starts_with_digit [] = false
starts_with_digit (c ∷ s) = is_digit c

abbrev pub int64_limit : ℕ
int64_limit = 0x8000_0000_0000_0000

-- The value of `n` with a sign.
unfoldable pub with_sign : Bool → ℕ → Str → Stoll
with_sign true n rest =
    if n == 0
    then parsed (pos 0) rest
    else if leb n int64_limit
    then parsed (negsuc (n - 1)) rest
    else out_of_range
with_sign false n rest = if ltb n int64_limit then parsed (pos n) rest else out_of_range

unfoldable pub unsigned_part : Bool → Str → Stoll
unfolding starts_with_digit read_digits with_sign
unsigned_part negative s =
    let (n, rest) = read_digits 0 s in
    if starts_with_digit s then with_sign negative n rest else invalid_argument

unfoldable pub signed_part : Str → Stoll
unfolding unsigned_part
signed_part [] = invalid_argument
signed_part (c ∷ s) =
    if c == b'-'
    then unsigned_part true s
    else if c == b'+'
    then unsigned_part false s
    else unsigned_part false (c ∷ s)

unfoldable pub stoll : Str → Stoll
unfolding is_space signed_part
stoll [] = invalid_argument
stoll (c ∷ s) = let rest = stoll s in if is_space c then rest else signed_part (c ∷ s)

unfoldable pub not_int64 : Str
unfolding codes
not_int64 = codes "Invalid input: not a valid int64_t string"

unfoldable pub int64_overflow : Str
unfolding codes
int64_overflow = codes "Out of range: int64_t overflow"

-- The message, and `result` after the call.
unfoldable pub str_to_int64 : Str → ℤ → Str × ℤ
unfolding stoll
str_to_int64 str result = elim (stoll str) [
  | invalid_argument ↦ (not_int64, result)
  | out_of_range ↦ (int64_overflow, result)
  | parsed value rest ↦ if is_empty rest then ([], value) else (not_int64, value)
]

-- `std::to_string` of an int64_t.
unfoldable pub int64_to_string : ℤ → Str
unfolding to_string
int64_to_string (pos n) = to_string n
int64_to_string (negsuc n) = b'-' ∷ to_string (suc n)
