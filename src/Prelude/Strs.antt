-- ===== src/Prelude/Strs.antt =====
-- Texts as lists of bytes: literals, and `std::to_string`.
use Prim.Native.Nat.{ℕ, zero, suc, ◌+◌, ◌/◌, ◌%◌}
use Prim.Native.Char.{code}
use Prim.Native.String.{String}
use mathlib.Core.Path.{◌≡◌, refl}
use mathlib.Core.Bool.{false}
use mathlib.Core.List.{List, [], ◌∷◌, ◌++◌}
use sim_search.Prelude.Tests.{ltb, if◌then◌else◌}
use sim_search.Prelude.Lists.{is_empty}
use sim_search.Prelude.Keys.{Str}

-- The bytes of a literal, which is ASCII but for one message; there a character stands for its bytes.
unfoldable pub codes : String → Str
codes String.[] = []
codes (String.◌∷◌ c s) = code c ∷ codes s

-- The decimal digits of `n` before `rest`, most significant first.
unfoldable pub digits_onto : ℕ → ℕ → Str → Str
digits_onto zero n rest = rest
digits_onto (suc fuel) n rest =
    let more = digits_onto fuel (n / 10) ((48 + n % 10) ∷ rest) in
    if ltb n 10 then (48 + n) ∷ rest else more

-- `std::to_string` of a number that is not negative; `n + 1` rounds are enough for its digits.
unfoldable pub to_string : ℕ → Str
unfolding digits_onto
to_string n = digits_onto (n + 1) n []

pub is_empty-append {ℓ} :
    {A : Type ℓ} (xs ys : List A) → is_empty xs ≡ false → is_empty (xs ++ ys) ≡ false
is_empty-append [] ys h = cc
is_empty-append (x ∷ xs) ys h = refl
