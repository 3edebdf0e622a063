-- ===== src/Prelude/Bytes.antt =====
-- Numbers in memory: `k` bytes, the lowest first.
use Prim.Native.Nat.{ℕ, zero, suc, ◌+◌, ◌*◌, ◌/◌, ◌%◌, ◌^◌, ◌<◌}
use mathlib.Core.Path.{◌≡◌, refl, ap}
use mathlib.Core.List.{List, [], ◌∷◌, ◌++◌}
use native.Mathlib.Omega.{arith}
use native.Mathlib.Nat.{pow-suc}
use sim_search.Prelude.Lists.{length, length-append, take, drop}
use sim_search.Prelude.Keys.{Str}

unfoldable pub le_bytes : ℕ → ℕ → Str
le_bytes zero n = []
le_bytes (suc k) n = (n % 256) ∷ le_bytes k (n / 256)

unfoldable pub of_le_bytes : Str → ℕ
of_le_bytes [] = 0
of_le_bytes (b ∷ s) = b + 256 * of_le_bytes s

pub length-le_bytes : (k n : ℕ) → length (le_bytes k n) ≡ k
unfolding le_bytes
length-le_bytes zero n = refl
length-le_bytes (suc k) n = ap suc (length-le_bytes k (n / 256))

div-lt-pow : (k n : ℕ) → n < 256 ^ suc k → n / 256 < 256 ^ k
div-lt-pow k n h = omega (arith, pow-suc 256 k)

pub of_le_bytes-le_bytes : (k n : ℕ) → n < 256 ^ k → of_le_bytes (le_bytes k n) ≡ n
unfolding le_bytes of_le_bytes
of_le_bytes-le_bytes zero n h = omega arith
of_le_bytes-le_bytes (suc k) n h =
    omega (arith, of_le_bytes-le_bytes k (n / 256) (div-lt-pow k n h))

module _ {ℓ} {A : Type ℓ} where
  pub take-append : (xs ys : List A) (n : ℕ) → length xs ≡ n → take n (xs ++ ys) ≡ xs
  take-append [] ys zero h = refl
  take-append [] ys (suc n) h = absurd (omega arith)
  take-append (x ∷ xs) ys zero h = absurd (omega arith)
  take-append (x ∷ xs) ys (suc n) h = ap (◌∷◌ x) (take-append xs ys n (omega arith))

  pub drop-append : (xs ys : List A) (n : ℕ) → length xs ≡ n → drop n (xs ++ ys) ≡ ys
  drop-append [] ys zero h = refl
  drop-append [] ys (suc n) h = absurd (omega arith)
  drop-append (x ∷ xs) ys zero h = absurd (omega arith)
  drop-append (x ∷ xs) ys (suc n) h = drop-append xs ys n (omega arith)

-- The same, the highest byte first.
unfoldable pub be_bytes : ℕ → ℕ → Str
be_bytes zero n = []
be_bytes (suc k) n = be_bytes k (n / 256) ++ (n % 256) ∷ []

unfoldable pub of_be_bytes : ℕ → Str → ℕ
of_be_bytes acc [] = acc
of_be_bytes acc (b ∷ s) = of_be_bytes (acc * 256 + b) s

pub length-be_bytes : (k n : ℕ) → length (be_bytes k n) ≡ k
unfolding be_bytes
length-be_bytes zero n = refl
length-be_bytes (suc k) n =
    omega (arith, length-append (be_bytes k (n / 256)) (n % 256 ∷ []), length-be_bytes k (n / 256))

of_be_bytes-append :
    (acc : ℕ) (s : Str) (b : ℕ) → of_be_bytes acc (s ++ b ∷ []) ≡ of_be_bytes acc s * 256 + b
unfolding of_be_bytes
of_be_bytes-append acc [] b = refl
of_be_bytes-append acc (c ∷ s) b = of_be_bytes-append (acc * 256 + c) s b

pub of_be_bytes-be_bytes : (k n : ℕ) → n < 256 ^ k → of_be_bytes 0 (be_bytes k n) ≡ n
unfolding be_bytes of_be_bytes
of_be_bytes-be_bytes zero n h = omega arith
of_be_bytes-be_bytes (suc k) n h = omega (
  arith,
  of_be_bytes-append 0 (be_bytes k (n / 256)) (n % 256),
  of_be_bytes-be_bytes k (n / 256) (div-lt-pow k n h),
)
