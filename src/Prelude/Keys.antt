-- ===== src/Prelude/Keys.antt =====
-- The order of keys in a `std::map`, and the keys that the program uses.
use Prim.Native.Nat.{ℕ}
use mathlib.Core.Path.{◌≡◌, refl}
use mathlib.Core.Logic.{◌↔◌}
use mathlib.Core.Bool.{Bool, true, false}
use mathlib.Core.List.{List, [], ◌∷◌}
use native.Mathlib.Omega.{arith}
use sim_search.Prelude.Tests.{ltb, ◌==◌, ==_iff, if◌then◌else◌}

pub record Key {ℓ} (K : Type ℓ) : Type ℓ where
  pub beq : K → K → Bool
  pub below : K → K → Bool
  pub beq_iff : (a b : K) → (beq a b ≡ true) ↔ (a ≡ b)
  pub below_irrefl : (a : K) → below a a ≡ false
  pub below_trans : (a b c : K) → below a b ≡ true → below b c ≡ true → below a c ≡ true
  pub below_total : (a b : K) → beq a b ≡ false → below a b ≡ false → below b a ≡ true

pub below_irrefl_nat : (a : ℕ) → ltb a a ≡ false
below_irrefl_nat a = ground arith

pub below_trans_nat : (a b c : ℕ) → ltb a b ≡ true → ltb b c ≡ true → ltb a c ≡ true
below_trans_nat a b c p q = ground arith

pub below_total_nat : (a b : ℕ) → (a == b) ≡ false → ltb a b ≡ false → ltb b a ≡ true
below_total_nat a b p q = ground arith

instance abbrev pub nat_key : Key ℕ
nat_key = record {
  beq = ◌==◌;
  below = ltb;
  beq_iff = ==_iff;
  below_irrefl = below_irrefl_nat;
  below_trans = below_trans_nat;
  below_total = below_total_nat;
}

-- A text is the list of its bytes.
abbrev pub Str : Type 0
Str = List ℕ

-- `operator==` of `std::string`.
unfoldable pub str_eq : Str → Str → Bool
str_eq [] [] = true
str_eq [] (d ∷ t) = false
str_eq (c ∷ s) [] = false
str_eq (c ∷ s) (d ∷ t) = if c == d then str_eq s t else false

-- `operator<` of `std::string`.
unfoldable pub str_lt : Str → Str → Bool
str_lt [] [] = false
str_lt [] (d ∷ t) = true
str_lt (c ∷ s) [] = false
str_lt (c ∷ s) (d ∷ t) = if ltb c d then true else if c == d then str_lt s t else false

pub str_eq_iff : (s t : Str) → (str_eq s t ≡ true) ↔ (s ≡ t)
unfolding str_eq
str_eq_iff [] [] = ground arith
str_eq_iff [] (d ∷ t) = ground arith
str_eq_iff (c ∷ s) [] = ground arith
str_eq_iff (c ∷ s) (d ∷ t) = ground (arith, str_eq_iff s t)

pub str_eq_refl : (s : Str) → str_eq s s ≡ true
str_eq_refl s = (str_eq_iff s s).1 refl

pub str_lt_irrefl : (s : Str) → str_lt s s ≡ false
unfolding str_lt
str_lt_irrefl [] = refl
str_lt_irrefl (c ∷ s) = ground (arith, str_lt_irrefl s)

pub str_lt_trans : (r s t : Str) → str_lt r s ≡ true → str_lt s t ≡ true → str_lt r t ≡ true
unfolding str_lt
str_lt_trans [] [] t p q = ground arith
str_lt_trans [] (c ∷ s) [] p q = ground arith
str_lt_trans [] (c ∷ s) (d ∷ t) p q = refl
str_lt_trans (b ∷ r) [] t p q = ground arith
str_lt_trans (b ∷ r) (c ∷ s) [] p q = ground arith
str_lt_trans (b ∷ r) (c ∷ s) (d ∷ t) p q = ground (arith, str_lt_trans r s t)

pub str_lt_total : (s t : Str) → str_eq s t ≡ false → str_lt s t ≡ false → str_lt t s ≡ true
unfolding str_eq str_lt
str_lt_total [] [] p q = ground arith
str_lt_total [] (d ∷ t) p q = ground arith
str_lt_total (c ∷ s) [] p q = refl
str_lt_total (c ∷ s) (d ∷ t) p q = ground (arith, str_lt_total s t)

instance abbrev pub str_key : Key Str
str_key = record {
  beq = str_eq;
  below = str_lt;
  beq_iff = str_eq_iff;
  below_irrefl = str_lt_irrefl;
  below_trans = str_lt_trans;
  below_total = str_lt_total;
}
