-- ===== src/Dto/Gamma/Arrays.antt =====
-- common/dto.cc: an array of strings as the one text that the engine keeps.
use sim_search.Prelude.{
  ℕ, ◌≡◌, ◌≢◌, refl, ap, ◌∙◌, false, List, [], ◌∷◌, ◌++◌, arith, is_empty, Str,
}
use sim_search.Dto.Gamma.{pop_back, with_commas, array_value, cons_to_first, split_commas}

abbrev pub HasNoComma : Str → Type 0
HasNoComma [] = Unit
HasNoComma (c ∷ s) = (c ≢ 44) × HasNoComma s

-- Items without a comma, of which the last is not empty.
abbrev pub AreSeparable : List Str → Type 0
AreSeparable [] = Unit
AreSeparable (item ∷ []) = HasNoComma item × (is_empty item ≡ false)
AreSeparable (item ∷ items) = HasNoComma item × AreSeparable items

split_commas-append :
    (item s : Str) → HasNoComma item → split_commas (item ++ 44 ∷ s) ≡ item ∷ split_commas s
unfolding split_commas cons_to_first
split_commas-append [] s h = refl
split_commas-append (c ∷ item) s (ne, h) = rw (split_commas-append item s h) (ground (arith, ne))

split_commas-item :
    (c : ℕ) (item : Str) → HasNoComma (c ∷ item) → split_commas (c ∷ item) ≡ (c ∷ item) ∷ []
unfolding split_commas cons_to_first
split_commas-item c [] (ne, h) = ground (arith, ne)
split_commas-item c (d ∷ item) (ne, h) = rw (split_commas-item d item h) (ground (arith, ne))

pop_back-append : (s : Str) (c : ℕ) (t : Str) → pop_back (s ++ c ∷ t) ≡ s ++ pop_back (c ∷ t)
unfolding pop_back
pop_back-append [] c t = refl
pop_back-append (b ∷ []) c t = refl
pop_back-append (b ∷ b' ∷ s) c t = ap (◌∷◌ b) (pop_back-append (b' ∷ s) c t)

split-pop_back-append :
    (item s : Str)
    → HasNoComma item
    → is_empty s ≡ false
    → split_commas (pop_back (item ++ 44 ∷ s)) ≡ item ∷ split_commas (pop_back s)
unfolding pop_back
split-pop_back-append item [] h ne = cc
split-pop_back-append item (c ∷ s) h ne =
    rw (pop_back-append item 44 (c ∷ s)) (split_commas-append item (pop_back (c ∷ s)) h)

with_commas-ne : (item : Str) (items : List Str) → is_empty (with_commas (item ∷ items)) ≡ false
unfolding with_commas
with_commas-ne [] items = refl
with_commas-ne (c ∷ item) items = refl

append-pop_back : (item : Str) → pop_back (item ++ 44 ∷ []) ≡ item
unfolding pop_back
append-pop_back [] = refl
append-pop_back (c ∷ []) = refl
append-pop_back (c ∷ d ∷ item) = ap (◌∷◌ c) (append-pop_back (d ∷ item))

-- GammaDocToPbDoc reads an array that PbDocToGammaDoc wrote as it was, where no item has a comma and
-- the last one is not empty.
pub split_commas-array_value :
    (items : List Str) → AreSeparable items → split_commas (array_value items) ≡ items
unfolding array_value with_commas split_commas pop_back
split_commas-array_value [] h = refl
split_commas-array_value ([] ∷ []) (h, ne) = cc
split_commas-array_value ((c ∷ item) ∷ []) (h, ne) =
    rw (append-pop_back (c ∷ item)) (split_commas-item c item h)
split_commas-array_value (item ∷ next ∷ items) (h, hs) =
    split-pop_back-append item (with_commas (next ∷ items)) h (with_commas-ne next items)
    ∙ ap (◌∷◌ item) (split_commas-array_value (next ∷ items) hs)
