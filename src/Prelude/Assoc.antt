-- ===== src/Prelude/Assoc.antt =====
-- `std::map`: an association list in the order of the keys.
use sim_search.Prelude.Tests.{if◌then◌else◌}
use sim_search.Prelude.Keys.{Key}
use mathlib.Core.Path.{◌≡◌, refl}
use mathlib.Core.Bool.{Bool, true, false}
use mathlib.Core.Option.{Option, none, some}
use mathlib.Core.List.{List, [], ◌∷◌}
use native.Mathlib.Omega.{arith}

module _ {ℓ κ} {K : Type ℓ} {V : Type κ} ⦃o : Key K⦄ where
  -- `find`: the value of a key.
  unfoldable pub get? : List (K × V) → K → Option V
  get? [] k = none
  get? ((j, v) ∷ m) k = if o.beq j k then some v else get? m k

  -- `m[k] = v`.
  unfoldable pub put : List (K × V) → K → V → List (K × V)
  put [] k v = (k, v) ∷ []
  put ((j, w) ∷ m) k v =
      if o.beq j k
      then (k, v) ∷ m
      else if o.below k j
      then (k, v) ∷ (j, w) ∷ m
      else (j, w) ∷ put m k v

  -- `count(k) > 0`.
  unfoldable pub has : List (K × V) → K → Bool
  has [] k = false
  has ((j, v) ∷ m) k = if o.beq j k then true else has m k

  -- `erase(k)`.
  unfoldable pub erase : List (K × V) → K → List (K × V)
  erase [] k = []
  erase ((j, v) ∷ m) k = if o.beq j k then erase m k else (j, v) ∷ erase m k

  pub get?-erase : (m : List (K × V)) (k : K) → get? (erase m k) k ≡ none
  unfolding get? erase
  get?-erase [] k = refl
  get?-erase ((j, v) ∷ m) k = ground (arith, get?-erase m k)

  pub get?-put :
      (m : List (K × V)) (k : K) (v : V) (j : K)
      → get? (put m k v) j ≡ (if o.beq k j then some v else get? m j)
  unfolding get? put
  get?-put [] k v j = refl
  get?-put ((i, w) ∷ m) k v j =
      ground (arith, o.beq_iff i k, o.beq_iff k j, o.beq_iff i j, get?-put m k v j)

  pub has-get? :
      (m : List (K × V)) (k : K) → has m k ≡ (elim (get? m k) [ none ↦ false | some v ↦ true ])
  unfolding get? has
  has-get? [] k = refl
  has-get? ((j, v) ∷ m) k = ground (arith, has-get? m k)

  pub has-put :
      (m : List (K × V)) (k : K) (v : V) (j : K)
      → has (put m k v) j ≡ (if o.beq k j then true else has m j)
  unfolding has put
  has-put [] k v j = refl
  has-put ((i, w) ∷ m) k v j =
      ground (arith, o.beq_iff i k, o.beq_iff k j, o.beq_iff i j, has-put m k v j)
