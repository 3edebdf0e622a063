-- ===== src/Clients/Etcd/Prefix.antt =====
-- clients/etcd_client.cc, GetRangeEnd: the range of keys from a prefix to its range end.
use sim_search.Prelude.{
  ℕ, ◌+◌, ◌%◌, ◌<◌, ◌≡◌, refl, Bool, true, false, not, ◌&&◌, [], ◌∷◌, ◌==◌, Str, str_lt, arith,
}
use sim_search.Clients.Etcd.{get_range_end}

-- Whether a key begins with a prefix.
abbrev pub starts_with : Str → Str → Bool
starts_with [] key = true
starts_with (c ∷ s) [] = false
starts_with (c ∷ s) (d ∷ key) = (c == d) && starts_with s key

-- The last byte of a prefix, as the source adds one to it, does not wrap.
abbrev pub EndsBelow : Str → Type 0
EndsBelow [] = ⊥
EndsBelow (c ∷ []) = c < 255
EndsBelow (c ∷ d ∷ s) = EndsBelow (d ∷ s)

byte :
    (c d : ℕ)
    → c < 255
    → (not (str_lt (d ∷ []) (c ∷ [])) && str_lt (d ∷ []) (((c + 1) % 256) ∷ []))
      ≡ ((c == d) && true)
unfolding str_lt
byte c d h = let e : (c + 1) % 256 ≡ c + 1 = omega (arith, h) in rw e (ground arith)

-- For a prefix that has a last byte, below 255, the keys from the prefix up to its range end, in the
-- order of their bytes, are exactly those that begin with the prefix.
pub get_range_end-starts_with :
    (prefix key : Str)
    → EndsBelow prefix
    → (not (str_lt key prefix) && str_lt key (get_range_end prefix)) ≡ starts_with prefix key
unfolding get_range_end str_lt
get_range_end-starts_with [] key h = absurd h
get_range_end-starts_with (c ∷ []) [] h = refl
get_range_end-starts_with (c ∷ []) (d ∷ []) h = byte c d h
get_range_end-starts_with (c ∷ []) (d ∷ e ∷ key) h = byte c d h
get_range_end-starts_with (c ∷ c2 ∷ s) [] h = refl
get_range_end-starts_with (c ∷ c2 ∷ s) (d ∷ key) h =
    ground (arith, get_range_end-starts_with (c2 ∷ s) key h)
