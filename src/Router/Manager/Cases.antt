-- ===== src/Router/Manager/Cases.antt =====
-- The branches of `SpaceManager::AddSpace`, for the proofs about all of them.
use sim_search.Prelude.{
  ℕ, zero, suc, ◌<◌, ◌≡◌, true, false, List, [], ◌∷◌, Option, none, some, arith, Bool-cases,
  Option-cases, inl, inr, leb, length, get_or, Str,
}
use sim_search.Prelude.Int.{is_negative}
use sim_search.Utils.IndexMap
use sim_search.Common.Messages.{Space}
use sim_search.External.Codec.{Codec}
use sim_search.External.FileSystem.{FileSystem}
use sim_search.Router.Manager.{
  Connector, Router, free_slot, new_key, connected, reuse_slot, append_slot, add_space,
  already_exist, too_many,
}

free_slot-free :
    {Conn : Type 0} (conns : List (Option Conn)) (i : ℕ)
    → free_slot conns ≡ some i
    → (i < length conns) × (get_or conns i none ≡ none)
unfolding free_slot
free_slot-free [] i h = cc
free_slot-free (none ∷ conns) zero h = ground arith
free_slot-free (none ∷ conns) (suc i) h = ground arith
free_slot-free (some c ∷ conns) zero h = ground arith
free_slot-free (some c ∷ conns) (suc i) h = ground (arith, free_slot-free conns i)

leb-false : (a b : ℕ) → leb a b ≡ false → b < a
leb-false a b h = ground arith

module _ {W : Type 0} (hash : Str → ℕ) (fs : FileSystem W) (json : Codec (List Space))
    (connector : Connector W) where
  open connector use {Conn}

  pub add_space_cases {ℓ} :
      (P : Str × Router Conn W → Type ℓ) (r : Router Conn W) (pb_space : Space)
      → (is_negative (IndexMap.get hash r.space_idx_mp (new_key hash fs json connector r pb_space))
            ≡ false
          → P (
            already_exist (new_key hash fs json connector r pb_space),
            connected hash fs json connector r pb_space,
          ))
      → ((i : ℕ)
          → is_negative
              (IndexMap.get hash r.space_idx_mp (new_key hash fs json connector r pb_space))
            ≡ true
          → (i < length r.spaces_conn) × (get_or r.spaces_conn i none ≡ none)
          → P ([], reuse_slot hash fs json connector r pb_space i))
      → (free_slot r.spaces_conn ≡ none
          → leb r.capacity (length r.spaces_conn) ≡ true
          → P (too_many r.capacity, connected hash fs json connector r pb_space))
      → (is_negative (IndexMap.get hash r.space_idx_mp (new_key hash fs json connector r pb_space))
            ≡ true
          → length r.spaces_conn < r.capacity
          → P ([], append_slot hash fs json connector r pb_space))
      → P (add_space hash fs json connector r pb_space)
  unfolding add_space
  add_space_cases P r pb_space used reused full appended =
      elim (Bool-cases (
        is_negative
          (IndexMap.get hash r.space_idx_mp (new_key hash fs json connector r pb_space)))) [
            | inr e ↦ rw e (used e)
            | inl e ↦ rw e (elim (Option-cases (free_slot r.spaces_conn)) [
              | inr (i, at) ↦ rw at (reused i e (free_slot-free r.spaces_conn i at))
              | inl no_slot ↦
                  rw no_slot (elim (Bool-cases (leb r.capacity (length r.spaces_conn))) [
                    | inl f ↦ rw f (full no_slot f)
                    | inr f ↦ rw f (appended e (leb-false r.capacity (length r.spaces_conn) f))
                  ])
            ])
          ]
