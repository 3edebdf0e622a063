-- ===== src/Router/Manager/Soundness.antt =====
-- service/router/space_manager.cc: whatever the calls, a key with an index finds its own connection.
use sim_search.Prelude.{
  ℕ, ◌+◌, ◌-◌, ◌≤◌, ◌<◌, ◌≡◌, refl, sym, ap, ◌∙◌, true, false, ◌&&◌, List, [], ◌∷◌, Option, none,
  some, arith, Bool-cases, inl, inr, length, length-set, length-append, get_or, get_or-set_self,
  set, get_or-set_ne, get_or-append_lt, get_or-append_length, get_or-ne-lt, Str, str_eq, str_eq_iff,
}
use sim_search.Prelude.Int.{pos, is_negative, to_index, to_int16, to_int16-pos}
use sim_search.Utils.IndexMap
use sim_search.Utils.IndexMap.Laws.{
  IsWellFormed, put-IsWellFormed, delete-IsWellFormed, get-put, get-delete,
}
use sim_search.Common.Messages.{Space}
use sim_search.External.Codec.{Codec}
use sim_search.External.FileSystem.{FileSystem}
use sim_search.Router.Manager.Cases.{add_space_cases}
use sim_search.Router.Manager.{
  reuse_slot, append_slot, Connector, SpaceManager, Router, push_back, put_index, add_space,
  delete_space, connect_one, connect_all,
}

-- The connection at the index of a key.
unfoldable pub conn_of : {Conn : Type 0} → (Str → ℕ) → SpaceManager Conn → Str → Option Conn
conn_of hash m key = get_or m.spaces_conn (to_index (IndexMap.get hash m.space_idx_mp key)) none

-- Every key with an index has a connection there, which is the key's own; and an index fits 16 bits.
pub record IsSound {Conn : Type 0} (hash : Str → ℕ) (space_key : Conn → Str) (m : SpaceManager Conn)
    : Type 0 where
  pub formed : IsWellFormed hash m.space_idx_mp
  pub within : length m.spaces_conn ≤ m.capacity
  pub roomy : m.capacity ≤ 32768
  pub indexed :
      (key : Str)
      → is_negative (IndexMap.get hash m.space_idx_mp key) ≡ false
      → (c : Conn) × (conn_of hash m key ≡ some c) × (space_key c ≡ key)

pub add_sub_one : (n : ℕ) → n + 1 - 1 ≡ n
add_sub_one n = omega arith

module _ (hash : Str → ℕ) {Conn : Type 0} (space_key : Conn → Str) where
  -- A new index is sound if its slot has the connection, and no slot in use was lost.
  put_index-IsSound :
      (m : SpaceManager Conn) (conns : List (Option Conn)) (capacity : ℕ) (key : Str) (i : ℕ)
      (c : Conn)
      → IsSound hash space_key m
      → length conns ≤ capacity
      → capacity ≤ 32768
      → get_or conns i none ≡ some c
      → space_key c ≡ key
      → ((j : ℕ) (d : Conn) → get_or m.spaces_conn j none ≡ some d → get_or conns j none ≡ some d)
      → IsSound hash space_key
          (put_index hash (record m { spaces_conn = conns; capacity = capacity }) key i)
  unfolding put_index conn_of
  put_index-IsSound m conns capacity key i c s within roomy here owner kept = record {
    formed = put-IsWellFormed hash m.space_idx_mp key (to_int16 i) s.formed;
    within = within;
    roomy = roomy;
    indexed = λ j.
        rw (get-put hash m.space_idx_mp key (to_int16 i) j s.formed, to_int16-pos i small)
          (elim (Bool-cases ((IndexMap.put hash m.space_idx_mp key (pos i)).1 && str_eq key j)) [
            | inl e ↦ rw e (λ found. (c, here, owner ∙ (str_eq_iff key j).0 (ground arith)))
            | inr e ↦
                rw e (λ found. let (d, there, own) = s.indexed j found in (d, kept _ d there, own))
          ]);
  }
    where
      small : i < 32768
      small = omega (arith, get_or-ne-lt conns i none (λ e. ground (arith, e)))

  -- Two keys with an index have different ones, so clearing the slot of one leaves the other's.
  pub slot-set_other :
      (m : SpaceManager Conn) (key j : Str)
      → IsSound hash space_key m
      → is_negative (IndexMap.get hash m.space_idx_mp key) ≡ false
      → is_negative (IndexMap.get hash m.space_idx_mp j) ≡ false
      → str_eq key j ≡ false
      → get_or
          (set m.spaces_conn (to_index (IndexMap.get hash m.space_idx_mp key)) none)
          (to_index (IndexMap.get hash m.space_idx_mp j))
          none
        ≡ conn_of hash m j
  unfolding conn_of
  slot-set_other m key j s e found other =
      let (d, there, own) = s.indexed j found in
      let (c, here, owner) = s.indexed key e in
      get_or-set_ne m.spaces_conn _ _ none none (λ at.
        two_owners c d (sym here ∙ ap (λ i. get_or m.spaces_conn i none) at ∙ there) owner own)
    where
      key_of : Option Conn → Str
      key_of none = []
      key_of (some x) = space_key x

      two_owners : (c d : Conn) → some c ≡ some d → space_key c ≡ key → space_key d ≡ j → ⊥
      two_owners c d same owner own =
          let joined : key ≡ j = sym owner ∙ ap key_of same ∙ own in
          ground (arith, str_eq_iff key j, joined)

  pub delete_space-IsSound :
      {W : Type 0} (r : Router Conn W) (key : Str)
      → IsSound hash space_key r.manager
      → IsSound hash space_key (delete_space hash r key).1.manager
  unfolding delete_space conn_of
  delete_space-IsSound r key s =
      elim (Bool-cases (is_negative (IndexMap.get hash r.space_idx_mp key))) [
        | inl e ↦ rw e s
        | inr e ↦ rw e (record {
          formed = delete-IsWellFormed hash r.space_idx_mp key s.formed;
          within = rw length-set s.within;
          roomy = s.roomy;
          indexed = λ j.
              rw (get-delete hash r.space_idx_mp key j s.formed, e)
                (elim (Bool-cases (str_eq key j && true)) [
                  | inl same ↦ rw same (λ found. absurd (cc))
                  | inr other ↦ rw other (λ found.
                      let (d, there, own) = s.indexed j found in
                      (d, slot-set_other r.manager key j s e found (ground arith) ∙ there, own))
                ]);
        })
      ]

  -- A connection appended to a vector with room, and indexed by its own key.
  push-IsSound :
      (m : SpaceManager Conn) (c : Conn) (i : ℕ)
      → IsSound hash space_key m
      → length m.spaces_conn ≡ i
      → i < m.capacity
      → IsSound hash space_key (put_index hash (push_back m (some c)) (space_key c) i)
  unfolding push_back
  push-IsSound m c i s at room =
      put_index-IsSound m _ _ (space_key c) i c s
        (ground (arith, length-append m.spaces_conn (some c ∷ []), s.within))
        (ground (arith, s.roomy)) (rw (← at) (get_or-append_length m.spaces_conn (some c) none))
        refl
        (λ j d there.
          get_or-append_lt m.spaces_conn (some c ∷ []) j none
            (get_or-ne-lt m.spaces_conn j none (λ e. ground (arith, e, there)))
          ∙ there)

  length-pushed :
      (m : SpaceManager Conn) (c : Conn) (key : Str) (i : ℕ)
      → length (put_index hash (push_back m (some c)) key i).spaces_conn ≡ length m.spaces_conn + 1
  unfolding push_back put_index
  length-pushed m c key i = length-append m.spaces_conn (some c ∷ [])

  capacity-pushed :
      (m : SpaceManager Conn) (c : Conn) (key : Str) (i : ℕ)
      → length m.spaces_conn < m.capacity
      → (put_index hash (push_back m (some c)) key i).capacity ≡ m.capacity
  unfolding push_back put_index
  capacity-pushed m c key i room = ground arith

module _ {W : Type 0} (hash : Str → ℕ) (fs : FileSystem W) (json : Codec (List Space))
    (connector : Connector W) where
  open connector use {Conn, connect, space_key}

  reuse_slot-IsSound :
      (r : Router Conn W) (pb_space : Space) (i : ℕ)
      → IsSound hash space_key r.manager
      → (i < length r.spaces_conn) × (get_or r.spaces_conn i none ≡ none)
      → IsSound hash space_key (reuse_slot hash fs json connector r pb_space i).manager
  unfolding reuse_slot
  reuse_slot-IsSound r pb_space i s vacant =
      put_index-IsSound hash space_key r.manager _ r.capacity _ i _ s (rw length-set s.within)
        s.roomy (get_or-set_self r.spaces_conn i _ none vacant.0) refl
        (λ j d there.
          get_or-set_ne r.spaces_conn i j _ none
            (λ at. ground (arith, vacant.1, ap (λ k. get_or r.spaces_conn k none) at))
          ∙ there)

  append_slot-IsSound :
      (r : Router Conn W) (pb_space : Space)
      → IsSound hash space_key r.manager
      → length r.spaces_conn < r.capacity
      → IsSound hash space_key (append_slot hash fs json connector r pb_space).manager
  unfolding append_slot push_back
  append_slot-IsSound r pb_space s room =
      rw (length-append r.spaces_conn (some (connect pb_space r.world).0 ∷ []), add_sub_one)
        (unfold push_back in
          push-IsSound hash space_key r.manager (connect pb_space r.world).0 (length r.spaces_conn)
            s refl room)

  -- `AddSpace` keeps a sound manager sound, whether it succeeds or not: every key with an index has
  -- a connection at it, which is the key's own.
  pub add_space-IsSound :
      (r : Router Conn W) (pb_space : Space)
      → IsSound hash space_key r.manager
      → IsSound hash space_key (add_space hash fs json connector r pb_space).1.manager
  add_space-IsSound r pb_space s =
      add_space_cases hash fs json connector (λ o. IsSound hash space_key o.1.manager) r pb_space
        (λ used. s) (λ i free vacant. reuse_slot-IsSound r pb_space i s vacant) (λ free full. s)
        (λ free room. append_slot-IsSound r pb_space s room)

  -- The last loop of `Init` keeps it sound too, as long as the spaces fit.
  pub connect_all-IsSound :
      (r : Router Conn W) (i : ℕ) (spaces : List Space)
      → IsSound hash space_key r.manager
      → length r.spaces_conn ≡ i
      → i + length spaces ≤ r.capacity
      → IsSound hash space_key (connect_all hash fs json connector r i spaces).manager
  unfolding connect_all connect_one
  connect_all-IsSound r i [] s at fits = s
  connect_all-IsSound r i (space ∷ spaces) s at fits =
      let c : Conn = (connect space r.world).0 in
      let room : i < r.capacity = omega arith in
      let room' : length r.spaces_conn < r.capacity = omega arith in
      connect_all-IsSound (connect_one hash fs json connector r i space) (i + 1) spaces
        (unfold connect_one in push-IsSound hash space_key r.manager c i s at room)
        (unfold connect_one in
          omega (arith, length-pushed hash space_key r.manager c (space_key c) i))
        (unfold connect_one in
          rw (capacity-pushed hash space_key r.manager c (space_key c) i room') (omega arith))
