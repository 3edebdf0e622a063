-- ===== src/Router/Manager/Laws.antt =====
-- service/router/space_manager.cc as its callers see it: what `GetSpaceConn` answers after the calls
-- of `AddSpace` and `DeleteSpace`.
use sim_search.Prelude.{
  ℕ, ◌<◌, ◌≡◌, ◌≢◌, refl, ap, ◌⊎◌, true, false, List, [], ◌∷◌, Option, none, some, arith,
  Bool-cases, inl, inr, if◌then◌else◌, leb, length, get_or, set, get_or-set_self,
  get_or-append_length, length-append, is_empty, Str, str_eq, str_eq_iff, str_eq_refl,
}
use sim_search.Prelude.Int.{ℤ, pos, negsuc, is_negative, to_index, to_int16, to_int16-pos}
use sim_search.Utils.IndexMap
use sim_search.Utils.IndexMap.{bucket_index}
use sim_search.Utils.IndexMap.Bucket.{put_bucket}
use sim_search.Utils.IndexMap.Laws.{IsWellFormed, get-put, get-delete, put-refused_iff}
use sim_search.Common.Messages.{Space}
use sim_search.External.Codec.{Codec}
use sim_search.External.FileSystem.{FileSystem}
use sim_search.Router.Manager.{
  Connector, SpaceManager, Router, new_key, new_conn, push_back, put_index, reuse_slot, append_slot,
  add_space, delete_space, get_space_conn, not_exist, null_name, already_exist, too_many,
}
use sim_search.Router.Manager.Cases.{add_space_cases}
use sim_search.Router.Manager.Soundness.{
  add_sub_one, slot-set_other, IsSound, conn_of, delete_space-IsSound,
}

-- The calls that change the manager.
pub data Call : Type 0 where
  adds : Space → Call
  deletes : Str → Call

not_exist-not_empty : (key : Str) → is_empty (not_exist key) ≡ false
unfolding not_exist
not_exist-not_empty key = refl

null_name-not_empty : is_empty null_name ≡ false
unfolding null_name
null_name-not_empty = refl

-- An answer of `GetSpaceConn` to `key`: a message and no connection, or the key's own connection.
abbrev pub Answers : {Conn : Type 0} → (Conn → Str) → Str → Option Conn × Str → Type 0
Answers {Conn} space_key key (o, msg) =
    ((o ≡ none) × (is_empty msg ≡ false))
    ⊎ ((c : Conn) × (o ≡ some c) × (msg ≡ []) × (space_key c ≡ key))

lt-leb : (n : ℕ) → 1 < n → leb n 1 ≡ false
lt-leb n h = ground arith

module _ {Conn W : Type 0} (hash : Str → ℕ) (space_key : Conn → Str) where
  -- The state with no connection at the index of a key does not come up, so nothing is "deleted".
  get_space_conn-eq :
      (r : Router Conn W) (key : Str)
      → IsSound hash space_key r.manager
      → get_space_conn hash r key ≡ (
          if leb (length key) 1
          then (none, null_name)
          else if is_negative (IndexMap.get hash r.space_idx_mp key)
          then (none, not_exist key)
          else (conn_of hash r.manager key, []))
  unfolding get_space_conn conn_of
  get_space_conn-eq r key s =
      elim (Bool-cases (is_negative (IndexMap.get hash r.space_idx_mp key))) [
        | inl e ↦ rw e refl
        | inr e ↦ let (c, here, owner) = s.indexed key e in rw (e, here) refl
      ]

  pub get_space_conn-Answers :
      (r : Router Conn W) (key : Str)
      → IsSound hash space_key r.manager
      → Answers space_key key (get_space_conn hash r key)
  get_space_conn-Answers r key s =
      rw (get_space_conn-eq r key s) (elim (Bool-cases (leb (length key) 1)) [
        | inl e ↦ rw e (inl (refl, null_name-not_empty))
        | inr e ↦ rw e (elim (Bool-cases (is_negative (IndexMap.get hash r.space_idx_mp key))) [
          | inl f ↦ rw f (inl (refl, not_exist-not_empty key))
          | inr f ↦ let (c, here, owner) = s.indexed key f in rw f (inr (c, here, refl, owner))
        ])
      ])

  -- `DeleteSpace` of a key with an index.
  deleted :
      (r : Router Conn W) (key : Str)
      → is_negative (IndexMap.get hash r.space_idx_mp key) ≡ false
      → delete_space hash r key ≡ (
        [],
        record r {
          manager = record r.manager {
            space_idx_mp = (IndexMap.delete hash r.space_idx_mp key).0;
            spaces_conn = set r.spaces_conn (to_index (IndexMap.get hash r.space_idx_mp key)) none;
          };
        },
      )
  unfolding delete_space
  deleted r key used = rw used refl

  index-deleted :
      (r : Router Conn W) (key j : Str)
      → IsSound hash space_key r.manager
      → is_negative (IndexMap.get hash r.space_idx_mp key) ≡ false
      → IndexMap.get hash (delete_space hash r key).1.space_idx_mp j
        ≡ (if str_eq key j then negsuc 0 else IndexMap.get hash r.space_idx_mp j)
  index-deleted r key j s used =
      rw (deleted r key used, get-delete hash r.space_idx_mp key j s.formed, used) (ground arith)

  conn_of-deleted :
      (r : Router Conn W) (key j : Str)
      → IsSound hash space_key r.manager
      → is_negative (IndexMap.get hash r.space_idx_mp key) ≡ false
      → is_negative (IndexMap.get hash r.space_idx_mp j) ≡ false
      → str_eq key j ≡ false
      → conn_of hash (delete_space hash r key).1.manager j ≡ conn_of hash r.manager j
  conn_of-deleted r key j s used found other =
      unfold conn_of in
      rw (index-deleted r key j s used, other, deleted r key used)
        (slot-set_other hash space_key r.manager key j s used found other)

  -- In a sound manager, after `DeleteSpace` of a space that is there and whose key has two bytes at
  -- least, its key finds nothing, and every other key finds what it found before.
  pub get_space_conn-delete :
      (r : Router Conn W) (key j : Str)
      → IsSound hash space_key r.manager
      → is_negative (IndexMap.get hash r.space_idx_mp key) ≡ false
      → 1 < length key
      → ((delete_space hash r key).0 ≡ [])
        × (get_space_conn hash (delete_space hash r key).1 j
            ≡ (if str_eq key j then (none, not_exist key) else get_space_conn hash r j))
  get_space_conn-delete r key j s used long = (
    rw (deleted r key used) refl,
    rw
        (
          get_space_conn-eq (delete_space hash r key).1 j
              (delete_space-IsSound hash space_key r key s),
          get_space_conn-eq r j s,
          index-deleted r key j s used,
        )
        (elim (Bool-cases (str_eq key j)) [
          | inl e ↦ rw (e, ← ((str_eq_iff key j).0 e), lt-leb (length key) long) refl
          | inr e ↦ rw e (elim (Bool-cases (is_negative (IndexMap.get hash r.space_idx_mp j))) [
            | inl f ↦ rw f refl
            | inr f ↦ rw (f, conn_of-deleted r key j s used f e) refl
          ])
        ]),
  )

  -- What `GetSpaceConn` finds where an index was put: the connection, if the map took the index.
  get_space_conn-put_index :
      (r : Router Conn W) (m : SpaceManager Conn) (key : Str) (i : ℕ) (c : Conn)
      → r.manager ≡ put_index hash m key i
      → IsWellFormed hash m.space_idx_mp
      → i < 32768
      → is_negative (IndexMap.get hash m.space_idx_mp key) ≡ true
      → get_or m.spaces_conn i none ≡ some c
      → 1 < length key
      → get_space_conn hash r key ≡ (
          if (IndexMap.put hash m.space_idx_mp key (pos i)).1
          then (some c, [])
          else (none, not_exist key))
  unfolding get_space_conn put_index
  get_space_conn-put_index r m key i c e w small free here long =
      rw
        (
          ap SpaceManager.space_idx_mp e,
          ap SpaceManager.spaces_conn e,
          get-put hash m.space_idx_mp key (to_int16 i) key w,
          to_int16-pos i small,
          lt-leb (length key) long,
          str_eq_refl key,
        )
        (elim (Bool-cases (IndexMap.put hash m.space_idx_mp key (pos i)).1) [
          | inl p ↦ rw (p, here) refl
          | inr p ↦ rw (p, free) refl
        ])

pub already_exist-not_empty : (key : Str) → already_exist key ≢ []
unfolding already_exist
already_exist-not_empty key h = cc

pub too_many-not_empty : (n : ℕ) → too_many n ≢ []
unfolding too_many
too_many-not_empty n h = cc

module _ (hash : Str → ℕ) where
  put-done :
      (m : IndexMap.OneWriterMultiReaderMap) (key : Str) (i k : ℤ)
      → (IndexMap.put hash m key i).1 ≡ (IndexMap.put hash m key k).1
  unfolding IndexMap.put put_bucket
  put-done m key i k = ground arith

  -- No other key of the bucket of `key` has an index.
  abbrev pub IsAlone : IndexMap.OneWriterMultiReaderMap → Str → Type 0
  IsAlone m key =
      (j : Str)
      → bucket_index hash m j ≡ bucket_index hash m key
      → is_negative (IndexMap.get hash m j) ≡ true

  pub put-alone :
      (m : IndexMap.OneWriterMultiReaderMap) (key : Str) (i : ℤ)
      → IsWellFormed hash m
      → IsAlone m key
      → (IndexMap.put hash m key i).1 ≡ true
  put-alone m key i w alone = elim (Bool-cases (IndexMap.put hash m key i).1) [
    | inl e ↦ e
    | inr e ↦
        let (j, same, used) = (put-refused_iff hash m key i w).0 e in absurd (cc (alone j same))
  ]

module _ {W : Type 0} (hash : Str → ℕ) (fs : FileSystem W) (json : Codec (List Space))
    (connector : Connector W) where
  open connector use {Conn, connect, space_key}

  -- After an `AddSpace` that reports no error, the key finds the new connection if the index map took
  -- the index, and otherwise does not exist.
  pub get_space_conn-add :
      (r : Router Conn W) (pb_space : Space)
      → IsSound hash space_key r.manager
      → 1 < length (new_key hash fs json connector r pb_space)
      → (add_space hash fs json connector r pb_space).0 ≡ []
      → get_space_conn hash
          (add_space hash fs json connector r pb_space).1
          (new_key hash fs json connector r pb_space)
        ≡ (if (IndexMap.put hash r.space_idx_mp
              (new_key hash fs json connector r pb_space)
              (pos 0)).1
            then (some (new_conn hash fs json connector r pb_space), [])
            else (none, not_exist (new_key hash fs json connector r pb_space)))
  get_space_conn-add r pb_space s long =
      add_space_cases hash fs json connector
        (λ o.
          o.0 ≡ []
          → get_space_conn hash o.1 (new_key hash fs json connector r pb_space) ≡ (
              if (IndexMap.put hash r.space_idx_mp (new_key hash fs json connector r pb_space)
                (pos 0)).1
              then (some (new_conn hash fs json connector r pb_space), [])
              else (none, not_exist (new_key hash fs json connector r pb_space))))
        r pb_space (λ used h. absurd (already_exist-not_empty _ h))
        (λ i free vacant h.
          unfold reuse_slot in
          rw
            (put-done hash r.space_idx_mp (new_key hash fs json connector r pb_space) (pos 0)
              (pos i))
            (get_space_conn-put_index hash space_key _
              (record r.manager {
                spaces_conn =
                    set r.spaces_conn i (some (new_conn hash fs json connector r pb_space));
              })
              _ i _ refl s.formed (omega (arith, vacant.0, s.within, s.roomy)) free
              (get_or-set_self r.spaces_conn i _ none vacant.0) long))
        (λ free full h. absurd (too_many-not_empty _ h))
        (λ free room h.
          unfold append_slot push_back in
          rw
            (
              length-append r.spaces_conn (some (new_conn hash fs json connector r pb_space) ∷ []),
              add_sub_one,
              put-done hash r.space_idx_mp (new_key hash fs json connector r pb_space) (pos 0)
                  (pos (length r.spaces_conn)),
            )
            (get_space_conn-put_index hash space_key _
              (push_back r.manager (some (new_conn hash fs json connector r pb_space))) _
              (length r.spaces_conn) _ refl s.formed (omega (arith, s.roomy)) free
              (get_or-append_length r.spaces_conn _ none) long))
