-- ===== src/Router/Manager/Session.antt =====
-- service/router/space_manager.cc over whole sequences of calls, and what `AddSpace` keeps of a space.
use sim_search.Prelude.{
  ℕ, ◌<◌, ◌≤◌, ◌≡◌, refl, ◌∙◌, ◌++◌, false, List, [], ◌∷◌, Option, none, some, arith, Bool-cases,
  inl, inr, length, is_empty, Str,
}
use sim_search.Prelude.Int.{pos, is_negative}
use sim_search.Utils.IndexMap
use sim_search.Utils.IndexMap.{bucket_index, empty_map}
use sim_search.Utils.IndexMap.Laws.{put-refused_iff, empty-IsWellFormed, get-empty}
use sim_search.Common.Messages.{Space}
use sim_search.External.Codec.{Codec}
use sim_search.External.FileSystem.{FileSystem}
use sim_search.Router.LocalSpaces
use sim_search.Router.LocalSpaces.{LocalSpaces}
use sim_search.Router.Manager.{
  Connector, SpaceManager, Router, new_manager, reserve, new_key, new_conn, reuse_slot, append_slot,
  free_slot, add_space, delete_space, get_space_conn, not_exist, parse_all, init,
}
use sim_search.Router.Manager.Soundness.{
  IsSound, add_space-IsSound, delete_space-IsSound, connect_all-IsSound,
}
use sim_search.Router.Manager.Laws.{
  already_exist-not_empty, too_many-not_empty, Call, adds, deletes, Answers, IsAlone, put-alone,
  get_space_conn-Answers, get_space_conn-add,
}

-- The manager before its first space: constructed, with `max_space_num` places reserved.
abbrev pub fresh : {Conn : Type 0} → ℕ → SpaceManager Conn
fresh max_space_num = reserve new_manager max_space_num

module _ (hash : Str → ℕ) {Conn : Type 0} (space_key : Conn → Str) where
  pub fresh-IsSound : (n : ℕ) → n ≤ 32768 → IsSound hash space_key (fresh n)
  unfolding reserve new_manager
  fresh-IsSound n h = record {
    formed = empty-IsWellFormed hash 500 (omega arith);
    within = omega arith;
    roomy = ground arith;
    indexed = λ key used. absurd (cc (get-empty hash 500 key));
  }

  fresh-capacity : (n : ℕ) → n ≤ (fresh {Conn = Conn} n).capacity
  unfolding reserve new_manager
  fresh-capacity n = ground arith

  fresh-length : (n : ℕ) → length (fresh {Conn = Conn} n).spaces_conn ≡ 0
  unfolding reserve new_manager
  fresh-length n = refl

module _ {W : Type 0} (hash : Str → ℕ) (fs : FileSystem W) (json : Codec (List Space))
    (connector : Connector W) where
  open connector use {Conn, connect, space_key}

  unfoldable pub serve : Router Conn W → List Call → Router Conn W
  serve r [] = r
  serve r (adds pb_space ∷ calls) = serve (add_space hash fs json connector r pb_space).1 calls
  serve r (deletes key ∷ calls) = serve (delete_space hash r key).1 calls

  serve-IsSound :
      (r : Router Conn W) (calls : List Call)
      → IsSound hash space_key r.manager
      → IsSound hash space_key (serve r calls).manager
  unfolding serve
  serve-IsSound r [] s = s
  serve-IsSound r (adds pb_space ∷ calls) s =
      serve-IsSound (add_space hash fs json connector r pb_space).1 calls
        (add_space-IsSound hash fs json connector r pb_space s)
  serve-IsSound r (deletes key ∷ calls) s =
      serve-IsSound (delete_space hash r key).1 calls (delete_space-IsSound hash space_key r key s)

  -- The spaces that `Init` connects: those of etcd, or those of the file if etcd has none.
  unfoldable pub startup_spaces : (Str → Space × Option Str) → Router Conn W → List Str → List Space
  startup_spaces from_json r [] = (LocalSpaces.load fs json r.local r.world).0.pb_spaces
  startup_spaces from_json r (value ∷ values) = (parse_all from_json (value ∷ values)).0

  init-IsSound :
      (from_json : Str → Space × Option Str) (r : Router Conn W) (max_space_num : ℕ)
      (values : List Str)
      → r.manager ≡ new_manager
      → max_space_num ≤ 32768
      → length (startup_spaces from_json r values) ≤ max_space_num
      → IsSound hash space_key
          (init hash fs json connector from_json r max_space_num (some values)).1.manager
  unfolding init startup_spaces LocalSpaces.get_spaces
  init-IsSound from_json r n [] e small fits = rw e (
      connect_all-IsSound hash fs json connector _ 0
        (LocalSpaces.load fs json r.local r.world).0.pb_spaces
        (fresh-IsSound hash space_key n small) (fresh-length hash space_key n)
        (omega (arith, fresh-capacity hash space_key n)))
  init-IsSound from_json r n (value ∷ values) e small fits =
      rw e (elim (Bool-cases (is_empty (parse_all from_json (value ∷ values)).1)) [
        | inl p ↦ rw p (
            connect_all-IsSound hash fs json connector _ 0 (parse_all from_json (value ∷ values)).0
              (fresh-IsSound hash space_key n small) (fresh-length hash space_key n)
              (omega (arith, fresh-capacity hash space_key n)))
        | inr p ↦ rw p (fresh-IsSound hash space_key n small)
      ])

  -- From a start of a new manager with at most `max_space_num` spaces, that number being at most
  -- 32768, and after any calls of `AddSpace` and `DeleteSpace`, `GetSpaceConn` answers each key
  -- with a message and no connection, or with no message and the key's own connection.
  pub serve-Answers :
      (from_json : Str → Space × Option Str) (r : Router Conn W) (max_space_num : ℕ)
      (values : List Str) (calls : List Call) (key : Str)
      → r.manager ≡ new_manager
      → max_space_num ≤ 32768
      → length (startup_spaces from_json r values) ≤ max_space_num
      → Answers space_key key (
          get_space_conn hash
            (serve (init hash fs json connector from_json r max_space_num (some values)).1 calls)
            key)
  serve-Answers from_json r n values calls key e small fits =
      get_space_conn-Answers hash space_key _ key
        (serve-IsSound _ calls (init-IsSound from_json r n values e small fits))

  -- In a sound manager, an `AddSpace` that reports no error, of a key of two bytes at least whose
  -- bucket of the index map has no other key with an index, makes the key find the new connection.
  pub add_space-serves :
      (r : Router Conn W) (pb_space : Space)
      → IsSound hash space_key r.manager
      → 1 < length (new_key hash fs json connector r pb_space)
      → IsAlone hash r.space_idx_mp (new_key hash fs json connector r pb_space)
      → (add_space hash fs json connector r pb_space).0 ≡ []
      → get_space_conn hash
          (add_space hash fs json connector r pb_space).1
          (new_key hash fs json connector r pb_space)
        ≡ (some (new_conn hash fs json connector r pb_space), [])
  add_space-serves r pb_space s long alone done =
      get_space_conn-add hash fs json connector r pb_space s long done
      ∙ rw (put-alone hash r.space_idx_mp _ (pos 0) s.formed alone) refl

  -- In a sound manager, an `AddSpace` that reports no error, of a key of two bytes at least whose
  -- bucket of the index map has another key with an index, is lost: the key still finds no
  -- connection.
  pub add_space-lost :
      (r : Router Conn W) (pb_space : Space) (other : Str)
      → IsSound hash space_key r.manager
      → 1 < length (new_key hash fs json connector r pb_space)
      → bucket_index hash r.space_idx_mp other
        ≡ bucket_index hash r.space_idx_mp (new_key hash fs json connector r pb_space)
      → is_negative (IndexMap.get hash r.space_idx_mp other) ≡ false
      → (add_space hash fs json connector r pb_space).0 ≡ []
      → get_space_conn hash
          (add_space hash fs json connector r pb_space).1
          (new_key hash fs json connector r pb_space)
        ≡ (none, not_exist (new_key hash fs json connector r pb_space))
  add_space-lost r pb_space other s long same used done =
      get_space_conn-add hash fs json connector r pb_space s long done
      ∙ rw ((put-refused_iff hash r.space_idx_mp _ (pos 0) s.formed).1 (other, same, used)) refl

  -- What a call of `AddSpace` that reports no error leaves in the local list: the space is appended
  -- if it was given a new place, and the list is as it was if it took the place of a deleted one.
  pb_spaces-add_space :
      (r : Router Conn W) (pb_space : Space)
      → (add_space hash fs json connector r pb_space).0 ≡ []
      → (add_space hash fs json connector r pb_space).1.local.pb_spaces
        ≡ (elim (free_slot r.spaces_conn) [
          | none ↦ r.local.pb_spaces ++ pb_space ∷ []
          | some i ↦ r.local.pb_spaces
        ])
  unfolding add_space reuse_slot append_slot LocalSpaces.add_space
  pb_spaces-add_space r pb_space done = ground (
    arith,
    already_exist-not_empty (new_key hash fs json connector r pb_space),
    too_many-not_empty r.capacity,
  )
