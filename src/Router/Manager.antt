-- ===== src/Router/Manager.antt =====
-- service/router/space_manager.{h,cc}: the spaces that the router serves. `_mtx` is held for the
-- whole of each writing call, so a call is one step of the state.
pub mod Soundness
pub mod Cases
pub mod Laws
pub mod Session
use sim_search.Prelude.{
  ℕ, zero, suc, ◌+◌, ◌*◌, ◌-◌, ◌≡◌, Bool, true, false, not, List, [], ◌∷◌, ◌++◌, Option, none, some,
  if◌then◌else◌, ltb, leb, length, get_or, set, is_empty, Str, codes, to_string,
}
use sim_search.Prelude.Int.{ℤ, is_negative, to_index, to_int16}
use sim_search.Utils.IndexMap
use sim_search.Utils.IndexMap.{OneWriterMultiReaderMap, empty_map}
use sim_search.Common.Messages.{Space}
use sim_search.Common.Names.{gen_space_key}
use sim_search.External.Codec.{Codec}
use sim_search.External.FileSystem.{FileSystem}
use sim_search.Router.LocalSpaces
use sim_search.Router.LocalSpaces.{LocalSpaces}

-- What the manager uses of a connection: `SpaceConnection::Init`, whose message it drops, and
-- `SpaceConnection::SpaceKey`.
pub record Connector (W : Type 0) : Type 1 where
  pub Conn : Type 0
  pub connect : Space → W → Conn × W
  pub space_key : Conn → Str
  pub space_key-connect :
      (s : Space) (w : W) → space_key (connect s w).0 ≡ gen_space_key s.db_name s.space_name

-- A `std::vector` of pointers with its capacity, which doubles when it is full.
pub record SpaceManager (Conn : Type 0) : Type 0 where
  pub spaces_conn : List (Option Conn)
  pub capacity : ℕ
  pub space_idx_mp : OneWriterMultiReaderMap

-- The manager, the singleton `LocalSpaces`, and the world.
pub record Router (Conn W : Type 0) : Type 0 where
  pub manager : SpaceManager Conn
  pub open manager use *
  pub local : LocalSpaces
  pub world : W

-- The messages.
unfoldable pub already_exist : Str → Str
unfolding codes
already_exist key = codes "space_key:" ++ key ++ codes " is already exist, not add."

unfoldable pub too_many : ℕ → Str
unfolding codes
too_many capacity =
    codes "spaces num > max_space_num[" ++ to_string capacity ++ codes "] create space failed"

unfoldable pub not_deleted : Str → Str
unfolding codes
not_deleted key = codes "space_key:" ++ key ++ codes " is not exit, not delete."

unfoldable pub null_name : Str
unfolding codes
null_name = codes "db_name and space_name is null"

unfoldable pub not_exist : Str → Str
unfolding codes
not_exist key = codes "db_name and space_name [" ++ key ++ codes "] is not exist"

unfoldable pub is_deleted : Str → Str
unfolding codes
is_deleted key = codes "db_name and space_name  [" ++ key ++ codes "] is deleted."

unfoldable pub init_failed : Str
unfolding codes
init_failed = codes "Init SpaceManager fail, get space info from etcd failed"

-- `JsonStringToMessage` of protobuf gives the message, and the text of its status if that is not ok.
unfoldable pub space_json_to_pb : (Str → Space × Option Str) → Str → Space × Str
unfolding codes
space_json_to_pb json_string_to_message space_json =
    let (pb_space, status) = json_string_to_message space_json in
    elim status [
      | none ↦ (pb_space, [])
      | some text ↦ (
        pb_space,
        codes "Failed to parse space JSON: " ++ text ++ codes " space_json:" ++ space_json,
      )
    ]

-- The loop of `Init` over the values that etcd has, which ends at the first that does not parse.
unfoldable pub parse_all : (Str → Space × Option Str) → List Str → List Space × Str
unfolding space_json_to_pb
parse_all json_string_to_message [] = ([], [])
parse_all json_string_to_message (value ∷ values) =
    let (space, msg) = space_json_to_pb json_string_to_message value in
    let (spaces, rest) = parse_all json_string_to_message values in
    if is_empty msg then (if is_empty rest then (space ∷ spaces, []) else ([], rest)) else ([], msg)

module _ {Conn : Type 0} where
  -- The loop of `AddSpace`: the first position with no connection.
  unfoldable pub free_slot : List (Option Conn) → Option ℕ
  free_slot [] = none
  free_slot (none ∷ conns) = some 0
  free_slot (some c ∷ conns) = elim (free_slot conns) [ none ↦ none | some i ↦ some (suc i) ]

  unfoldable pub push_back : SpaceManager Conn → Option Conn → SpaceManager Conn
  push_back m conn = record m {
    spaces_conn = m.spaces_conn ++ conn ∷ [];
    capacity =
        if ltb (length m.spaces_conn) m.capacity
        then m.capacity
        else if ltb 0 m.capacity
        then 2 * m.capacity
        else 1;
  }

  -- The constructor.
  unfoldable pub new_manager : SpaceManager Conn
  new_manager = record { spaces_conn = []; capacity = 0; space_idx_mp = empty_map 500 }

  unfoldable pub reserve : SpaceManager Conn → ℕ → SpaceManager Conn
  reserve m n = record m { capacity = if ltb m.capacity n then n else m.capacity }

module _ {Conn : Type 0} (hash : Str → ℕ) where
  unfoldable pub put_index : SpaceManager Conn → Str → ℕ → SpaceManager Conn
  put_index m key i = record m {
    space_idx_mp = (IndexMap.put hash m.space_idx_mp key (to_int16 i)).0;
  }

module _ {Conn W : Type 0} (hash : Str → ℕ) where
  unfoldable pub delete_space : Router Conn W → Str → Str × Router Conn W
  delete_space r key =
      let idx = IndexMap.get hash r.space_idx_mp key in
      if not (is_negative idx)
      then (
        [],
        record r {
          manager = record r.manager {
            space_idx_mp = (IndexMap.delete hash r.space_idx_mp key).0;
            spaces_conn = set r.spaces_conn (to_index idx) none;
          };
        },
      )
      else (not_deleted key, r)

  unfoldable pub get_space_conn : Router Conn W → Str → Option Conn × Str
  get_space_conn r key =
      let idx = IndexMap.get hash r.space_idx_mp key in
      let conn = get_or r.spaces_conn (to_index idx) none in
      if leb (length key) 1
      then (none, null_name)
      else if is_negative idx
      then (none, not_exist key)
      else elim conn [ none ↦ (none, is_deleted key) | some c ↦ (some c, []) ]

module _ {W : Type 0} (hash : Str → ℕ) (fs : FileSystem W) (json : Codec (List Space))
    (connector : Connector W) where
  open connector use {Conn, connect, space_key}

  -- The connection that `AddSpace` makes, its key, and the world after.
  abbrev pub new_conn : Router Conn W → Space → Conn
  new_conn r pb_space = (connect pb_space r.world).0

  abbrev pub new_key : Router Conn W → Space → Str
  new_key r pb_space = space_key (new_conn r pb_space)

  abbrev pub connected : Router Conn W → Space → Router Conn W
  connected r pb_space = record r { world = (connect pb_space r.world).1 }

  -- `AddSpace` at a position whose connection was deleted.
  unfoldable pub reuse_slot : Router Conn W → Space → ℕ → Router Conn W
  reuse_slot r pb_space i =
      let conns = set r.spaces_conn i (some (new_conn r pb_space)) in
      record (connected r pb_space) {
        manager = put_index hash (record r.manager { spaces_conn = conns }) (new_key r pb_space) i;
      }

  -- `AddSpace` at the end, with the local list and its file.
  unfoldable pub append_slot : Router Conn W → Space → Router Conn W
  unfolding push_back LocalSpaces.add_space
  append_slot r pb_space =
      let pushed = push_back r.manager (some (new_conn r pb_space)) in
      let local' = (LocalSpaces.add_space r.local pb_space).0 in
      record {
        manager = put_index hash pushed (new_key r pb_space) (length pushed.spaces_conn - 1);
        local = local';
        world = (LocalSpaces.save fs json local' (connect pb_space r.world).1).1;
      }

  unfoldable pub add_space : Router Conn W → Space → Str × Router Conn W
  unfolding free_slot
  add_space r pb_space =
      if not (is_negative (IndexMap.get hash r.space_idx_mp (new_key r pb_space)))
      then (already_exist (new_key r pb_space), connected r pb_space)
      else elim (free_slot r.spaces_conn) [
        | some i ↦ ([], reuse_slot r pb_space i)
        | none ↦
            if leb r.capacity (length r.spaces_conn)
            then (too_many r.capacity, connected r pb_space)
            else ([], append_slot r pb_space)
      ]

  -- One round of the last loop of `Init`.
  unfoldable pub connect_one : Router Conn W → ℕ → Space → Router Conn W
  unfolding push_back put_index
  connect_one r i space = record (connected r space) {
    manager = put_index hash (push_back r.manager (some (new_conn r space))) (new_key r space) i;
  }

  -- The loop, from position `i`.
  unfoldable pub connect_all : Router Conn W → ℕ → List Space → Router Conn W
  unfolding connect_one
  connect_all r i [] = r
  connect_all r i (space ∷ spaces) = connect_all (connect_one r i space) (i + 1) spaces

  -- `range` is the answer of etcd, none for a failed call.
  unfoldable pub init :
      (Str → Space × Option Str) → Router Conn W → ℕ → Option (List Str) → Str × Router Conn W
  unfolding reserve parse_all connect_all LocalSpaces.load LocalSpaces.get_spaces
      LocalSpaces.set_spaces
  init json_string_to_message r max_space_num range =
      let r' = record r { manager = reserve r.manager max_space_num } in
      elim range [
        | none ↦ (init_failed, r')
        | some [] ↦
            let loaded = (LocalSpaces.load fs json r.local r.world).0 in
            ([], connect_all (record r' { local = loaded }) 0 (LocalSpaces.get_spaces loaded))
        | some (value ∷ values) ↦
            let (spaces, msg) = parse_all json_string_to_message (value ∷ values) in
            let stored = LocalSpaces.set_spaces r.local spaces in
            if is_empty msg
            then (
              [],
              connect_all
                  (record r' {
                    local = stored;
                    world = (LocalSpaces.save fs json stored r.world).1;
                  })
                  0 spaces,
            )
            else (msg, r')
      ]
