-- ===== src/Router/Space.antt =====
-- service/router/space_connection.{h,cc}: the connections of the router to the partitions of one
-- space. `_partition_list[idx]` is read for the ids that HashKeys and HashDocs give; one past the end,
-- which the source does not guard, reads as a partition without replicas.
pub mod Answers
pub mod Bounds
pub mod Stored
use sim_search.Prelude.{
  ℕ, ◌≡◌, refl, Bool, true, false, List, [], ◌∷◌, ◌++◌, Option, none, some, if◌then◌else◌, is_empty,
  get_or, set, Str, str_eq, str_key, codes,
}
use sim_search.Prelude.Assoc.{put}
use sim_search.Common.Messages.{Space, Field, Partition, Document}
use sim_search.Common.Names.{gen_space_key}
use sim_search.Common.Types.{DType, undefine, sdtype_to_dtype_of, is_id_dtype}
use sim_search.External.Network.{Network}
use sim_search.Router.Hashing.{DocsGroup}
use sim_search.Router.Manager.{Connector}
use sim_search.Router.Partition
use sim_search.Router.Partition.{PartitionConnetion, new_partition}

pub record SpaceConnection : Type 0 where
  pub pb_space : Space
  pub space_key : Str
  pub partition_list : List PartitionConnetion
  pub db_name : Str
  pub space_name : Str
  pub id_type : DType

unfoldable pub id_field : Str
unfolding codes
id_field = codes "_id"

unfoldable pub id_type_not_allowed : Str → Str
unfolding codes
id_type_not_allowed fie_type =
    codes "_id type:" ++ fie_type ++ codes " is not allowed, it only is string or long type."

unfoldable pub no_id_field : Str
unfolding codes
no_id_field = codes "not has _id field."

abbrev pub message_if_undefine : DType → Str
message_if_undefine undefine = no_id_field
message_if_undefine _ = []

-- The loop of `Init` over the fields, and the test after it: the type of the ids, and the message.
unfoldable pub scan_id_type : DType → List Field → DType × Str
unfolding id_field no_id_field
scan_id_type id_type [] = (id_type, message_if_undefine id_type)
scan_id_type id_type (fie ∷ fields) = elim (str_eq fie.name id_field) [
  | false ↦ scan_id_type id_type fields
  | true ↦ elim (is_id_dtype (sdtype_to_dtype_of fie.type)) [
    | false ↦ (undefine, id_type_not_allowed fie.type)
    | true ↦ scan_id_type (sdtype_to_dtype_of fie.type) fields
  ]
]

-- `err_mp[key] = one_msg` for each entry of the second map.
unfoldable pub put_all : {V : Type 0} → List (Str × V) → List (Str × V) → List (Str × V)
put_all err_mp [] = err_mp
put_all err_mp ((key, one_msg) ∷ rest) = put_all (put err_mp key one_msg) rest

-- `_partition_list[idx]`. An index beyond the list, which is undefined in the source, reads as a
-- partition without replicas.
abbrev pub partition_at : SpaceConnection → ℕ → PartitionConnetion
partition_at conn idx = get_or conn.partition_list idx (new_partition conn.db_name conn.space_name)

module _ {W : Type 0} (net : Network W) where
  -- The first loop of `Init`.
  unfoldable pub init_partitions : Str → Str → List Partition → W → List PartitionConnetion × W
  unfolding Partition.init
  init_partitions db_name space_name [] w = ([], w)
  init_partitions db_name space_name (partition ∷ partitions) w =
      let (w1, p, msg) = Partition.init net (new_partition db_name space_name) partition w in
      let (rest, w2) = init_partitions db_name space_name partitions w1 in (p ∷ rest, w2)

  -- `Init` of a connection that was just constructed, whose `_id_type` is UNDEFINE.
  unfoldable pub init : Space → W → SpaceConnection × Str × W
  unfolding scan_id_type init_partitions
  init space w =
      let (partition_list, w') =
        init_partitions space.db_name space.space_name space.partitions w in
      let (id_type, msg) = scan_id_type undefine space.fields in
      (
        record {
          pb_space = space;
          space_key = gen_space_key space.db_name space.space_name;
          partition_list = partition_list;
          db_name = space.db_name;
          space_name = space.space_name;
          id_type = id_type;
        },
        msg,
        w',
      )

  unfoldable pub delete_docs :
      SpaceConnection → List (ℕ × List Str) → Str → List (Str × Str) → List (Str × Str)
  unfolding put_all Partition.delete_docs
  delete_docs conn [] msg err_mp = err_mp
  delete_docs conn ((idx, keys) ∷ groups) msg err_mp =
      delete_docs conn groups msg
        (put_all err_mp (Partition.delete_docs net (partition_at conn idx) keys msg))

  unfoldable pub get_docs :
      SpaceConnection
      → List (ℕ × List Str)
      → List (Str × Str)
      → List (Str × Document)
      → W
      → W × List (Str × Str) × List (Str × Document)
  unfolding put_all Partition.get_docs
  get_docs conn [] err_mp docs_res w = (w, err_mp, docs_res)
  get_docs conn ((idx, keys) ∷ groups) err_mp docs_res w =
      let (w', one_grp_err, one_grp_res) =
        Partition.get_docs net (partition_at conn idx) keys [] w in
      get_docs conn groups (put_all err_mp one_grp_err) (put_all docs_res one_grp_res) w'

  module _ (serialize : Document → Option Str) where
    -- The partitions keep the connections that their writes left.
    unfoldable pub upsert_docs :
        SpaceConnection
        → List (ℕ × DocsGroup)
        → List (Str × Str)
        → W
        → W × SpaceConnection × List (Str × Str)
    unfolding put_all Partition.upsert_docs
    upsert_docs conn [] err_mp w = (w, conn, err_mp)
    upsert_docs conn ((idx, docs_grp) ∷ groups) err_mp w =
        let (w', p, one_grp_res) =
          Partition.upsert_docs net serialize (partition_at conn idx) docs_grp w in
        upsert_docs (record conn { partition_list = set conn.partition_list idx p }) groups
          (put_all err_mp one_grp_res) w'

  pub space_key-init :
      (s : Space) (w : W) → (init s w).0.space_key ≡ gen_space_key s.db_name s.space_name
  unfolding init
  space_key-init s w = refl

  -- The manager's connections are these.
  unfoldable pub connector : Connector W
  connector = record {
    Conn = SpaceConnection;
    connect = λ s w. ((init s w).0, (init s w).2);
    space_key = SpaceConnection.space_key;
    space_key-connect = space_key-init;
  }
