-- ===== src/Ps/LocalMata.antt =====
-- service/ps/local_mata.{h,cc}: what a partition server knows of itself and of its space, with the two
-- files that keep it. A text is empty where a dump is done.
pub mod Load
pub mod Restart
use sim_search.Prelude.{
  ℕ, ◌+◌, Bool, true, false, not, ◌&&◌, List, [], ◌∷◌, ◌++◌, Option, none, some, if◌then◌else◌, ltb,
  is_empty, Str, codes,
}
use sim_search.Prelude.Int.{ℤ, pos, negsuc}
use sim_search.Common.Messages.{Partition, Space, PsNodeInfo, CreateSpaceRequest, empty_space}
use sim_search.Common.Names.{gen_space_key}
use sim_search.External.Codec.{Codec}
use sim_search.External.FileSystem.{FileSystem}

pub record LocalMata : Type 0 where
  pub dir_path : Str
  pub node_info_file : Str
  pub space_schema_file : Str
  pub ps_node_info : PsNodeInfo
  pub space_req : CreateSpaceRequest
  pub has_space : Bool

abbrev pub empty_partition : Partition
empty_partition = record { partition_id = 0; group_name = []; replicas = [] }

abbrev pub empty_request : CreateSpaceRequest
empty_request = record { space = empty_space; cur_partition = empty_partition }

abbrev pub empty_node_info : PsNodeInfo
empty_node_info = record { ps_id = pos 0; ps_ip = []; ps_port = 0 }

unfoldable pub new_mata : LocalMata
new_mata = record {
  dir_path = [];
  node_info_file = [];
  space_schema_file = [];
  ps_node_info = empty_node_info;
  space_req = empty_request;
  has_space = false;
}

abbrev pub is_positive : ℤ → Bool
is_positive (pos n) = ltb 0 n
is_positive (negsuc n) = false

unfoldable pub is_load_from_file : LocalMata → Bool
is_load_from_file m = is_positive m.ps_node_info.ps_id && not (is_empty m.ps_node_info.ps_ip)

unfoldable pub set_create_sapce_req : LocalMata → CreateSpaceRequest → LocalMata
set_create_sapce_req m req = record m {
  space_req = req;
  has_space = if is_empty req.space.db_name then m.has_space else true;
}

unfoldable pub space_key : LocalMata → Str
unfolding gen_space_key
space_key m = gen_space_key m.space_req.space.db_name m.space_req.space.space_name

unfoldable pub set_ps_id : LocalMata → ℤ → LocalMata
set_ps_id m ps_node_id = record m { ps_node_info = record m.ps_node_info { ps_id = ps_node_id } }

unfoldable pub set_ps_port : LocalMata → ℕ → LocalMata
set_ps_port m raft_port = record m { ps_node_info = record m.ps_node_info { ps_port = raft_port } }

unfoldable pub set_ps_ip : LocalMata → Str → LocalMata
set_ps_ip m ps_node_ip = record m { ps_node_info = record m.ps_node_info { ps_ip = ps_node_ip } }

unfoldable pub id : LocalMata → ℤ
id m = m.ps_node_info.ps_id

unfoldable pub db_name : LocalMata → Str
db_name m = m.space_req.space.db_name

unfoldable pub space_name : LocalMata → Str
space_name m = m.space_req.space.space_name

unfoldable pub not_json : Str → Str
unfolding codes
not_json json_str = codes "Failed to convert protobuf to JSON. json_str:" ++ json_str

unfoldable pub no_space_file : Str → Str → Str
unfolding codes
no_space_file file json_str =
    codes "Failed to open create_space_req: " ++ file ++ codes " json_str:" ++ json_str

unfoldable pub space_not_set : Str
unfolding codes
space_not_set = codes "space is not set. not dump CreateSpaceReq"

unfoldable pub id_not_set : Str
unfolding codes
id_not_set = codes "_ps_node_info is not null or id is not set. skip"

unfoldable pub no_node_file : Str → Str → Str
unfolding codes
no_node_file file json_str =
    codes "Failed to open file, node_info_file: " ++ file ++ codes " json_str:" ++ json_str

-- `_dir_path` and the two names that `Init` makes of it.
unfoldable pub with_dir : LocalMata → Str → LocalMata
unfolding codes
with_dir m dir_path = record m {
  dir_path = dir_path;
  node_info_file = dir_path ++ codes "/node_info.json";
  space_schema_file = dir_path ++ codes "/create_space_req.json";
}

module _ {W : Type 0} (fs : FileSystem W) (node_json : Codec PsNodeInfo)
    (space_json : Codec CreateSpaceRequest) where
  -- `Init`, from the file of the space on.
  unfoldable pub load_space : LocalMata → W → LocalMata × Bool
  load_space m w = elim (fs.read_file m.space_schema_file w) [
    | none ↦ (m, true)
    | some text ↦
        let (req, parsed) = space_json.parse text in
        if parsed
        then (record m { space_req = req; has_space = true }, true)
        else (record m { space_req = req }, false)
  ]

  -- `Init`, with the directory there.
  unfoldable pub load : LocalMata → W → LocalMata × Bool
  unfolding load_space
  load m w = elim (fs.read_file m.node_info_file w) [
    | none ↦ (m, true)
    | some text ↦
        let (info, parsed) = node_json.parse text in
        let m' = record m { ps_node_info = info } in if parsed then load_space m' w else (m', false)
  ]

  unfoldable pub init : LocalMata → Str → W → LocalMata × Bool × W
  unfolding with_dir load
  init m dir_path w =
      let m' = with_dir m dir_path in
      let (loaded, done) = load m' w in
      if fs.path_exists dir_path w
      then (loaded, done, w)
      else (m', true, (fs.create_directory dir_path w).0)

  -- A message that does not convert leaves no text here. Whether the stream of the file failed is not
  -- looked at.
  unfoldable pub dump_create_space_req : LocalMata → W → Str × W
  unfolding space_not_set not_json no_space_file
  dump_create_space_req m w =
      if is_empty m.space_req.space.db_name
      then (space_not_set, w)
      else elim (space_json.print m.space_req) [
        | none ↦ (not_json [], w)
        | some json_str ↦ elim (fs.open_file m.space_schema_file w) [
          | none ↦ (no_space_file m.space_schema_file json_str, w)
          | some w' ↦ ([], (fs.write_file m.space_schema_file json_str w').0)
        ]
      ]

  unfoldable pub dump_node_info : LocalMata → W → Str × W
  unfolding id_not_set not_json no_node_file
  dump_node_info m w =
      if not (is_positive m.ps_node_info.ps_id)
      then (id_not_set, w)
      else elim (node_json.print m.ps_node_info) [
        | none ↦ (not_json [], w)
        | some json_str ↦ elim (fs.open_file m.node_info_file w) [
          | none ↦ (no_node_file m.node_info_file json_str, w)
          | some w' ↦ ([], (fs.write_file m.node_info_file json_str w').0)
        ]
      ]

module _ {W : Type 0} (fs : FileSystem W) where
  unfoldable pub delete_space : LocalMata → W → LocalMata × W
  delete_space m w = (
    record m { space_req = empty_request; has_space = false },
    (fs.delete_file m.space_schema_file w).0,
  )

  unfoldable pub delete_node_info : LocalMata → W → LocalMata × W
  delete_node_info m w =
      (record m { ps_node_info = empty_node_info }, (fs.delete_file m.node_info_file w).0)
