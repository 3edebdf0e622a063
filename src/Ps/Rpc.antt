-- ===== src/Ps/Rpc.antt =====
-- service/ps/ps_rpc.cc: the handlers that make and delete the space of a partition server. Each runs
-- under the lock of the raft manager, so calls run one after another.
pub mod Answers
pub mod Saved
pub mod Group
pub mod Deleted
use sim_search.Prelude.{
  ℕ, Bool, true, false, not, ◌||◌, List, [], ◌++◌, Option, none, some, if◌then◌else◌, ◌==◌,
  is_empty, Str, str_eq, codes, to_string,
}
use sim_search.Common.Messages.{CreateSpaceRequest, GetResponse, PsNodeInfo, RespStatus}
use sim_search.Dto.Gamma.{get_gamma_table}
use sim_search.External.Braft.{Braft}
use sim_search.External.Codec.{Codec}
use sim_search.External.FileSystem.{FileSystem}
use sim_search.External.Gamma.{Gamma}
use sim_search.Ps.LocalMata
use sim_search.Ps.LocalMata.{LocalMata, empty_request}
use sim_search.Ps.LocalStorager
use sim_search.Ps.LocalStorager.{Config, get_raft_params}
use sim_search.Raft.Block.{Block, create_block, delete_block, start_raft_server}

-- The server: its knowledge, its raft group and the world.
pub record Ps (W : Type 0) : Type 0 where
  pub mata : LocalMata
  pub block : Option Block
  pub world : W

unfoldable pub ping : RespStatus
unfolding codes
ping = record { code = 0; msg = codes "success" }

-- The response goes back as it came.
unfoldable pub get : List Str → GetResponse → GetResponse
get ids response = response

unfoldable pub search : {Response : Type 0} → Response → Response
search response = response

unfoldable pub space_has_exist : Str → Str
unfolding codes
space_has_exist space_name = codes "Space has exist, space_name:" ++ space_name

unfoldable pub create_table_failed : Str → Str
unfolding codes
create_table_failed text = codes "Engine create table failed, msg:" ++ text

unfoldable pub not_exist : Str
unfolding codes
not_exist = codes "db_name and space_name is not exist."

-- The parameters before the call of `GetRaftParams`, which it leaves where it fails.
abbrev pub params_or_empty : Option (Str × Str × Str × ℕ) → Str × Str × Str × ℕ
params_or_empty none = ([], [], [], 0)
params_or_empty (some params) = params

module _ {W : Type 0} (fs : FileSystem W) (braft : Braft W) (gamma : Gamma W)
    (node_json : Codec PsNodeInfo) (space_json : Codec CreateSpaceRequest) (config : Config) where
  -- What every failure of `CreateSpace` does with the request that it kept.
  unfoldable pub fail_create : LocalMata → Option Block → W → ℕ → Str → Ps W × RespStatus
  unfolding LocalMata.set_create_sapce_req
  fail_create m block w code msg = (
    record { mata = LocalMata.set_create_sapce_req m empty_request; block = block; world = w },
    record { code = code; msg = msg },
  )

  -- `CreateSpace`, with the group started or not: `msg` is what `StartRaftServer` returned.
  unfoldable pub dump_space : LocalMata → Option Block → Str → W → Ps W × RespStatus
  unfolding fail_create LocalMata.dump_create_space_req
  dump_space m block msg w =
      let (dump_msg, w') = LocalMata.dump_create_space_req fs node_json space_json m w in
      if not (is_empty msg)
      then fail_create m block w 202 msg
      else if not (is_empty dump_msg)
      then fail_create m block w' 203 dump_msg
      else (record { mata = m; block = block; world = w' }, record { code = 0; msg = [] })

  -- `CreateSpace`, with the table of the engine there.
  unfoldable pub start_space : LocalMata → Option Block → CreateSpaceRequest → W → Ps W × RespStatus
  unfolding dump_space get_raft_params create_block start_raft_server
  start_space m block req w =
      let (root_path, group, conf, port) = params_or_empty (get_raft_params config m) in
      let (block1, w1) = create_block braft block w in
      let (block2, msg, w2) =
        start_raft_server braft block1 root_path group conf m.ps_node_info.ps_ip port req.space
          config.raft_election_timeout_ms config.raft_snap_interval_s w1 in
      dump_space m block2 msg w2

  unfoldable pub create_space : Ps W → CreateSpaceRequest → Ps W × RespStatus
  unfolding start_space fail_create space_has_exist create_table_failed get_gamma_table
      LocalMata.set_create_sapce_req
  create_space s req =
      let m = LocalMata.set_create_sapce_req s.mata req in
      let w1 = gamma.init_engine config.engine_data_dir req.space.space_name s.world in
      let (w2, code, text) = gamma.create_table (get_gamma_table req.space) w1 in
      if s.mata.has_space
      then (s, record { code = 201; msg = space_has_exist s.mata.space_req.space.space_name })
      else if not (code == 0)
      then fail_create m s.block w2 code (create_table_failed text)
      else start_space m s.block req w2

  unfoldable pub delete_space : Ps W → Str → Str → Ps W × RespStatus
  unfolding delete_block LocalStorager.delete_space not_exist LocalMata.db_name LocalMata.space_name
  delete_space s db_name space_name =
      let (block, w1) = delete_block braft s.block s.world in
      let w2 = (braft.delete_tree config.engine_data_dir (gamma.close w1)).0 in
      let (m, msg, w3) = LocalStorager.delete_space fs s.mata db_name space_name w2 in
      if not (str_eq (LocalMata.db_name s.mata) db_name)
        || not (str_eq (LocalMata.space_name s.mata) space_name)
      then (s, record { code = 201; msg = not_exist })
      else (record { mata = m; block = block; world = w3 }, record { code = 0; msg = [] })
