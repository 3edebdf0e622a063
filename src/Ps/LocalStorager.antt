-- ===== src/Ps/LocalStorager.antt =====
-- service/ps/local_storager.cc: the identity of the server, its space, and what its raft group starts
-- with. `Config` is what the handlers read of config/conf.cc, which sets it once, at the start.
pub mod Identity
use sim_search.Prelude.{
  ℕ, Bool, true, false, not, ◌&&◌, List, [], ◌++◌, Option, none, some, if◌then◌else◌, ◌==◌,
  is_empty, Str, str_eq, codes,
}
use sim_search.Prelude.Int.{ℤ, pos, negsuc, is_negative}
use sim_search.Common.Messages.{
  PsNodeInfo, CreateSpaceRequest, MasterGenIdRequest, MasterGenIdResponse,
}
use sim_search.Common.Names.{get_raft_conf}
use sim_search.External.Codec.{Codec}
use sim_search.External.FileSystem.{FileSystem}
use sim_search.External.Http.{Http, Conversion}
use sim_search.Ps.LocalMata
use sim_search.Ps.LocalMata.{LocalMata}
use sim_search.Utils.BrpcHttp.{http_post}

pub record Config : Type 0 where
  pub cur_ip : Str
  pub raft_root_dir : Str
  pub engine_data_dir : Str
  pub rpc_port : ℕ
  pub master_urls : List Str
  pub raft_election_timeout_ms : ℕ
  pub raft_snap_interval_s : ℕ

unfoldable pub incorrect_name : Str
unfolding codes
incorrect_name = codes "Incorrect db_name or space_name"

unfoldable pub get_raft_root : Config → LocalMata → Str
unfolding codes
get_raft_root config m =
    if not m.has_space
    then []
    else config.raft_root_dir ++ codes "/" ++ m.space_req.cur_partition.group_name

-- `GetRaftParams`: the root path, the group, its configuration and the port.
unfoldable pub get_raft_params : Config → LocalMata → Option (Str × Str × Str × ℕ)
unfolding get_raft_root get_raft_conf
get_raft_params config m =
    let cur_partition = m.space_req.cur_partition in
    if not m.has_space
    then none
    else some (
      get_raft_root config m,
      cur_partition.group_name,
      get_raft_conf cur_partition,
      config.rpc_port,
    )

unfoldable pub delete_space :
    {W : Type 0} → FileSystem W → LocalMata → Str → Str → W → LocalMata × Str × W
unfolding LocalMata.delete_space LocalMata.db_name LocalMata.space_name incorrect_name
delete_space fs m db_name space_name w =
    let (m', w') = LocalMata.delete_space fs m w in
    if str_eq db_name (LocalMata.db_name m) && str_eq space_name (LocalMata.space_name m)
    then (m', [], w')
    else (m, incorrect_name, w)

-- The path of `/api/gen_id`.
abbrev gen_id : Str
gen_id = codes "/api/gen_id"

module _ {W : Type 0} (http : Http W) (json : Conversion MasterGenIdRequest MasterGenIdResponse)
    (config : Config) where
  unfoldable pub get_node_id_by_query_api : ℕ → W → ℤ × W
  unfolding http_post
  get_node_id_by_query_api max_retry w =
      let (ok, resp, w') =
        http_post http json gen_id config.master_urls (record { id = negsuc 0 }) json.empty
          max_retry w in
      if ok && not (is_negative resp.id) && (resp.code == 0) then (resp.id, w') else (negsuc 0, w')

  module _ (fs : FileSystem W) (node_json : Codec PsNodeInfo)
      (space_json : Codec CreateSpaceRequest) where
    -- `CreateOrLoadNodeMata`, where no identity was loaded.
    unfoldable pub create_node_mata : LocalMata → W → LocalMata × ℤ × W
    unfolding get_node_id_by_query_api LocalMata.set_ps_ip LocalMata.set_ps_port LocalMata.set_ps_id
        LocalMata.dump_node_info
    create_node_mata m w =
        let m1 = LocalMata.set_ps_port (LocalMata.set_ps_ip m config.cur_ip) config.rpc_port in
        let (node_id, w1) = get_node_id_by_query_api 4 w in
        let m2 = LocalMata.set_ps_id m1 node_id in
        let (msg, w2) = LocalMata.dump_node_info fs node_json space_json m2 w1 in
        if is_negative node_id
        then (m1, negsuc 0, w1)
        else if is_empty msg
        then (m2, node_id, w2)
        else (m2, negsuc 0, w2)

    unfoldable pub create_or_load_node_mata : LocalMata → Str → W → LocalMata × ℤ × W
    unfolding LocalMata.init LocalMata.is_load_from_file LocalMata.id create_node_mata
    create_or_load_node_mata m dir_path w =
        let (m', done, w') = LocalMata.init fs node_json space_json m dir_path w in
        if not done
        then (m', negsuc 0, w')
        else if not (LocalMata.is_load_from_file m')
        then create_node_mata m' w'
        else (m', LocalMata.id m', w')
