-- ===== src/Ps/Main.antt =====
-- service/ps_main.cc: the start of a partition server, up to its registration. A start that fails is
-- none; `served` says whether the services of brpc started.
pub mod Rejoins
pub mod Program
use sim_search.Prelude.{
  ℕ, Bool, true, false, not, List, [], Option, none, some, if◌then◌else◌, ◌==◌, Str,
}
use sim_search.Common.Messages.{
  PsNodeInfo, CreateSpaceRequest, MasterGenIdRequest, MasterGenIdResponse,
}
use sim_search.External.Braft.{Braft}
use sim_search.External.Codec.{Codec}
use sim_search.External.FileSystem.{FileSystem}
use sim_search.External.Gamma.{Gamma}
use sim_search.External.Http.{Http, Conversion}
use sim_search.Ps.LocalMata.{LocalMata, new_mata, space_name, is_positive}
use sim_search.Ps.LocalStorager.{Config, get_raft_params, create_or_load_node_mata}
use sim_search.Ps.Rpc.{Ps, params_or_empty}
use sim_search.Raft.Block.{Block, create_block, start_raft_server}

module _ {W : Type 0} (braft : Braft W) (gamma : Gamma W) (config : Config) where
  -- The engine and the raft group of a server that has a space. A group that does not start is only
  -- logged.
  unfoldable pub recover : Ps W → Option (Ps W)
  unfolding get_raft_params create_block start_raft_server space_name
  recover s =
      let m = s.mata in
      let (w1, code) =
        gamma.load (gamma.init_engine config.engine_data_dir (space_name m) s.world) in
      let (block1, w2) = create_block braft s.block w1 in
      let (root_path, group, conf, port) = params_or_empty (get_raft_params config m) in
      let (block2, msg, w3) =
        start_raft_server braft block1 root_path group conf m.ps_node_info.ps_ip port
          m.space_req.space config.raft_election_timeout_ms config.raft_snap_interval_s w2 in
      if not m.has_space
      then some s
      else if not (code == 0)
      then none
      else some (record { mata = m; block = block2; world = w3 })

  module _ (fs : FileSystem W) (node_json : Codec PsNodeInfo)
      (space_json : Codec CreateSpaceRequest) (http : Http W)
      (json : Conversion MasterGenIdRequest MasterGenIdResponse) where
    unfoldable pub start_ps : Str → Bool → W → Option (Ps W)
    unfolding recover create_or_load_node_mata
    start_ps ps_storage_dir served w =
        let (m, node_id, w') =
          create_or_load_node_mata http json config fs node_json space_json new_mata ps_storage_dir
            w in
        if not (is_positive node_id)
        then none
        else if not served
        then none
        else recover (record { mata = m; block = none; world = w' })
