-- ===== src/Ps/Main/Program.antt =====
-- service/ps_main.cc: the whole of a partition server, from its identity to its end. The results
-- of `InitConfig` and of `Init` of the registration are not looked at.
use sim_search.Prelude.{
  ℕ, List, Option, true, false, not, [], none, some, if◌then◌else◌, is_empty, Str, codes,
}
use sim_search.Prelude.Int.{to_index}
use sim_search.Clients.Etcd.{PutRequest, new_etcd_client}
use sim_search.Common.Messages.{
  PsNodeInfo, CreateSpaceRequest, MasterGenIdRequest, MasterGenIdResponse, RegisterRequest,
  RegisterResponse,
}
use sim_search.Conf.{Globals, Flags, new_globals, init_config, ps_config}
use sim_search.External.Toml.{Toml}
use sim_search.Utils.Net.{Interface}
use sim_search.Conf.Toml.{get_master_ip_ports}
use sim_search.External.Braft.{Braft}
use sim_search.External.Codec.{Codec}
use sim_search.External.FileSystem.{FileSystem}
use sim_search.External.Gamma.{Gamma}
use sim_search.External.Http.{Http, Conversion}
use sim_search.External.Server.{RpcServer}
use sim_search.Ps.LocalMata
use sim_search.Ps.LocalMata.{new_mata, is_positive}
use sim_search.Ps.LocalStorager.{create_or_load_node_mata}
use sim_search.Ps.Main.{recover}
use sim_search.Ps.Register
use sim_search.Ps.Register.{PsRegister, launch_register}
use sim_search.Ps.Rpc.{Ps}
use sim_search.Ps.Server
use sim_search.Ps.Server.{wait_brpc_stop}

-- It returns -1, or 0 with the world after, or it has used up its rounds.
pub data Outcome (W : Type 0) : Type 0 where
  exited : Outcome W
  ended : W → Outcome W
  working : Outcome W

abbrev pub new_register : PsRegister
new_register = record { etcd_cli = new_etcd_client; ip = []; port = 0; id = 0; node_v = [] }

module _ {W PutResp : Type 0} (braft : Braft W) (gamma : Gamma W) (fs : FileSystem W)
    (node_json : Codec PsNodeInfo) (space_json : Codec CreateSpaceRequest) (http : Http W)
    (server : RpcServer W) (id_json : Conversion MasterGenIdRequest MasterGenIdResponse)
    (register_json : Conversion RegisterRequest RegisterResponse) (grant_json : Conversion ℕ ℕ)
    (put_json : Conversion PutRequest PutResp) (alive_json : Conversion ℕ ℕ) (g : Globals) where
  -- The registration, and the wait for the end, or the end of a server that the masters refuse.
  unfoldable pub register_and_wait : ℕ → Ps W → Outcome W
  unfolding Register.init get_master_ip_ports launch_register wait_brpc_stop
      LocalMata.delete_node_info codes
  register_and_wait rounds s =
      let info = s.mata.ps_node_info in
      let (regist, ready, w1) =
        Register.init http new_register (get_master_ip_ports g.toml) (codes "rr") info.ps_ip
          info.ps_port (to_index info.ps_id) s.world in
      let (done, w2) =
        launch_register http register_json g.toml.master_urls grant_json put_json alive_json rounds
          s.mata.has_space regist g.toml.ps.hearbeat_interval_s w1 in
      elim done [
        | none ↦ working
        | some false ↦ ended (LocalMata.delete_node_info fs s.mata w2).1
        | some true ↦ elim (wait_brpc_stop server braft rounds s.block w2) [
          | none ↦ working
          | some w3 ↦ ended w3
        ]
      ]

  unfoldable pub main : ℕ → W → Outcome W
  unfolding create_or_load_node_mata Server.start recover ps_config register_and_wait
  main rounds w =
      let config = ps_config g in
      let (m, node_id, w1) =
        create_or_load_node_mata http id_json config fs node_json space_json new_mata
          g.ps_storage_dir w in
      let (msg, w2) = Server.start server g.toml.ps.rpc_port w1 in
      if not (is_positive node_id)
      then exited
      else if not (is_empty msg)
      then exited
      else elim (recover braft gamma config (record { mata = m; block = none; world = w2 })) [
        | none ↦ exited
        | some s ↦ register_and_wait rounds s
      ]

-- The whole, from the flags on; none where `InitConfig` reads a directory where there is none.
unfoldable pub run :
    {W PutResp Value : Type 0}
    → Braft W
    → Gamma W
    → FileSystem W
    → Codec PsNodeInfo
    → Codec CreateSpaceRequest
    → Http W
    → RpcServer W
    → Conversion MasterGenIdRequest MasterGenIdResponse
    → Conversion RegisterRequest RegisterResponse
    → Conversion ℕ ℕ
    → Conversion PutRequest PutResp
    → Conversion ℕ ℕ
    → Toml Value
    → (Str → ℕ)
    → Option (List Interface)
    → Flags
    → ℕ
    → W
    → Option (Outcome W)
unfolding init_config main codes
run braft gamma fs node_json space_json http server id_json register_json grant_json put_json
      alive_json toml atoi interfaces flags rounds w =
    elim (init_config fs toml atoi interfaces new_globals flags.ip flags.port [] flags.conf
      (codes "./logs") w) [
        | none ↦ none
        | some (g, returned, w') ↦ some (
            main braft gamma fs node_json space_json http server id_json register_json grant_json
              put_json alive_json g rounds w')
      ]
