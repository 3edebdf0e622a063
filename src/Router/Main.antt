-- ===== src/Router/Main.antt =====
-- service/router_main.cc: the program of the router. That `InitConfig` failed is not looked at, nor is the
-- result of `Init` of the local list and of the registration.
use sim_search.Prelude.{
  ℕ, Bool, true, false, List, [], Option, none, some, if◌then◌else◌, is_empty, Str, codes,
}
use sim_search.Clients.Etcd.{PutRequest, get_range_end, new_etcd_client}
use sim_search.Clients.Etcd.Calls.{call_range}
use sim_search.Common.Messages.{Space}
use sim_search.Conf.{Globals, Flags, new_globals, init_config}
use sim_search.External.Toml.{Toml}
use sim_search.Utils.Net.{Interface}
use sim_search.Conf.Toml.{get_master_ip_ports}
use sim_search.External.Codec.{Codec}
use sim_search.External.FileSystem.{FileSystem}
use sim_search.External.Http.{Http, Conversion}
use sim_search.External.Network.{Network}
use sim_search.External.Server.{RpcServer}
use sim_search.Router.LocalSpaces
use sim_search.Router.LocalSpaces.{LocalSpaces}
use sim_search.Router.Manager
use sim_search.Router.Manager.{Router, new_manager}
use sim_search.Router.Register
use sim_search.Router.Register.{RouterRegister}
use sim_search.Router.Server
use sim_search.Router.Space.{SpaceConnection, connector}

-- The request for the spaces; the order of the keys, which it asks for too, is left out.
pub record RangeRequest : Type 0 where
  pub key : Str
  pub range_end : Str

unfoldable pub etcd_space_prefix : Str
unfolding codes
etcd_space_prefix = codes "/spaces/mata"

unfoldable pub local_spaces_name : Str
unfolding codes
local_spaces_name = codes "local_spaces.json"

abbrev pub new_register : RouterRegister
new_register = record { etcd_cli = new_etcd_client; ip = []; port = 0; node_k = []; node_v = [] }

abbrev pub new_local : LocalSpaces
new_local = record { filename = []; path = []; pb_spaces = [] }

module _ {W PutResp : Type 0} (hash : Str → ℕ) (fs : FileSystem W) (json : Codec (List Space))
    (parse_space : Str → Space × Option Str) (net : Network W) (server : RpcServer W)
    (http : Http W) (range_json : Conversion RangeRequest (List Str)) (grant_json : Conversion ℕ ℕ)
    (put_json : Conversion PutRequest PutResp) (alive_json : Conversion ℕ ℕ) where
  -- The answer of etcd to the request of `SpaceManager::Init`: the values, none for a failed call.
  unfoldable pub ask_spaces : RouterRegister → W → Option (List Str) × W
  unfolding call_range get_range_end etcd_space_prefix
  ask_spaces regist w =
      let req : RangeRequest = record {
        key = etcd_space_prefix;
        range_end = get_range_end etcd_space_prefix;
      } in
      let (done, values, w') = call_range http range_json regist.etcd_cli req range_json.empty w in
      (if done then some values else none, w')

  -- Up to the registration; none: it returns -1.
  unfoldable pub start_router :
      Globals → W → Option (Router SpaceConnection W × RouterRegister × Option ℕ) × W
  unfolding LocalSpaces.init Register.init codes get_master_ip_ports Server.start ask_spaces
      new_manager Manager.init connector Register.launch_register local_spaces_name
  start_router g w =
      let (local, made, w1) =
        LocalSpaces.init fs new_local g.router_store_dir local_spaces_name w in
      let (regist, ready, w2) =
        Register.init http new_register (get_master_ip_ports g.toml) (codes "rr") g.cur_ip
          g.toml.router.port w1 in
      let (not_started, w3) = Server.start server g.toml.router.port w2 in
      let (range, w4) = ask_spaces regist w3 in
      let r : Router SpaceConnection W = record {
        manager = new_manager;
        local = local;
        world = w4;
      } in
      let (msg, r') = Manager.init hash fs json (connector net) parse_space r 1000 range in
      let (lease, w5) =
        Register.launch_register http grant_json put_json alive_json regist
          g.toml.router.hearbeat_interval_s r'.world in
      if not_started
      then (none, w3)
      else if is_empty msg
      then (some (record r' { world = w5 }, regist, lease), w5)
      else (none, r'.world)

  -- Whether it returns 0, and the world; none where it still waits after these rounds.
  unfoldable pub main : ℕ → Globals → W → Option (Bool × W)
  unfolding start_router Server.wait_brpc_stop
  main rounds g w =
      let (started, w') = start_router g w in
      elim started [
        | none ↦ some (false, w')
        | some state ↦ elim (Server.wait_brpc_stop server rounds w') [
          | none ↦ none
          | some w'' ↦ some (true, w'')
        ]
      ]

  -- The whole, from the flags on; none where it still waits, or `InitConfig` reads a directory where there
  -- is none.
  unfoldable pub run :
      {Value : Type 0}
      → Toml Value
      → (Str → ℕ)
      → Option (List Interface)
      → Flags
      → ℕ
      → W
      → Option (Bool × W)
  unfolding init_config main codes
  run toml atoi interfaces flags rounds w =
      elim (init_config fs toml atoi interfaces new_globals flags.ip [] flags.port flags.conf
        (codes "./logs") w) [ none ↦ none | some (g, returned, w') ↦ main rounds g w' ]
