-- ===== src/Conf.antt =====
-- config/conf.cc: the configuration of a process, in its global variables. atoi and the interfaces of the
-- host are parameters. Ports are not negative here.
pub mod Toml
use sim_search.Prelude.{
  ℕ, Bool, true, false, not, List, [], ◌∷◌, ◌++◌, Option, none, some, if◌then◌else◌, is_empty, Str,
  codes,
}
use sim_search.External.FileSystem.{FileSystem}
use sim_search.External
use sim_search.Utils.Net.{Interface, get_local_ip_address}
use sim_search.Ps.LocalStorager.{Config}
use Toml.{TomlConfig, load, new_config}

pub record Globals : Type 0 where
  pub cur_ip : Str
  pub data_dir : Str
  pub router_store_dir : Str
  pub ps_storage_dir : Str
  pub raft_root_dir : Str
  pub engine_data_dir : Str
  pub log_dir : Str
  pub toml : TomlConfig

abbrev pub new_globals : Globals
new_globals = record {
  cur_ip = [];
  data_dir = [];
  router_store_dir = [];
  ps_storage_dir = [];
  raft_root_dir = [];
  engine_data_dir = [];
  log_dir = [];
  toml = new_config;
}

-- The flags of the command line, which are the same for both programs.
pub record Flags : Type 0 where
  pub ip : Str
  pub port : Str
  pub conf : Str

-- A flag of the command line takes the place of a port of the file.
abbrev pub port_or : (Str → ℕ) → Str → ℕ → ℕ
port_or atoi flag port = if is_empty flag then port else atoi flag

unfoldable pub with_ports : (Str → ℕ) → Str → Str → Globals → Globals
with_ports atoi ps_port router_port g = record g {
  toml = record g.toml {
    ps = record g.toml.ps { rpc_port = port_or atoi ps_port g.toml.ps.rpc_port };
    router = record g.toml.router { port = port_or atoi router_port g.toml.router.port };
  };
}

-- `_cur_IP`, and whether it is there.
unfoldable pub choose_ip : Option (List Interface) → Str → Str → Str × Bool
unfolding get_local_ip_address
choose_ip interfaces ip cur_ip =
    if is_empty ip then get_local_ip_address interfaces cur_ip else (ip, true)

module _ {W : Type 0} (fs : FileSystem W) where
  -- The directories below the first of the file, which is made; none where it has none, which the
  -- source reads all the same.
  unfoldable pub with_dirs : Globals → W → Option (Globals × Bool × W)
  unfolding codes
  with_dirs g w = elim g.toml.global.data_dirs [
    | [] ↦ none
    | data_dir ∷ rest ↦ some (
      record g {
        data_dir = data_dir;
        router_store_dir = data_dir ++ codes "router_storage";
        ps_storage_dir = data_dir ++ codes "ps_storage";
        raft_root_dir = data_dir ++ codes "raft_data";
        engine_data_dir = data_dir ++ codes "engine_data";
      },
      true,
      (fs.create_directory data_dir w).0,
    )
  ]

  -- The variables that it leaves, and whether it returns 0.
  unfoldable pub init_config :
      {Value : Type 0}
      → External.Toml.Toml Value
      → (Str → ℕ)
      → Option (List Interface)
      → Globals
      → Str
      → Str
      → Str
      → Str
      → Str
      → W
      → Option (Globals × Bool × W)
  unfolding load choose_ip with_ports with_dirs
  init_config toml atoi interfaces g ip ps_port router_port toml_file log_dir w =
      let (msg, conf) = load toml toml_file g.toml in
      let g1 : Globals = record g { toml = conf; log_dir = log_dir } in
      let (cur_ip, has_ip) = choose_ip interfaces ip g.cur_ip in
      let g2 : Globals = record g1 { cur_ip = cur_ip } in
      if not (is_empty msg)
      then some (g1, false, w)
      else if not has_ip
      then some (g2, false, w)
      else with_dirs (with_ports atoi ps_port router_port g2) w

-- What the partition server reads of them.
unfoldable pub ps_config : Globals → Config
ps_config g = record {
  cur_ip = g.cur_ip;
  raft_root_dir = g.raft_root_dir;
  engine_data_dir = g.engine_data_dir;
  rpc_port = g.toml.ps.rpc_port;
  master_urls = g.toml.master_urls;
  raft_election_timeout_ms = g.toml.ps.raft_election_timeout_ms;
  raft_snap_interval_s = g.toml.ps.raft_snap_interval_s;
}
