-- ===== src/Router/Register.antt =====
-- service/router/router_register.cc: the router's key in etcd.
use sim_search.Prelude.{ℕ, Bool, List, Option, Str, to_string}
use sim_search.Common.Names.{gen_router_node_key}
use sim_search.Clients.Etcd
use sim_search.Clients.Etcd.{EtcdClient, PutRequest}
use sim_search.External.Http.{Http, Conversion}

pub record RouterRegister : Type 0 where
  pub etcd_cli : EtcdClient
  pub ip : Str
  pub port : ℕ
  pub node_k : Str
  pub node_v : Str

module _ {W : Type 0} (http : Http W) where
  -- Whether it returns 0.
  unfoldable pub init :
      RouterRegister → List (Str × ℕ) → Str → Str → ℕ → W → RouterRegister × Bool × W
  unfolding Etcd.init gen_router_node_key to_string
  init r master_ip_ports lb ip port w =
      let (etcd_cli, done, w') = Etcd.init http r.etcd_cli master_ip_ports lb w in
      (
        record {
          etcd_cli = etcd_cli;
          ip = ip;
          port = port;
          node_k = gen_router_node_key ip port;
          node_v = to_string port;
        },
        done,
        w',
      )

  -- `LaunchRegister`: what the thread that it starts does before its loop, with the lease.
  unfoldable pub launch_register :
      {PutResp : Type 0}
      → Conversion ℕ ℕ
      → Conversion PutRequest PutResp
      → Conversion ℕ ℕ
      → RouterRegister
      → ℕ
      → W
      → Option ℕ × W
  unfolding Etcd.start_keep_alive
  launch_register grant_json put_json alive_json r hearbeat_interval_s w =
      Etcd.start_keep_alive http grant_json put_json alive_json r.etcd_cli r.node_k r.node_v
        hearbeat_interval_s w
