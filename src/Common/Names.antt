-- ===== src/Common/Names.antt =====
-- common/common.cc: the texts that name a space, a raft group's configuration and the nodes in etcd.
-- A port and an id are non-negative here.
use sim_search.Prelude.{ℕ, List, [], ◌∷◌, ◌++◌, Str, codes, to_string}
use sim_search.Common.Messages.{Replica, Partition}

unfoldable pub gen_space_key : Str → Str → Str
unfolding codes
gen_space_key db_name space_name = db_name ++ codes "-" ++ space_name

unfoldable pub raft_conf_of : List Replica → Str
raft_conf_of [] = []
raft_conf_of (r ∷ replicas) =
    (r.ps_ip ++ codes ":" ++ to_string r.ps_port ++ codes ":0,") ++ raft_conf_of replicas

unfoldable pub get_raft_conf : Partition → Str
unfolding raft_conf_of
get_raft_conf pb_partition = raft_conf_of pb_partition.replicas

-- config/conf.cc
abbrev pub ps_register_prefix : Str
ps_register_prefix = codes "/nodes/ps/"

abbrev pub router_register_prefix : Str
router_register_prefix = codes "/nodes/router/"

unfoldable pub get_ps_register_key_prefix_with_ip_and_port : Str → ℕ → Str
get_ps_register_key_prefix_with_ip_and_port ip port =
    ps_register_prefix ++ codes ":" ++ ip ++ codes ":" ++ to_string port ++ codes ":"

unfoldable pub get_ps_register_kv : Str → ℕ → ℕ → Str × Str
get_ps_register_kv ip port ps_id = (
  ps_register_prefix
      ++ codes ":"
      ++ ip
      ++ codes ":"
      ++ to_string port
      ++ codes ":"
      ++ to_string ps_id,
  to_string port,
)

unfoldable pub gen_router_node_key : Str → ℕ → Str
gen_router_node_key node_ip port =
    router_register_prefix ++ codes ":" ++ node_ip ++ codes ":" ++ to_string port
