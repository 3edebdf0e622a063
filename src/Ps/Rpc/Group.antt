-- ===== src/Ps/Rpc/Group.antt =====
-- raft_store/raft_store.cc and service/ps/local_storager.cc: the node with which a server starts its raft
-- group.
use sim_search.Prelude.{
  ℕ, ◌≡◌, refl, sym, ◌∙◌, subst, Bool, true, false, [], ◌++◌, Option, none, some, if◌then◌else◌,
  is_empty, Str, codes, to_string, arith,
}
use sim_search.Common.Messages.{Space, CreateSpaceRequest}
use sim_search.Common.Names.{get_raft_conf}
use sim_search.Ps.LocalMata.{LocalMata}
use sim_search.Ps.LocalStorager.{Config, get_raft_params, get_raft_root}
use sim_search.Ps.Rpc.{params_or_empty}
use sim_search.External.Braft.{Braft, NodeOptions}
use sim_search.Raft.Block.{
  Block, new_block, node_options, start, create_block, start_raft_server, start_failed,
}

-- The node of a block, if there is one.
abbrev pub node_of : Option Block → Option NodeOptions
node_of none = none
node_of (some b) = b.node

module _ {W : Type 0} (braft : Braft W) where
  start-node :
      (b : Block) (root_path group conf my_ip : Str) (port : ℕ) (space : Space)
      (election interval : ℕ) (w : W)
      → let (b', done, w') =
          start braft b root_path group conf my_ip port space election interval w in
        b'.node ≡ (
          if done
          then some (
              node_options
                (record b { root_path = root_path; group = group; conf = conf })
                (my_ip ++ codes ":" ++ to_string port)
                election
                interval)
          else b.node)
  unfolding start node_options
  start-node b root_path group conf my_ip port space election interval w = ground arith

  -- The node of the group that a request is for, on a server with this address.
  abbrev pub group_node : Config → Str → CreateSpaceRequest → NodeOptions
  group_node config my_ip req =
      node_options
        (record new_block {
          root_path = config.raft_root_dir ++ codes "/" ++ req.cur_partition.group_name;
          group = req.cur_partition.group_name;
          conf = get_raft_conf req.cur_partition;
        })
        (my_ip ++ codes ":" ++ to_string config.rpc_port) config.raft_election_timeout_ms
        config.raft_snap_interval_s

  abbrev pub start_with :
      Config
      → Str
      → Option (Str × Str × Str × ℕ)
      → Option Block
      → Space
      → W
      → Option Block × Str × W
  start_with config my_ip params block space w =
      let (root_path, group, conf, port) = params_or_empty params in
      let (block1, w1) = create_block braft block w in
      start_raft_server braft block1 root_path group conf my_ip port space
        config.raft_election_timeout_ms config.raft_snap_interval_s w1

  -- What CreateSpace and a start of the server do to start the group.
  abbrev pub start_group : Config → LocalMata → Option Block → Space → W → Option Block × Str × W
  start_group config m = start_with config m.ps_node_info.ps_ip (get_raft_params config m)

  abbrev pub HasNode : NodeOptions → Option Block × Str × W → Type 0
  HasNode options r = node_of r.0 ≡ (if is_empty r.1 then some options else none)

  get_raft_params-has_space :
      (config : Config) (m : LocalMata)
      → m.has_space ≡ true
      → get_raft_params config m
        ≡ some (
          config.raft_root_dir ++ codes "/" ++ m.space_req.cur_partition.group_name,
          m.space_req.cur_partition.group_name,
          get_raft_conf m.space_req.cur_partition,
          config.rpc_port,
        )
  unfolding get_raft_params get_raft_root
  get_raft_params-has_space config m h = rw (get_raft_params, get_raft_root, h) refl

  by_message :
      (done : Bool) (o : Option NodeOptions)
      → (if done then o else none)
        ≡ (if is_empty (if done then [] else start_failed braft) then o else none)
  unfolding start_failed codes
  by_message true o = refl
  by_message false o = refl

  start_with-HasNode :
      (config : Config) (my_ip root_path group conf : Str) (port : ℕ) (block : Option Block)
      (space : Space) (w : W)
      → HasNode
          (node_options
            (record new_block { root_path = root_path; group = group; conf = conf })
            (my_ip ++ codes ":" ++ to_string port)
            config.raft_election_timeout_ms
            config.raft_snap_interval_s)
          (start_with config my_ip (some (root_path, group, conf, port)) block space w)
  unfolding create_block start_raft_server new_block
  start_with-HasNode config my_ip root_path group conf port block space w =
      let w1 = (create_block braft block w).1 in
      start-node new_block root_path group conf my_ip port space config.raft_election_timeout_ms
        config.raft_snap_interval_s w1
      ∙ by_message
          (start braft new_block root_path group conf my_ip port space
            config.raft_election_timeout_ms config.raft_snap_interval_s w1).1
          (some _)

  -- A group that starts has the node of the request, and one that does not has none.
  pub start_group-HasNode :
      (config : Config) (m : LocalMata) (block : Option Block) (space : Space) (w : W)
      → m.has_space ≡ true
      → HasNode
          (group_node config m.ps_node_info.ps_ip m.space_req)
          (start_group config m block space w)
  start_group-HasNode config m block space w h =
      subst
        (λ params.
          HasNode (group_node config m.ps_node_info.ps_ip m.space_req)
            (start_with config m.ps_node_info.ps_ip params block space w))
        (sym (get_raft_params-has_space config m h))
        (start_with-HasNode config m.ps_node_info.ps_ip _ _ _ _ block space w)
