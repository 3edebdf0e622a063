-- ===== src/External/Braft.antt =====
-- braft's node, and the calls of butil that set one up, as raft_store.cc uses them.
use sim_search.Prelude.{ℕ, Bool, Option, Str}

-- What `start` puts in braft::NodeOptions, with the group and the peer of the node.
pub record NodeOptions : Type 0 where
  pub group : Str
  pub peer : Str
  pub initial_conf : Str
  pub election_timeout_ms : ℕ
  pub snapshot_interval_s : ℕ
  pub log_uri : Str
  pub raft_meta_uri : Str
  pub snapshot_uri : Str

pub record Braft (W : Type 0) : Type 0 where
  pub create_directory : Str → W → W × Bool
  -- none: the descriptor is negative.
  pub open_data : Str → W → W × Option ℕ
  pub is_endpoint : Str → Bool
  pub is_configuration : Str → Bool
  pub node_init : NodeOptions → W → W × Bool
  -- `leader_id` of the node; the empty text for the empty peer.
  pub leader_id : NodeOptions → W → Str
  pub node_shutdown : NodeOptions → W → W
  pub node_join : NodeOptions → W → W
  pub delete_tree : Str → W → W × Bool
