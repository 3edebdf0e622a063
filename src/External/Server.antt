-- ===== src/External/Server.antt =====
-- brpc's server, as the two programs use one, and what they ask of the process.
use sim_search.Prelude.{ℕ, Bool, Str}

pub record RpcServer (W : Type 0) : Type 0 where
  -- A service by its name, with the restful mappings of its methods.
  pub add_service : Str → Str → W → W × Bool
  pub add_raft_service : ℕ → W → W × Bool
  pub start : ℕ → W → W × Bool
  pub is_asked_to_quit : W → W × Bool
  pub stop : W → W
  pub join : W → W
