-- ===== src/External/Network.antt =====
-- brpc channels and stubs, braft's route table, and the random numbers of the standard library.
-- A peer is the text that `PeerId::to_string` gives, with the empty text for the empty peer.
use sim_search.Prelude.{ℕ, ◌≤◌, Bool, List, Option, Str}
use sim_search.Common.Messages.{GetResponse, BlockRequest, BlockResponse}

-- The outcome of a call through a stub: `cntl.ErrorText()`, or the response.
pub data RpcResult (A : Type 0) : Type 0 where
  failed : Str → RpcResult A
  reply : A → RpcResult A

pub record Network (W : Type 0) : Type 0 where
  pub random : ℕ → ℕ → W → W × ℕ
  pub random_bounds :
      (min max : ℕ) (w : W)
      → min ≤ max
      → (min ≤ (random min max w).1) × ((random min max w).1 ≤ max)
  pub channel_init : Str → W → W × Bool
  pub ps_get : Str → List Str → W → W × RpcResult GetResponse
  pub raft_write : Str → BlockRequest → Str → W → W × RpcResult BlockResponse
  -- braft::rtb
  pub update_configuration : Str → Str → W → W × Bool
  pub select_leader : Str → W → W × Option Str
  pub refresh_leader : Str → W → W × Bool
  pub update_leader : Str → Str → W → W
  pub is_asked_to_quit : W → W × Bool
