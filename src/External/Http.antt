-- ===== src/External/Http.antt =====
-- Calls over http, by brpc's channels, with json2pb, and the random numbers of the standard library.
use sim_search.Prelude.{ℕ, ◌≤◌, Bool, Option, Str}

pub record Http (W : Type 0) : Type 0 where
  pub random : ℕ → ℕ → W → W × ℕ
  pub random_bounds :
      (min max : ℕ) (w : W)
      → min ≤ max
      → (min ≤ (random min max w).1) × ((random min max w).1 ≤ max)
  -- The address and the load balancer.
  pub channel_init : Str → Str → W → W × Bool
  -- The address, the path and the body; none: the call failed.
  pub post : Str → Str → Str → W → W × Option Str

-- The conversion of a request and of its response. The parser fills a message that may hold fields
-- already, and a response is as it leaves that message, also where it fails.
pub record Conversion (Req Resp : Type 0) : Type 0 where
  pub print : Req → Option Str
  pub parse : Str → Resp → Resp × Bool
  pub empty : Resp
