-- ===== src/Ps/Mock.antt =====
-- service/ps/ps_rpc.cc, MockGet over the engine, with the call of it in clients/ps_rpc_client.cc. atoi is a
-- parameter, whose results are the numbers of their bits.
use sim_search.Prelude.{ℕ, List, [], ◌∷◌, if◌then◌else◌, ◌++◌, Str, codes}
use sim_search.Engine
use sim_search.Engine.{Engine}
use sim_search.External.Files.{Files}
use sim_search.External.Network.{RpcResult}
use sim_search.Clients.PsRpc.{PsRpcClient, query_ps_rpc_imp}

pub record MockDoc : Type 0 where
  pub key : Str
  pub val : Str

pub record MockGetRequest : Type 0 where
  pub keys : List Str
  pub key_type : ℕ

pub record MockGetResponse : Type 0 where
  pub code : ℕ
  pub msg : Str
  pub docs : List MockDoc

module _ {W : Type 0} (files : Files W) (atoi : Str → ℕ) where
  -- The loop over the keys.
  unfoldable pub docs_of : Engine → List Str → W → List MockDoc
  unfolding Engine.get
  docs_of engine [] w = []
  docs_of engine (k ∷ keys) w =
      record { key = k; val = Engine.get files engine (atoi k) w } ∷ docs_of engine keys w

  -- Each document joins those of the response.
  unfoldable pub mock_get : Engine → MockGetRequest → MockGetResponse → W → MockGetResponse
  unfolding docs_of
  mock_get engine req resp w = record {
    code = 0;
    msg = [];
    docs = resp.docs ++ docs_of engine req.keys w;
  }

unfoldable pub no_mock_stub : Str → Str
unfolding codes
no_mock_stub addr_port =
    codes "addr_port:" ++ addr_port ++ codes " stub is nullptr, not run MockGet()"

-- The client's call; `ask` is the stub's method, with the address.
unfoldable pub ask_mock_get :
    {W : Type 0}
    → (Str → MockGetRequest → W → W × RpcResult MockGetResponse)
    → PsRpcClient
    → List Str
    → MockGetResponse
    → W
    → W × Str × MockGetResponse
unfolding query_ps_rpc_imp no_mock_stub codes
ask_mock_get ask c keys resp w =
    let (w', result) = ask c.addr_port (record { keys = keys; key_type = 1 }) w in
    let (msg, resp') = query_ps_rpc_imp (codes "MockGet") result resp in
    if c.stub then (w', msg, resp') else (w, no_mock_stub c.addr_port, resp)
