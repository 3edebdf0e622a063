-- ===== src/Clients/PsRpc.antt =====
-- clients/ps_rpc_client.cc, with BrpcOptions of common/brpc_options.{h,cc}. `stub` says whether the stub
-- was made.
use sim_search.Prelude.{Bool, true, false, List, [], ◌++◌, if◌then◌else◌, Str, codes}
use sim_search.Common.Messages.{GetResponse}
use sim_search.External.Network.{Network, RpcResult, failed, reply}

pub record PsRpcClient : Type 0 where
  pub addr_port : Str
  pub stub : Bool

abbrev pub new_client : PsRpcClient
new_client = record { addr_port = []; stub = false }

abbrev pub empty_response : GetResponse
empty_response = record { code = 0; msg = []; documents = []; failed_docs = [] }

unfoldable pub no_channel : Str → Str
unfolding codes
no_channel addr_port = codes "Fail to initialize channel, addr_and_port:" ++ addr_port

unfoldable pub no_stub : Str → Str
unfolding codes
no_stub addr_port = codes "addr_port:" ++ addr_port ++ codes " stub is nullptr, not run Get()"

unfoldable pub rpc_failed : Str → Str → Str
unfolding codes
rpc_failed op_type error = codes "Query Ps " ++ op_type ++ codes " rpc failed. error:" ++ error

-- `QueryPsRpcImp`, after the call of the stub's method.
unfoldable pub query_ps_rpc_imp : {Resp : Type 0} → Str → RpcResult Resp → Resp → Str × Resp
unfolding rpc_failed
query_ps_rpc_imp op_type (failed error) resp = (rpc_failed op_type error, resp)
query_ps_rpc_imp op_type (reply r) resp = ([], r)

module _ {W : Type 0} (net : Network W) where
  unfoldable pub init : PsRpcClient → Str → W → W × PsRpcClient × Str
  init c addr_port w =
      let (w', made) = net.channel_init addr_port w in
      if made
      then (w', record { addr_port = addr_port; stub = true }, [])
      else (w', record c { addr_port = addr_port }, no_channel addr_port)

  unfoldable pub get : PsRpcClient → List Str → GetResponse → W → W × Str × GetResponse
  unfolding query_ps_rpc_imp codes
  get c keys resp w =
      let (w', result) = net.ps_get c.addr_port keys w in
      let (msg, resp') = query_ps_rpc_imp (codes "Get") result resp in
      if c.stub then (w', msg, resp') else (w, no_stub c.addr_port, resp)

-- `Search`, which sends an empty request and drops the answer; `ask` is the stub's method.
unfoldable pub search : {W Resp : Type 0} → (Str → W → W × RpcResult Resp) → PsRpcClient → W → W
search ask c w = (ask c.addr_port w).0
