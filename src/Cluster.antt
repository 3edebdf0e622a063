-- ===== src/Cluster.antt =====
-- The group of a partition as the router meets it: service/ps/raft_rpc.cc and raft_store/raft_store.cc
-- behind raft_store/raft_client.cc. brpc carries a call to the handler of the server at an address, and its
-- response back; braft gives an entry that it commits to `on_apply` with the closure, in the order of the
-- log, and after an entry that is rolled back it gives no other. What is carried, who leads and what is
-- committed are parameters.
pub mod Replayed
pub mod Logged
pub mod Upserts
pub mod Spaces
pub mod Reads
use sim_search.Prelude.{
  ℕ, ◌≤◌, Bool, true, false, ◌&&◌, List, [], ◌∷◌, ◌++◌, Option, none, some, if◌then◌else◌, get_or,
  Str,
}
use sim_search.Common.Messages.{Space, Document, GetResponse, BlockRequest, BlockResponse}
use sim_search.External.Braft.{Braft}
use sim_search.External.Codec.{Codec}
use sim_search.External.Gamma.{Gamma}
use sim_search.External.Network.{Network, RpcResult, failed, reply}
use sim_search.Ps.RaftRpc
use sim_search.Raft.Block.{Block, BlockClosure, Task, run}
use sim_search.Raft.Block.Apply.{Entry, Halt, finished, rolled_back, stopped, apply_all}
use sim_search.Raft.Client.{cleared}

-- The rest of the world, with the calls of the router that do not reach a block.
pub record Environment (E : Type 0) : Type 0 where
  pub net : Network E
  -- The block of the server at an address; none: the call does not arrive.
  pub server_at : Str → E → Option (Option Block)
  pub commits : Task → E → E × Bool
  -- Whether the response comes back.
  pub answers : E → E × Bool
  pub lost : Str

-- The texts of the documents that the engine took, in their order, the one that it refused, after which
-- it is given no other, and its world.
pub record Group (E W : Type 0) : Type 0 where
  pub env : E
  pub log : List Str
  pub refused : Option Str
  pub engine : W

abbrev pub is_finished : Halt → Bool
is_finished finished = true
is_finished rolled_back = false
is_finished stopped = false

abbrev pub is_none : {A : Type 0} → Option A → Bool
is_none none = true
is_none (some a) = false

module _ {E W : Type 0} (environment : Environment E) (braft : Braft W) (gamma : Gamma W)
    (docs : Codec Document) (space : Space) (requests : Codec BlockRequest) where
  -- A committed task goes to the state machine, and its closure runs.
  unfoldable pub deliver : Block → Task → Group E W → BlockResponse × Group E W
  unfolding apply_all run
  deliver b t g =
      let entry : Entry = record { log = t.log; done = some t.done } in
      let applied = apply_all gamma docs space requests (entry ∷ []) g.engine in
      let closure : BlockClosure = record t.done {
        response = get_or applied.responses 0 t.done.response;
      } in
      if is_finished applied.halt
      then (
        run braft b closure true applied.world,
        record g { log = g.log ++ t.done.data_text ∷ []; engine = applied.world },
      )
      else (
        run braft b closure false applied.world,
        record g { refused = some t.done.data_text; engine = applied.world },
      )

  unfoldable pub serve_task : Block → Task → Group E W → BlockResponse × Group E W
  unfolding deliver run
  serve_task b t g =
      let (env', committed) = environment.commits t g.env in
      let g' : Group E W = record g { env = env' } in
      if committed && is_none g.refused
      then deliver b t g'
      else (run braft b t.done false g.engine, g')

  -- The handler of a write, and what becomes of its task.
  unfoldable pub serve : Option Block → BlockRequest → Str → Group E W → BlockResponse × Group E W
  unfolding RaftRpc.write serve_task
  serve none req data_text g =
      ((RaftRpc.write braft requests.print none req cleared data_text g.engine).0, g)
  serve (some b) req data_text g =
      let (response, task) =
        RaftRpc.write braft requests.print (some b) req cleared data_text g.engine in
      elim task [ none ↦ (response, g) | some t ↦ serve_task b t g ]

  unfoldable pub raft_write :
      Str → BlockRequest → Str → Group E W → Group E W × RpcResult BlockResponse
  unfolding serve
  raft_write leader req data_text g = elim (environment.server_at leader g.env) [
    | none ↦ (g, failed environment.lost)
    | some block ↦
        let (response, g') = serve block req data_text g in
        let (env', arrives) = environment.answers g'.env in
        (record g' { env = env' }, (if arrives then reply response else failed environment.lost))
  ]

  -- A call that concerns the environment alone.
  abbrev pub with_env : {A : Type 0} → Group E W → E × A → Group E W × A
  with_env g (env', a) = (record g { env = env' }, a)

  unfoldable pub network : Network (Group E W)
  unfolding raft_write
  network = record {
    random = λ min max g. with_env g (environment.net.random min max g.env);
    random_bounds = λ min max g h. environment.net.random_bounds min max g.env h;
    channel_init = λ addr g. with_env g (environment.net.channel_init addr g.env);
    ps_get = λ addr keys g. with_env g (environment.net.ps_get addr keys g.env);
    raft_write = raft_write;
    update_configuration =
        λ group conf g. with_env g (environment.net.update_configuration group conf g.env);
    select_leader = λ group g. with_env g (environment.net.select_leader group g.env);
    refresh_leader = λ group g. with_env g (environment.net.refresh_leader group g.env);
    update_leader =
        λ group leader g. record g { env = environment.net.update_leader group leader g.env };
    is_asked_to_quit = λ g. with_env g (environment.net.is_asked_to_quit g.env);
  }
