-- ===== src/Cluster/Upserts.antt =====
-- service/router/partition_connection.cc, UpsertDocs, through to raft_store/raft_store.cc, on_apply: what the
-- group of a partition keeps while the router writes to it.
use sim_search.Prelude.{
  ◌≡◌, refl, sym, Bool, true, false, ◌&&◌, Option, none, some, Option-cases, inl, inr, if-both,
  true-false, All, Str,
}
use mathlib.Core.List.{Mem}
use sim_search.Common.Messages.{Space, Document, BlockRequest, BlockResponse}
use sim_search.External.Braft.{Braft}
use sim_search.External.Codec.{Codec}
use sim_search.External.Gamma.{Gamma}
use sim_search.External.Network.{Network}
use sim_search.Ps.RaftRpc
use sim_search.Raft.Block.{Block, Task}
use sim_search.Raft.Client.{cleared}
use sim_search.Raft.Client.Keeps.{Keeps, Stores}
use sim_search.Router.Hashing.{DocsGroup}
use sim_search.Router.Partition.{PartitionConnetion, upsert_docs}
use sim_search.Router.Partition.Stored.{IsSettled, upsert_docs-keeps, upsert_docs-AreSettled}
use sim_search.Cluster.{
  Environment, Group, is_none, deliver, serve_task, serve, raft_write, network,
}
use sim_search.Cluster.Logged.{raft_write-success}
use sim_search.Cluster.Replayed.{IsReplayed, deliver-IsReplayed, deliver-log}

is_none-none : {A : Type 0} (o : Option A) → is_none o ≡ true → o ≡ none
is_none-none none h = refl
is_none-none (some a) h = absurd (true-false (sym h))

and-true : (a b : Bool) → (a && b) ≡ true → b ≡ true
and-true true b h = h
and-true false b h = absurd (true-false (sym h))

module _ {E W : Type 0} (environment : Environment E) (braft : Braft W) (gamma : Gamma W)
    (docs : Codec Document) (space : Space) (requests : Codec BlockRequest) where
  abbrev pub group_net : Network (Group E W)
  group_net = network environment braft gamma docs space requests

  -- What a change of the environment and a delivery keep.
  module _ (Q : Group E W → Type 0)
      (moves : (e : E) (g : Group E W) → Q g → Q (record g { env = e }))
      (delivers : (b : Block) (t : Task) (g : Group E W)
        → g.refused ≡ none
        → Q g
        → Q (deliver environment braft gamma docs space requests b t g).1) where
    serve_task-keeps :
        (b : Block) (t : Task) (g : Group E W)
        → Q g
        → Q (serve_task environment braft gamma docs space requests b t g).1
    unfolding serve_task
    serve_task-keeps b t g h =
        let (env', committed) = environment.commits t g.env in
        let g' : Group E W = record g { env = env' } in
        if-both (λ (r : BlockResponse × Group E W). Q r.1) (committed && is_none g.refused)
          (λ e. delivers b t g' (is_none-none g.refused (and-true committed _ e)) (moves env' g h))
          (λ e. moves env' g h)

    serve-keeps :
        (block : Option Block) (req : BlockRequest) (data_text : Str) (g : Group E W)
        → Q g
        → Q (serve environment braft gamma docs space requests block req data_text g).1
    unfolding serve
    serve-keeps none req data_text g h = h
    serve-keeps (some b) req data_text g h =
        elim (Option-cases
          (RaftRpc.write braft requests.print (some b) req cleared data_text g.engine).1) [
            | inl e ↦ rw (e, serve) h
            | inr (t, e) ↦ rw (e, serve) (serve_task-keeps b t g h)
          ]

    pub raft_write-keeps :
        (leader : Str) (req : BlockRequest) (data_text : Str) (g : Group E W)
        → Q g
        → Q (raft_write environment braft gamma docs space requests leader req data_text g).0
    unfolding raft_write
    raft_write-keeps leader req data_text g h =
        elim (Option-cases (environment.server_at leader g.env)) [
          | inl e ↦ rw (e, raft_write) h
          | inr (block, e) ↦ rw (e, raft_write) (moves _ _ (serve-keeps block req data_text g h))
        ]

    network-Keeps : Keeps group_net Q
    unfolding network
    network-Keeps = record {
      is_asked_to_quit = λ g h. moves _ g h;
      select_leader = λ group g h. moves _ g h;
      refresh_leader = λ group g h. moves _ g h;
      update_leader = λ group leader g h. moves _ g h;
      channel_init = λ addr g h. moves _ g h;
      raft_write = raft_write-keeps;
    }

  network-IsReplayed : (w0 : W) → Keeps group_net (IsReplayed gamma docs space w0)
  network-IsReplayed w0 =
      network-Keeps (IsReplayed gamma docs space w0) (λ e g h. h)
        (λ b t g r h. deliver-IsReplayed environment braft gamma docs space requests b t w0 g r h)

  abbrev pub IsLogged : Str → Group E W → Type 0
  IsLogged d g = Mem d g.log

  network-Stores : Stores group_net IsLogged
  unfolding network
  network-Stores = record {
    keeps = λ d.
        network-Keeps (IsLogged d) (λ e g m. m)
          (λ b t g r m. deliver-log environment braft gamma docs space requests b t g d m);
    stores = raft_write-success environment braft gamma docs space requests;
  }

  -- If the engine of a partition's group took all of the group's log, from the world w0 on, and then
  -- refused what the group says that it refused, then this is so again after the router's UpsertDocs to
  -- that group, whatever calls, answers and commits fail; and the key of each document is in the map of
  -- errors, or its bytes are in the log.
  pub upsert_docs-IsReplayed :
      (serialize : Document → Option Str) (p : PartitionConnetion) (docs_grp : DocsGroup) (w0 : W)
      (g : Group E W)
      → IsReplayed gamma docs space w0 g
      → IsReplayed gamma docs space w0 (upsert_docs group_net serialize p docs_grp g).0
        × All
            (IsSettled serialize IsLogged
              (upsert_docs group_net serialize p docs_grp g).2
              (upsert_docs group_net serialize p docs_grp g).0)
            docs_grp.pb_doc_infos
  upsert_docs-IsReplayed serialize p docs_grp w0 g h = (
    upsert_docs-keeps group_net serialize (IsReplayed gamma docs space w0) (network-IsReplayed w0) p
        docs_grp g h,
    upsert_docs-AreSettled group_net serialize IsLogged network-Stores p docs_grp g,
  )
