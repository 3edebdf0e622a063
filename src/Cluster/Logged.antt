-- ===== src/Cluster/Logged.antt =====
-- service/ps/raft_rpc.cc and raft_store/raft_store.cc, write, in a group: a success says that the
-- document is in the log.
use sim_search.Prelude.{
  ◌≡◌, refl, sym, ap, ◌∙◌, subst, Bool, true, false, ◌&&◌, Option, none, some, Bool-cases,
  Option-cases, inl, inr, if-both, true-false, Str,
}
use mathlib.Core.List.{Mem}
use sim_search.Prelude.Int.{is_negative}
use sim_search.Common.Messages.{Space, Document, BlockRequest, BlockResponse}
use sim_search.External.Braft.{Braft}
use sim_search.External.Codec.{Codec}
use sim_search.External.Gamma.{Gamma}
use sim_search.External.Network.{RpcResult, failed, reply}
use sim_search.Ps.RaftRpc
use sim_search.Raft.Block
use sim_search.Raft.Block.{Block, Task, redirect, run}
use sim_search.Raft.Client.{cleared}
use sim_search.Cluster.{Environment, Group, is_none, serve_task, serve, raft_write}
use sim_search.Cluster.Replayed.{redirect-fails, run-fails, deliver-success}

abbrev response_or : BlockResponse → RpcResult BlockResponse → BlockResponse
response_or r (failed error) = r
response_or r (reply s) = s

abbrev pub is_reply : RpcResult BlockResponse → Bool
is_reply (failed error) = false
is_reply (reply s) = true

abbrev data_or : Str → Option Task → Str
data_or d none = d
data_or d (some t) = t.done.data_text

module _ {E W : Type 0} (environment : Environment E) (braft : Braft W) (gamma : Gamma W)
    (docs : Codec Document) (space : Space) (requests : Codec BlockRequest) where
  write-fails :
      (b : Block) (req : BlockRequest) (data_text : Str) (w : W)
      → (RaftRpc.write braft requests.print (some b) req cleared data_text w).1 ≡ none
      → (RaftRpc.write braft requests.print (some b) req cleared data_text w).0.success ≡ false
  unfolding RaftRpc.write Block.write
  write-fails b req data_text w h = elim (Bool-cases (is_negative b.leader_term)) [
    | inl p ↦ rw (p, RaftRpc.write, Block.write) (redirect-fails braft b cleared w)
    | inr p ↦ elim (Option-cases (requests.print req)) [
      | inl e ↦ rw (p, e, RaftRpc.write, Block.write) refl
      | inr (text, e) ↦
          absurd (true-false (sym (ap is_none (rw (p, e, RaftRpc.write, Block.write) at h))))
    ]
  ]

  -- A task has the data of its write.
  write-data_text :
      (b : Block) (req : BlockRequest) (data_text : Str) (w : W)
      → data_or data_text (RaftRpc.write braft requests.print (some b) req cleared data_text w).1
        ≡ data_text
  unfolding RaftRpc.write Block.write
  write-data_text b req data_text w = elim (Bool-cases (is_negative b.leader_term)) [
    | inl p ↦ rw (p, RaftRpc.write, Block.write) refl
    | inr p ↦ elim (Option-cases (requests.print req)) [
      | inl e ↦ rw (p, e, RaftRpc.write, Block.write) refl
      | inr (text, e) ↦ rw (p, e, RaftRpc.write, Block.write) refl
    ]
  ]

  serve_task-success :
      (b : Block) (t : Task) (g : Group E W)
      → (serve_task environment braft gamma docs space requests b t g).0.success ≡ true
      → Mem t.done.data_text (serve_task environment braft gamma docs space requests b t g).1.log
  unfolding serve_task
  serve_task-success b t g =
      let (env', committed) = environment.commits t g.env in
      let g' : Group E W = record g { env = env' } in
      if-both (λ (r : BlockResponse × Group E W). r.0.success ≡ true → Mem t.done.data_text r.1.log)
        (committed && is_none g.refused)
        (λ e. deliver-success environment braft gamma docs space requests b t g')
        (λ e success. absurd (true-false (sym success ∙ run-fails braft b t.done g.engine)))

  no_block-fails :
      (req : BlockRequest) (data_text : Str) (g : Group E W)
      → (serve environment braft gamma docs space requests none req data_text g).0.success ≡ true
      → Mem data_text (serve environment braft gamma docs space requests none req data_text g).1.log
  unfolding serve RaftRpc.write
  no_block-fails req data_text g success = absurd (true-false (sym success))

  serve-success :
      (block : Option Block) (req : BlockRequest) (data_text : Str) (g : Group E W)
      → (serve environment braft gamma docs space requests block req data_text g).0.success ≡ true
      → Mem data_text
          (serve environment braft gamma docs space requests block req data_text g).1.log
  unfolding serve
  serve-success none req data_text g = no_block-fails req data_text g
  serve-success (some b) req data_text g =
      let w = RaftRpc.write braft requests.print (some b) req cleared data_text g.engine in
      elim (Option-cases w.1) [
        | inl e ↦
            rw (e, serve)
              (λ success.
                absurd (true-false (sym success ∙ write-fails b req data_text g.engine e)))
        | inr (t, e) ↦
            rw (e, serve)
              (λ success.
                subst
                  (λ d. Mem d (serve_task environment braft gamma docs space requests b t g).1.log)
                  (sym (ap (data_or data_text) e) ∙ write-data_text b req data_text g.engine)
                  (serve_task-success b t g success))
      ]

  pub raft_write-success :
      (leader : Str) (req : BlockRequest) (data_text : Str) (g : Group E W) (resp : BlockResponse)
      → (raft_write environment braft gamma docs space requests leader req data_text g).1
        ≡ reply resp
      → resp.success ≡ true
      → Mem data_text
          (raft_write environment braft gamma docs space requests leader req data_text g).0.log
  unfolding raft_write
  raft_write-success leader req data_text g resp =
      elim (Option-cases (environment.server_at leader g.env)) [
        | inl e ↦ rw (e, raft_write) (λ h success. absurd (true-false (sym (ap is_reply h))))
        | inr (block, e) ↦
            let (response, g') =
              serve environment braft gamma docs space requests block req data_text g in
            elim (Bool-cases (environment.answers g'.env).1) [
              | inr a ↦
                  rw (e, a, raft_write) (λ h success. absurd (true-false (sym (ap is_reply h))))
              | inl a ↦
                  rw (e, a, raft_write)
                    (λ h success.
                      serve-success block req data_text g
                        (ap (λ (r : BlockResponse). r.success) (ap (response_or resp) h) ∙ success))
            ]
      ]
