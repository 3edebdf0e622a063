-- ===== src/Cluster/Spaces.antt =====
-- The groups of all partitions of a space together: service/router/space_connection.cc, UpsertDocs, through
-- to raft_store/raft_store.cc, on_apply, of each group. A server is in one group at a time.
use sim_search.Prelude.{
  ℕ, ◌≡◌, sym, ap, subst, true, List, Option, none, some, arith, Option-cases, inl, inr,
  if◌then◌else◌, if-both, true-false, ◌==◌, ==_iff, All, Str,
}
use mathlib.Core.List.{Mem}
use sim_search.Common.Messages.{Space, Document, BlockRequest, BlockResponse}
use sim_search.External.Braft.{Braft}
use sim_search.External.Codec.{Codec}
use sim_search.External.Gamma.{Gamma}
use sim_search.External.Network.{Network, RpcResult, failed, reply}
use sim_search.Raft.Client.Keeps.{Keeps, Stores}
use sim_search.Router.Hashing.{DocsGroup}
use sim_search.Router.Partition.Stored.{IsSettled}
use sim_search.Router.Space.{SpaceConnection, upsert_docs}
use sim_search.Router.Space.Stored.{keeps_world, upsert_docs-AllSettled}
use sim_search.Cluster.{Environment, Group, raft_write}
use sim_search.Cluster.Logged.{raft_write-success, is_reply}
use sim_search.Cluster.Replayed.{IsReplayed, deliver-IsReplayed, deliver-log}
use sim_search.Cluster.Upserts.{raft_write-keeps}

-- The environment of a group is that of all.
pub record Groups (E W : Type 0) : Type 0 where
  pub env : E
  pub groups : ℕ → Group E W

module _ {E W : Type 0} where
  abbrev pub group_at : Groups E W → ℕ → Group E W
  group_at c i = record (c.groups i) { env = c.env }

  abbrev pub put_group : Groups E W → ℕ → Group E W → Groups E W
  put_group c i g = record { env = g.env; groups = λ j. if i == j then g else c.groups j }

  abbrev pub with_shared_env : {A : Type 0} → Groups E W → E × A → Groups E W × A
  with_shared_env c (env', a) = (record c { env = env' }, a)

module _ {E W : Type 0} (group_of : Str → E → Option ℕ) (environment : Environment E)
    (braft : Braft W) (gamma : Gamma W) (docs : Codec Document) (space : Space)
    (requests : Codec BlockRequest) where
  -- A write to the group of the server at the address.
  unfoldable pub raft_write_to :
      Str → BlockRequest → Str → Groups E W → Groups E W × RpcResult BlockResponse
  unfolding raft_write
  raft_write_to leader req data_text c = elim (group_of leader c.env) [
    | none ↦ (c, failed environment.lost)
    | some i ↦
        let (g, result) =
          raft_write environment braft gamma docs space requests leader req data_text
            (group_at c i) in
        (put_group c i g, result)
  ]

  unfoldable pub groups_net : Network (Groups E W)
  unfolding raft_write_to
  groups_net = record {
    random = λ min max c. with_shared_env c (environment.net.random min max c.env);
    random_bounds = λ min max c h. environment.net.random_bounds min max c.env h;
    channel_init = λ addr c. with_shared_env c (environment.net.channel_init addr c.env);
    ps_get = λ addr keys c. with_shared_env c (environment.net.ps_get addr keys c.env);
    raft_write = raft_write_to;
    update_configuration =
        λ group conf c. with_shared_env c (environment.net.update_configuration group conf c.env);
    select_leader = λ group c. with_shared_env c (environment.net.select_leader group c.env);
    refresh_leader = λ group c. with_shared_env c (environment.net.refresh_leader group c.env);
    update_leader =
        λ group leader c. record c { env = environment.net.update_leader group leader c.env };
    is_asked_to_quit = λ c. with_shared_env c (environment.net.is_asked_to_quit c.env);
  }

  abbrev pub AreReplayed : (ℕ → W) → Groups E W → Type 0
  AreReplayed w0 c = (i : ℕ) → IsReplayed gamma docs space (w0 i) (c.groups i)

  -- The text is in the log of some group.
  abbrev pub IsLoggedIn : Str → Groups E W → Type 0
  IsLoggedIn d c = (i : ℕ) × Mem d (c.groups i).log

  abbrev pub written : Str → BlockRequest → Str → Groups E W → ℕ → Group E W
  written leader req data_text c i =
      (raft_write environment braft gamma docs space requests leader req data_text (group_at c i)).0

  written-IsReplayed :
      (w0 : ℕ → W) (leader : Str) (req : BlockRequest) (data_text : Str) (c : Groups E W) (i : ℕ)
      → AreReplayed w0 c
      → AreReplayed w0 (put_group c i (written leader req data_text c i))
  written-IsReplayed w0 leader req data_text c i h = λ j.
      if-both (λ (g : Group E W). IsReplayed gamma docs space (w0 j) g) (i == j)
        (λ e.
          subst (λ k. IsReplayed gamma docs space (w0 k) (written leader req data_text c i))
            ((==_iff i j).0 e)
            (raft_write-keeps environment braft gamma docs space requests
              (IsReplayed gamma docs space (w0 i)) (λ e g h. h)
              (λ b t g r h.
                deliver-IsReplayed environment braft gamma docs space requests b t (w0 i) g r h)
              leader req data_text (group_at c i) (h i)))
        (λ e. h j)

  written-IsLoggedIn :
      (leader : Str) (req : BlockRequest) (data_text : Str) (c : Groups E W) (i : ℕ) (d : Str)
      → IsLoggedIn d c
      → IsLoggedIn d (put_group c i (written leader req data_text c i))
  written-IsLoggedIn leader req data_text c i d (k, m) = (
    k,
    if-both (λ (g : Group E W). Mem d g.log) (i == k)
        (λ e.
          raft_write-keeps environment braft gamma docs space requests
            (λ (g : Group E W). Mem d g.log) (λ e g m. m)
            (λ b t g r m. deliver-log environment braft gamma docs space requests b t g d m) leader
            req data_text (group_at c i)
            (subst (λ j. Mem d (c.groups j).log) (sym ((==_iff i k).0 e)) m))
        (λ e. m),
  )

  module _ (Q : Groups E W → Type 0)
      (moves : (e : E) (c : Groups E W) → Q c → Q (record c { env = e }))
      (writes : (leader : Str) (req : BlockRequest) (data_text : Str) (c : Groups E W) (i : ℕ)
        → Q c
        → Q (put_group c i (written leader req data_text c i))) where
    raft_write_to-keeps :
        (leader : Str) (req : BlockRequest) (data_text : Str) (c : Groups E W)
        → Q c
        → Q (raft_write_to leader req data_text c).0
    unfolding raft_write_to
    raft_write_to-keeps leader req data_text c h = elim (Option-cases (group_of leader c.env)) [
      | inl e ↦ rw (e, raft_write_to) h
      | inr (i, e) ↦ rw (e, raft_write_to) (writes leader req data_text c i h)
    ]

    groups_net-Keeps : Keeps groups_net Q
    unfolding groups_net
    groups_net-Keeps = record {
      is_asked_to_quit = λ c h. moves _ c h;
      select_leader = λ group c h. moves _ c h;
      refresh_leader = λ group c h. moves _ c h;
      update_leader = λ group leader c h. moves _ c h;
      channel_init = λ addr c h. moves _ c h;
      raft_write = raft_write_to-keeps;
    }

  raft_write_to-success :
      (leader : Str) (req : BlockRequest) (data_text : Str) (c : Groups E W) (resp : BlockResponse)
      → (raft_write_to leader req data_text c).1 ≡ reply resp
      → resp.success ≡ true
      → IsLoggedIn data_text (raft_write_to leader req data_text c).0
  unfolding raft_write_to
  raft_write_to-success leader req data_text c resp = elim (Option-cases (group_of leader c.env)) [
    | inl e ↦ rw (e, raft_write_to) (λ h success. absurd (true-false (sym (ap is_reply h))))
    | inr (i, e) ↦
        rw (e, raft_write_to)
          (λ h success. (
            i,
            if-both (λ (g : Group E W). Mem data_text g.log) (i == i)
                (λ e.
                  raft_write-success environment braft gamma docs space requests leader req
                    data_text (group_at c i) resp h success)
                (λ ne. absurd (ground (arith, ne))),
          ))
  ]

  groups_net-Stores : Stores groups_net IsLoggedIn
  unfolding groups_net
  groups_net-Stores = record {
    keeps = λ d.
        groups_net-Keeps (IsLoggedIn d) (λ e c h. h)
          (λ leader req data_text c i h. written-IsLoggedIn leader req data_text c i d h);
    stores = raft_write_to-success;
  }

  -- If the engine of each group took all of the group's log, from a world of its own on, and then refused
  -- what the group says that it refused, then this is so again after the router's UpsertDocs of a space,
  -- whatever calls, answers and commits fail; and the key of each document of each partition is in the
  -- map of errors, or its bytes are in the log of some group.
  pub upsert_docs-AreReplayed :
      (serialize : Document → Option Str) (conn : SpaceConnection)
      (docs_grps : List (ℕ × DocsGroup)) (err_mp : List (Str × Str)) (w0 : ℕ → W) (c : Groups E W)
      → AreReplayed w0 c
      → AreReplayed w0 (upsert_docs groups_net serialize conn docs_grps err_mp c).0
        × All
            (λ p.
              All
                (IsSettled serialize IsLoggedIn
                  (upsert_docs groups_net serialize conn docs_grps err_mp c).2
                  (upsert_docs groups_net serialize conn docs_grps err_mp c).0)
                p.1.pb_doc_infos)
            docs_grps
  upsert_docs-AreReplayed serialize conn docs_grps err_mp w0 c h = (
    keeps_world groups_net serialize (AreReplayed w0)
        (groups_net-Keeps (AreReplayed w0) (λ e c h. h) (written-IsReplayed w0)) conn docs_grps
        err_mp c h,
    upsert_docs-AllSettled groups_net serialize IsLoggedIn groups_net-Stores conn docs_grps err_mp
        c,
  )
