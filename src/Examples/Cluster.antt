-- ===== src/Examples/Cluster.antt =====
-- The examples of a group that the router writes to, and of its reads.
use sim_search.Prelude.{
  ℕ, ◌≡◌, refl, inr, true, List, Option, Str, [], ◌∷◌, none, some, All, str_key, length,
}
use sim_search.Common.Messages.{empty_space}
use sim_search.External.FileSystem.{Disk}
use sim_search.Router.Partition
use sim_search.Router.Partition.{PartitionConnetion, new_partition, upsert_docs}
use sim_search.Router.Partition.Stored.{IsSettled}
use sim_search.Cluster.{Environment, Group, network}
use sim_search.Raft.Block.{on_leader_start}
use sim_search.Raft.Client
use sim_search.Cluster.Replayed.{IsReplayed}
use sim_search.Cluster.Spaces.{Groups, groups_net, AreReplayed, IsLoggedIn, upsert_docs-AreReplayed}
use sim_search.Router.Space
use sim_search.Router.Space.{SpaceConnection}
use sim_search.Cluster.Upserts.{group_net, IsLogged, upsert_docs-IsReplayed}
use sim_search.Raft.Block.Replicas.{replay}
use sim_search.External.Network.{Network, reply}
use sim_search.Clients.PsRpc.{empty_response}
use sim_search.Ps.Rpc
use sim_search.Cluster.Reads.{get_docs-nothing}
use sim_search.Router.Hashing.{DocsGroup}
use sim_search.Examples.Block.{leader, requests, docs}
use sim_search.Examples.Ps.{ready_braft, ready_gamma}
use sim_search.Examples.Router.{serialize, group, served, conn}
use sim_search.Examples.Values.{good_net}

-- Every address is the leader's, and everything arrives.
abbrev environment : Environment Disk
environment = record {
  net = good_net;
  server_at = λ addr e. some (some leader);
  commits = λ t e. (e, true);
  answers = λ e. (e, true);
  lost = [];
}

abbrev new_group : Group Disk Disk
new_group = record { env = []; log = []; refused = none; engine = [] }

new_group-IsReplayed : IsReplayed ready_gamma docs empty_space [] new_group
unfolding replay
new_group-IsReplayed = ([], refl, refl)

-- The partition's document is written, with no error.
group-written :
    (upsert_docs
      (group_net environment ready_braft ready_gamma docs empty_space requests)
      serialize
      served
      group
      new_group).0.log
    ≡ (65 ∷ []) ∷ []
unfolding upsert_docs Partition.init Client.write Client.init new_partition network on_leader_start
group-written = refl

upsert_docs-IsReplayed_example :
    IsReplayed ready_gamma docs empty_space []
      (upsert_docs
        (group_net environment ready_braft ready_gamma docs empty_space requests)
        serialize
        served
        group
        new_group).0
    × All
        (IsSettled serialize
          (IsLogged environment ready_braft ready_gamma docs empty_space requests)
          (upsert_docs
            (group_net environment ready_braft ready_gamma docs empty_space requests)
            serialize
            served
            group
            new_group).2
          (upsert_docs
            (group_net environment ready_braft ready_gamma docs empty_space requests)
            serialize
            served
            group
            new_group).0)
        group.pb_doc_infos
upsert_docs-IsReplayed_example =
    upsert_docs-IsReplayed environment ready_braft ready_gamma docs empty_space requests serialize
      served group [] new_group new_group-IsReplayed

-- A server is in the group of its address's length.
abbrev group_of_leader : Str → Disk → Option ℕ
group_of_leader addr e = some (length addr)

abbrev new_groups : Groups Disk Disk
new_groups = record { env = []; groups = λ i. new_group }

abbrev net_of_groups : Network (Groups Disk Disk)
net_of_groups =
    groups_net group_of_leader environment ready_braft ready_gamma docs empty_space requests

abbrev docs_grps : List (ℕ × DocsGroup)
docs_grps = (0, group) ∷ []

upsert_docs-AreReplayed_example :
    AreReplayed group_of_leader environment ready_braft ready_gamma docs empty_space requests
      (λ i. [])
      (Space.upsert_docs net_of_groups serialize conn docs_grps [] new_groups).0
    × All
        (λ p.
          All
            (IsSettled serialize
              (IsLoggedIn group_of_leader environment ready_braft ready_gamma docs empty_space
                requests)
              (Space.upsert_docs net_of_groups serialize conn docs_grps [] new_groups).2
              (Space.upsert_docs net_of_groups serialize conn docs_grps [] new_groups).0)
            p.1.pb_doc_infos)
        docs_grps
upsert_docs-AreReplayed_example =
    upsert_docs-AreReplayed group_of_leader environment ready_braft ready_gamma docs empty_space
      requests serialize conn docs_grps [] (λ i. []) new_groups (λ i. new_group-IsReplayed)

-- Every partition server is there, and answers as its handler does.
abbrev serving_net : Network Disk
serving_net = record good_net { ps_get = λ addr keys w. (w, reply (Rpc.get keys empty_response)) }

get_docs-nothing_example : (Partition.get_docs serving_net served ((65 ∷ []) ∷ []) [] []).2 ≡ []
get_docs-nothing_example =
    get_docs-nothing serving_net served ((65 ∷ []) ∷ []) [] [] (λ addr keys w. inr refl)
