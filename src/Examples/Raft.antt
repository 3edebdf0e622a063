-- ===== src/Examples/Raft.antt =====
-- The examples of raft_store/raft_client.cc.
use sim_search.Prelude.{◌≡◌, refl, true, [], ◌∷◌, arith}
use sim_search.Raft.Client.{RaftClient, new_client, init, write}
use sim_search.Raft.Client.Acknowledged.{
  WasAcknowledged, IsPaired, write_all, write-WasAcknowledged, write_all-init-IsPaired,
}
use sim_search.Examples.Values.{good_net, leaderless_net, request}

-- A client that found its leader.
abbrev client : RaftClient
client = (init good_net new_client (103 ∷ []) (99 ∷ []) []).1

client-write : (write good_net client request (1 ∷ []) []).1.success ≡ true
unfolding write init
client-write = refl

write-WasAcknowledged_example :
    ((write good_net client request (1 ∷ []) []).0 ≡ [])
    × WasAcknowledged good_net request (1 ∷ []) (write good_net client request (1 ∷ []) []).1
write-WasAcknowledged_example =
    write-WasAcknowledged good_net client request (1 ∷ []) [] client-write

-- The first write is by the client that `Init` made, the second by the one after it.
write_all-init-IsPaired_example : IsPaired good_net (
    write_all good_net
      (init good_net new_client (103 ∷ []) (99 ∷ []) []).1
      ((request, (1 ∷ []), []) ∷ (request, (2 ∷ []), []) ∷ []))
write_all-init-IsPaired_example =
    write_all-init-IsPaired good_net (103 ∷ []) (99 ∷ [])
      ((request, (1 ∷ []), []) ∷ (request, (2 ∷ []), []) ∷ []) new_client [] (omega arith)

-- A client that did not find its leader.
abbrev lonely_client : RaftClient
lonely_client = (init leaderless_net new_client (103 ∷ []) (99 ∷ []) []).1
