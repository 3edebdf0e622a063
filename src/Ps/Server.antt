-- ===== src/Ps/Server.antt =====
-- service/ps/brpc_server.cc: the services of a partition server, and its end. A message is empty where
-- all went well; the second between two looks at the signal is left out.
use sim_search.Prelude.{ℕ, Bool, not, [], Option, none, some, if◌then◌else◌, Str, codes}
use sim_search.Prelude.Retry.{retry}
use sim_search.External.Braft.{Braft}
use sim_search.External.Server.{RpcServer}
use sim_search.Raft.Block.{Block, shutdown, join}

unfoldable pub no_ps_service : Str
unfolding codes
no_ps_service = codes "Fail to add PsRpcImpl service"

unfoldable pub no_raft_rpc : Str
unfolding codes
no_raft_rpc = codes "Fail to add RaftRpcImpl"

unfoldable pub no_raft_service : Str
unfolding codes
no_raft_service = codes "Fail to add raft service"

unfoldable pub not_started : Str
unfolding codes
not_started = codes "Fail to start PrRpcImpl Server"

-- A result where the process is asked to quit.
abbrev pub quit_or_wait : {W : Type 0} → W × Bool → W × Option (Unit {0})
quit_or_wait (w, quit) = (w, if quit then some tt else none)

module _ {W : Type 0} (server : RpcServer W) where
  unfoldable pub start : ℕ → W → Str × W
  unfolding no_ps_service no_raft_rpc no_raft_service not_started codes
  start rpc_port w =
      let (w1, ps_added) = server.add_service (codes "PsRpcImpl") [] w in
      let (w2, raft_added) = server.add_service (codes "RaftRpcImpl") [] w1 in
      let (w3, braft_added) = server.add_raft_service rpc_port w2 in
      let (w4, started) = server.start rpc_port w3 in
      if not ps_added
      then (no_ps_service, w1)
      else if not raft_added
      then (no_raft_rpc, w2)
      else if not braft_added
      then (no_raft_service, w3)
      else if not started
      then (not_started, w4)
      else ([], w4)

  -- One look at the signal.
  unfoldable pub check_quit : W → W × Option (Unit {0})
  check_quit w = quit_or_wait (server.is_asked_to_quit w)

  module _ (braft : Braft W) where
    -- After the wait: the raft node goes down before the server stops, and the rest follows.
    unfoldable pub stop_all : Option Block → W → W
    unfolding shutdown join
    stop_all none w = server.join (server.stop w)
    stop_all (some b) w = server.join (join braft b (server.stop (shutdown braft b w)))

    -- `WaitBrpcStop`; none where it still waits after these rounds.
    unfoldable pub wait_brpc_stop : ℕ → Option Block → W → Option W
    unfolding check_quit stop_all
    wait_brpc_stop rounds block w =
        let (w', quit) = retry check_quit rounds w in
        elim quit [ none ↦ none | some done ↦ some (stop_all block w') ]
