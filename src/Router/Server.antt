-- ===== src/Router/Server.antt =====
-- service/router/router_server.cc: the services of a router, and its end.
use sim_search.Prelude.{ℕ, Bool, true, not, ◌++◌, Option, none, some, if◌then◌else◌, Str, codes}
use sim_search.Prelude.Retry.{retry}
use sim_search.External.Server.{RpcServer}
use sim_search.Ps.Server.{check_quit}

unfoldable pub space_mappings : Str
unfolding codes
space_mappings =
    codes "/space/add_space => AddSpace, "
    ++ codes "/space/list => SpaceList, "
    ++ codes "/space/delete_space => DeleteSpace, "

unfoldable pub doc_mappings : Str
unfolding codes
doc_mappings =
    codes "/document/get => Get, "
    ++ codes "/document/search => Search, "
    ++ codes "/document/upsert => Upsert, "
    ++ codes "/document/delete => Delete, "
    ++ codes "/document/mock/upsert => MockUpsert, "
    ++ codes "/document/mock/get => MockGet, "

module _ {W : Type 0} (server : RpcServer W) where
  -- It returns -1 or 0 as a Boolean: true where something failed.
  unfoldable pub start : ℕ → W → Bool × W
  unfolding space_mappings doc_mappings codes
  start port w =
      let (w1, space_added) = server.add_service (codes "RouterSpaceRpcImpl") space_mappings w in
      let (w2, doc_added) = server.add_service (codes "RouterDocRpcImpl") doc_mappings w1 in
      let (w3, started) = server.start port w2 in
      if not space_added
      then (true, w1)
      else if not doc_added
      then (true, w2)
      else (not started, w3)

  -- none where it still waits after these rounds.
  unfoldable pub wait_brpc_stop : ℕ → W → Option W
  unfolding check_quit
  wait_brpc_stop rounds w =
      let (w', quit) = retry (check_quit server) rounds w in
      elim quit [ none ↦ none | some done ↦ some (server.join (server.stop w')) ]
