-- ===== src/Ps/Rpc/Answers.antt =====
-- service/ps/ps_rpc.cc: what a CreateSpace leaves for the next one, and for the next start of the server.
use sim_search.Prelude.{
  ◌≡◌, ◌∙◌, refl, Bool, true, false, not, Option, if-both, is_empty, Str, ◌==◌,
}
use sim_search.Common.Messages.{PsNodeInfo, CreateSpaceRequest, RespStatus}
use sim_search.Dto.Gamma.{get_gamma_table}
use sim_search.External.Braft.{Braft}
use sim_search.External.Codec.{Codec}
use sim_search.External.FileSystem.{FileSystem}
use sim_search.External.Gamma.{Gamma}
use sim_search.Ps.LocalMata.{LocalMata, set_create_sapce_req}
use sim_search.Ps.LocalStorager.{Config, get_raft_params}
use sim_search.Ps.Rpc.{
  Ps, fail_create, dump_space, start_space, create_space, space_has_exist, params_or_empty,
}
use sim_search.Raft.Block.{Block, create_block, start_raft_server}

module _ {W : Type 0} (fs : FileSystem W) (braft : Braft W) (gamma : Gamma W)
    (node_json : Codec PsNodeInfo) (space_json : Codec CreateSpaceRequest) (config : Config) where
  abbrev Flagged : Bool → Ps W × RespStatus → Type 0
  Flagged b r = r.0.mata.has_space ≡ b

  dump_space-has_space :
      (m : LocalMata) (block : Option Block) (msg : Str) (w : W)
      → Flagged m.has_space (dump_space fs braft gamma node_json space_json config m block msg w)
  unfolding dump_space fail_create set_create_sapce_req
  dump_space-has_space m block msg w =
      if-both (Flagged m.has_space) (not (is_empty msg)) (λ e. refl)
        (λ e. if-both (Flagged m.has_space) _ (λ e. refl) (λ e. refl))

  set_create_sapce_req-has_space :
      (m : LocalMata) (req : CreateSpaceRequest)
      → is_empty req.space.db_name ≡ false
      → (set_create_sapce_req m req).has_space ≡ true
  unfolding set_create_sapce_req
  set_create_sapce_req-has_space m req h = rw (h) refl

  start_space-has_space :
      (m : LocalMata) (block : Option Block) (req : CreateSpaceRequest) (w : W)
      → Flagged m.has_space (start_space fs braft gamma node_json space_json config m block req w)
  unfolding start_space
  start_space-has_space m block req w =
      let (root_path, group, conf, port) = params_or_empty (get_raft_params config m) in
      let (block1, w1) = create_block braft block w in
      let (block2, msg, w2) =
        start_raft_server braft block1 root_path group conf m.ps_node_info.ps_ip port req.space
          config.raft_election_timeout_ms config.raft_snap_interval_s w1 in
      dump_space-has_space m block2 msg w2

  create_space-has_space :
      (s : Ps W) (req : CreateSpaceRequest)
      → is_empty req.space.db_name ≡ false
      → Flagged true (create_space fs braft gamma node_json space_json config s req)
  unfolding create_space fail_create set_create_sapce_req
  create_space-has_space s req h =
      let m = set_create_sapce_req s.mata req in
      let (w2, code, text) =
        gamma.create_table (get_gamma_table req.space)
          (gamma.init_engine config.engine_data_dir req.space.space_name s.world) in
      let kept = set_create_sapce_req-has_space s.mata req h in
      if-both (Flagged true) s.mata.has_space (λ e. e)
        (λ e.
          if-both (Flagged true) (not (code == 0)) (λ e. kept)
            (λ e. start_space-has_space m s.block req w2 ∙ kept))

  refused :
      (s : Ps W) (req : CreateSpaceRequest)
      → s.mata.has_space ≡ true
      → create_space fs braft gamma node_json space_json config s req
        ≡ (s, record { code = 201; msg = space_has_exist s.mata.space_req.space.space_name })
  unfolding create_space
  refused s req h = rw (h) refl

  -- A CreateSpace that follows one whose request names a database is refused with 201 and changes
  -- nothing, whatever the first one answered, a failure included.
  pub create_space-create_space :
      (s : Ps W) (req req' : CreateSpaceRequest)
      → is_empty req.space.db_name ≡ false
      → let s' = (create_space fs braft gamma node_json space_json config s req).0 in
        create_space fs braft gamma node_json space_json config s' req'
        ≡ (s', record { code = 201; msg = space_has_exist s'.mata.space_req.space.space_name })
  create_space-create_space s req req' h =
      refused (create_space fs braft gamma node_json space_json config s req).0 req'
        (create_space-has_space s req h)
