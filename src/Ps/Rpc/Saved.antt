-- ===== src/Ps/Rpc/Saved.antt =====
-- service/ps/ps_rpc.cc: what a CreateSpace that answers 0 leaves on disk.
use sim_search.Prelude.{
  not-false, ◌≡◌, subst, refl, true, not, Option, some, if-both, is_empty, arith, Str, ◌==◌,
}
use sim_search.Common.Messages.{PsNodeInfo, CreateSpaceRequest, RespStatus}
use sim_search.Dto.Gamma.{get_gamma_table}
use sim_search.External.Braft.{Braft}
use sim_search.External.Codec.{Codec}
use sim_search.External.FileSystem.{FileSystem, IsWritable}
use sim_search.External.Gamma.{Gamma}
use sim_search.Ps.LocalMata.{
  LocalMata, set_create_sapce_req, with_dir, new_mata, init, dump_create_space_req,
}
use sim_search.Ps.LocalMata.Restart.{dump_create_space_req-read, init-loaded}
use sim_search.Ps.LocalStorager.{Config, get_raft_params}
use sim_search.Ps.Rpc.{Ps, fail_create, dump_space, start_space, create_space, params_or_empty}
use sim_search.Raft.Block.{Block, create_block, start_raft_server}

module _ {W : Type 0} (fs : FileSystem W) (braft : Braft W) (gamma : Gamma W)
    (node_json : Codec PsNodeInfo) (space_json : Codec CreateSpaceRequest) (config : Config) where
  -- With the answer 0, the file of the space holds the request that the server keeps, if no write to
  -- it failed.
  abbrev Saved : LocalMata → Ps W × RespStatus → Type 0
  Saved m r =
      r.1.code ≡ 0
      → IsWritable fs m.space_schema_file
      → (r.0.mata ≡ m)
        × ((text : Str) × (space_json.print m.space_req ≡ some text)
            × (fs.read_file m.space_schema_file r.0.world ≡ some text))

  dump_space-Saved :
      (m : LocalMata) (block : Option Block) (msg : Str) (w : W)
      → Saved m (dump_space fs braft gamma node_json space_json config m block msg w)
  unfolding dump_space fail_create
  dump_space-Saved m block msg w =
      let (dump_msg, w') = dump_create_space_req fs node_json space_json m w in
      if-both (Saved m) (not (is_empty msg)) (λ e h good. absurd (omega (arith, h)))
        (λ e.
          if-both (Saved m) (not (is_empty dump_msg)) (λ e h good. absurd (omega (arith, h)))
            (λ e h good.
              (refl, dump_create_space_req-read fs node_json space_json m w good (not-false _ e))))

  start_space-Saved :
      (m : LocalMata) (block : Option Block) (req : CreateSpaceRequest) (w : W)
      → Saved m (start_space fs braft gamma node_json space_json config m block req w)
  unfolding start_space
  start_space-Saved m block req w =
      let (root_path, group, conf, port) = params_or_empty (get_raft_params config m) in
      let (block1, w1) = create_block braft block w in
      let (block2, msg, w2) =
        start_raft_server braft block1 root_path group conf m.ps_node_info.ps_ip port req.space
          config.raft_election_timeout_ms config.raft_snap_interval_s w1 in
      dump_space-Saved m block2 msg w2

  create_space-Saved :
      (s : Ps W) (req : CreateSpaceRequest)
      → Saved
          (set_create_sapce_req s.mata req)
          (create_space fs braft gamma node_json space_json config s req)
  unfolding create_space fail_create
  create_space-Saved s req =
      let m = set_create_sapce_req s.mata req in
      let (w2, code, text) =
        gamma.create_table (get_gamma_table req.space)
          (gamma.init_engine config.engine_data_dir req.space.space_name s.world) in
      if-both (Saved m) s.mata.has_space (λ e h good. absurd (omega (arith, h)))
        (λ e.
          if-both (Saved m) (not (code == 0)) (λ e h good. absurd (ground arith))
            (λ e. start_space-Saved m s.block req w2))

  -- A server whose file for its space is that of a directory, that answers 0 to a CreateSpace, where
  -- no write to that file fails once it is open, and that starts again over the world that is left,
  -- with the directory there and a readable file of its identity, has that request for its space.
  pub create_space-init :
      (s : Ps W) (req : CreateSpaceRequest) (dir t : Str) (info : PsNodeInfo)
      → let (s', status) = create_space fs braft gamma node_json space_json config s req in
        status.code ≡ 0
        → IsWritable fs s.mata.space_schema_file
        → s.mata.space_schema_file ≡ (with_dir new_mata dir).space_schema_file
        → fs.path_exists dir s'.world ≡ true
        → fs.read_file (with_dir new_mata dir).node_info_file s'.world ≡ some t
        → node_json.parse t ≡ (info, true)
        → init fs node_json space_json new_mata dir s'.world ≡ (
          record (with_dir new_mata dir) { ps_node_info = info; space_req = req; has_space = true },
          true,
          s'.world,
        )
  unfolding set_create_sapce_req
  create_space-init s req dir t info done good same there read parsed =
      let (kept, (u, printed, read_space)) = create_space-Saved s req done good in
      let w = (create_space fs braft gamma node_json space_json config s req).0.world in
      init-loaded fs node_json space_json new_mata dir t u w info req there read parsed
        (subst (λ f. fs.read_file f w ≡ some u) same read_space)
        (space_json.parse-print req u printed)
