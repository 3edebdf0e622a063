-- ===== src/Ps/Main/Rejoins.antt =====
-- service/ps_main.cc: a server that starts again joins its raft group as CreateSpace did.
use sim_search.Prelude.{
  ◌≡◌, refl, sym, ap, ◌∙◌, subst, true, false, not, not-false, Option, none, some, if◌then◌else◌,
  if-both, is_empty, ◌==◌, Str, arith,
}
use sim_search.Common.Messages.{PsNodeInfo, CreateSpaceRequest, RespStatus}
use sim_search.Dto.Gamma.{get_gamma_table}
use sim_search.External.Braft.{Braft, NodeOptions}
use sim_search.External.Codec.{Codec}
use sim_search.External.FileSystem.{FileSystem, IsWritable}
use sim_search.External.Gamma.{Gamma}
use sim_search.Ps.LocalMata.{
  LocalMata, set_create_sapce_req, with_dir, new_mata, init, dump_create_space_req, space_name,
}
use sim_search.Ps.LocalStorager.{Config}
use sim_search.Ps.Main.{recover}
use sim_search.Ps.Rpc.{Ps, fail_create, dump_space, start_space, create_space}
use sim_search.Ps.Rpc.Group.{node_of, group_node, start_group, start_group-HasNode}
use sim_search.Ps.Rpc.Saved.{create_space-init}
use sim_search.Raft.Block.{Block}

module _ {W : Type 0} (braft : Braft W) (gamma : Gamma W) (config : Config) where
  -- The group of a server that starts with a space: the engine is loaded first.
  abbrev pub restart_group : LocalMata → W → Option Block × Str × W
  restart_group m w =
      let (w1, code) = gamma.load (gamma.init_engine config.engine_data_dir (space_name m) w) in
      start_group braft config m none m.space_req.space w1

module _ {W : Type 0} (fs : FileSystem W) (braft : Braft W) (gamma : Gamma W)
    (node_json : Codec PsNodeInfo) (space_json : Codec CreateSpaceRequest) (config : Config) where
  -- With the answer 0, the group has this node.
  abbrev Joined : NodeOptions → Ps W × RespStatus → Type 0
  Joined options r = r.1.code ≡ 0 → node_of r.0.block ≡ some options

  dump_space-Joined :
      (options : NodeOptions) (m : LocalMata) (block : Option Block) (msg : Str) (w : W)
      → node_of block ≡ (if is_empty msg then some options else none)
      → Joined options (dump_space fs braft gamma node_json space_json config m block msg w)
  unfolding dump_space fail_create
  dump_space-Joined options m block msg w joined =
      let (dump_msg, w') = dump_create_space_req fs node_json space_json m w in
      if-both (Joined options) (not (is_empty msg)) (λ e h. absurd (omega (arith, h)))
        (λ e.
          if-both (Joined options) (not (is_empty dump_msg)) (λ e2 h. absurd (omega (arith, h)))
            (λ e2 h. joined ∙ ap (λ b. if b then some options else none) (not-false _ e)))

  start_space-Joined :
      (m : LocalMata) (block : Option Block) (req : CreateSpaceRequest) (w : W)
      → m.has_space ≡ true
      → Joined
          (group_node braft config m.ps_node_info.ps_ip m.space_req)
          (start_space fs braft gamma node_json space_json config m block req w)
  unfolding start_space
  start_space-Joined m block req w has =
      let (block2, msg, w2) = start_group braft config m block req.space w in
      dump_space-Joined (group_node braft config m.ps_node_info.ps_ip m.space_req) m block2 msg w2
        (start_group-HasNode braft config m block req.space w has)

  create_space-Joined :
      (s : Ps W) (req : CreateSpaceRequest)
      → is_empty req.space.db_name ≡ false
      → Joined
          (group_node braft config s.mata.ps_node_info.ps_ip req)
          (create_space fs braft gamma node_json space_json config s req)
  unfolding create_space fail_create set_create_sapce_req
  create_space-Joined s req named =
      let m = set_create_sapce_req s.mata req in
      let options = group_node braft config s.mata.ps_node_info.ps_ip req in
      let (w2, code, text) =
        gamma.create_table (get_gamma_table req.space)
          (gamma.init_engine config.engine_data_dir req.space.space_name s.world) in
      if-both (Joined options) s.mata.has_space (λ e h. absurd (omega (arith, h)))
        (λ e.
          if-both (Joined options) (not (code == 0)) (λ e2 h. absurd (ground arith))
            (λ e2.
              start_space-Joined m s.block req w2
                (ap (λ b. if b then s.mata.has_space else true) named)))

  -- The group has the node of these options if it starts, and none if it does not.
  abbrev Recovered : NodeOptions → LocalMata → W → Ps W → Type 0
  Recovered options m w s =
      node_of s.block
      ≡ (if is_empty (restart_group braft gamma config m w).1 then some options else none)

  some-same : {A : Type 0} (P : A → Type 0) (a b : A) → some a ≡ some b → P a → P b
  some-same P a b e p = subst (λ o. elim o [ none ↦ Unit | some c ↦ P c ]) e p

  recover-Recovered :
      (m : LocalMata) (w : W) (s' : Ps W)
      → m.has_space ≡ true
      → recover braft gamma config (record { mata = m; block = none; world = w }) ≡ some s'
      → Recovered (group_node braft config m.ps_node_info.ps_ip m.space_req) m w s'
  unfolding recover
  recover-Recovered m w s' has =
      let options = group_node braft config m.ps_node_info.ps_ip m.space_req in
      let (w1, code) = gamma.load (gamma.init_engine config.engine_data_dir (space_name m) w) in
      let (block2, msg, w3) = start_group braft config m none m.space_req.space w1 in
      if-both (λ r. r ≡ some s' → Recovered options m w s') (not m.has_space)
        (λ e h. absurd (ground arith))
        (λ e.
          if-both (λ r. r ≡ some s' → Recovered options m w s') (not (code == 0))
            (λ e2 h. absurd (ground arith))
            (λ e2 h.
              some-same (Recovered options m w) (record { mata = m; block = block2; world = w3 }) s'
                h (start_group-HasNode braft config m none m.space_req.space w1 has)))

  -- A server whose file for its space is that of a directory, that answers 0 to a CreateSpace that
  -- names a database, where no write to that file fails once it is open, and that starts again over
  -- the world that is left, with the directory there and an identity of the same address on file:
  -- where its start does not fail, its raft group has the node, with the options, that CreateSpace
  -- gave it, if StartRaftServer gives no message after the load of the engine, and no node if it
  -- gives one.
  pub recover-create_space :
      (s s'' : Ps W) (req : CreateSpaceRequest) (dir t : Str) (info : PsNodeInfo)
      → is_empty req.space.db_name ≡ false
      → let (s', status) = create_space fs braft gamma node_json space_json config s req in
        status.code ≡ 0
        → IsWritable fs s.mata.space_schema_file
        → s.mata.space_schema_file ≡ (with_dir new_mata dir).space_schema_file
        → fs.path_exists dir s'.world ≡ true
        → fs.read_file (with_dir new_mata dir).node_info_file s'.world ≡ some t
        → node_json.parse t ≡ (info, true)
        → info.ps_ip ≡ s.mata.ps_node_info.ps_ip
        → let m' = (init fs node_json space_json new_mata dir s'.world).0 in
          recover braft gamma config (record { mata = m'; block = none; world = s'.world })
            ≡ some s''
          → node_of s''.block ≡ (
              if is_empty (restart_group braft gamma config m' s'.world).1
              then node_of s'.block
              else none)
  recover-create_space s s'' req dir t info named done good same there read parsed address
        recovered =
      let s' = (create_space fs braft gamma node_json space_json config s req).0 in
      let options = group_node braft config s.mata.ps_node_info.ps_ip req in
      let joined = create_space-Joined s req named done in
      let m : LocalMata = record (with_dir new_mata dir) {
        ps_node_info = info;
        space_req = req;
        has_space = true;
      } in
      let loaded : (init fs node_json space_json new_mata dir s'.world).0 ≡ m =
        ap (λ r. r.0)
          (create_space-init fs braft gamma node_json space_json config s req dir t info done good
            same there read parsed) in
      let started : recover braft gamma config (record { mata = m; block = none; world = s'.world })
          ≡ some s'' =
        ap (λ m'. recover braft gamma config (record { mata = m'; block = none; world = s'.world }))
          (sym loaded)
        ∙ recovered in
      let result : Recovered options m s'.world s'' =
        subst (λ ip. Recovered (group_node braft config ip req) m s'.world s'') address
          (recover-Recovered m s'.world s'' refl started) in
      result
      ∙ ap
          (λ m'.
            if is_empty (restart_group braft gamma config m' s'.world).1
            then some options
            else none)
          (sym loaded)
      ∙ ap
          (λ o.
            if is_empty
              (restart_group braft gamma config
                (init fs node_json space_json new_mata dir s'.world).0 s'.world).1
            then o
            else none)
          (sym joined)
