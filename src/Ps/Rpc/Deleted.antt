-- ===== src/Ps/Rpc/Deleted.antt =====
-- service/ps/ps_rpc.cc: what a DeleteSpace that answers 0 leaves on disk.
use sim_search.Prelude.{
  ◌≡◌, refl, ap, ◌∙◌, subst, true, not, ◌&&◌, ◌||◌, none, some, Bool-cases, inl, inr, arith, Str,
  str_eq, str_eq_iff,
}
use sim_search.Common.Messages.{PsNodeInfo, CreateSpaceRequest}
use sim_search.External.Braft.{Braft}
use sim_search.External.Codec.{Codec}
use sim_search.External.FileSystem.{FileSystem}
use sim_search.External.Gamma.{Gamma}
use sim_search.Ps.LocalMata
use sim_search.Ps.LocalMata.{LocalMata, with_dir, new_mata, init}
use sim_search.Ps.LocalMata.Restart.{init-no_file}
use sim_search.Ps.LocalStorager
use sim_search.Ps.LocalStorager.{Config}
use sim_search.Ps.Rpc.{Ps, delete_space}
use sim_search.Raft.Block.{delete_block}

module _ {W : Type 0} (fs : FileSystem W) (braft : Braft W) (gamma : Gamma W)
    (config : Config) where
  -- The world when the space's file is deleted.
  abbrev pub before_delete : Ps W → W
  before_delete s =
      (braft.delete_tree config.engine_data_dir
        (gamma.close (delete_block braft s.block s.world).1)).0

str_eq_comm : (s t : Str) → str_eq s t ≡ str_eq t s
str_eq_comm s t = ground (arith, str_eq_iff s t, str_eq_iff t s)

module _ {W : Type 0} (fs : FileSystem W) (braft : Braft W) (gamma : Gamma W)
    (node_json : Codec PsNodeInfo) (space_json : Codec CreateSpaceRequest) (config : Config) where
  delete_space-world :
      (s : Ps W) (db_name space_name : Str)
      → let (s', status) =
          delete_space fs braft gamma node_json space_json config s db_name space_name in
        status.code ≡ 0
        → s'.world
          ≡ (fs.delete_file s.mata.space_schema_file (before_delete fs braft gamma config s)).0
  unfolding delete_space LocalStorager.delete_space LocalMata.delete_space LocalMata.db_name
      LocalMata.space_name
  delete_space-world s db_name space_name done =
      let db = s.mata.space_req.space.db_name in
      let name = s.mata.space_req.space.space_name in
      let ne = not (str_eq db db_name) || not (str_eq name space_name) in
      elim (Bool-cases ne) [
        | inl p ↦ absurd (omega (arith, (rw (p, delete_space) at done)))
        | inr p ↦
            let same : (str_eq db_name db && str_eq space_name name) ≡ true =
              ground (arith, p, str_eq_comm db db_name, str_eq_comm name space_name) in
            rw (p, delete_space, same, LocalStorager.delete_space, LocalMata.delete_space) refl
      ]

  -- A server whose file for its space is that of a directory, and which answers 0 to a DeleteSpace that
  -- could delete this file, has no space when it starts again over the world that is left, with the
  -- directory there and a readable file of its identity.
  pub delete_space-init :
      (s : Ps W) (db_name space_name dir t : Str) (info : PsNodeInfo)
      → let (s', status) =
          delete_space fs braft gamma node_json space_json config s db_name space_name in
        status.code ≡ 0
        → (fs.delete_file s.mata.space_schema_file (before_delete fs braft gamma config s)).1 ≡ true
        → s.mata.space_schema_file ≡ (with_dir new_mata dir).space_schema_file
        → fs.path_exists dir s'.world ≡ true
        → fs.read_file (with_dir new_mata dir).node_info_file s'.world ≡ some t
        → node_json.parse t ≡ (info, true)
        → init fs node_json space_json new_mata dir s'.world
          ≡ (record (with_dir new_mata dir) { ps_node_info = info }, true, s'.world)
  delete_space-init s db_name space_name dir t info done deleted same there read parsed =
      let w' =
        (delete_space fs braft gamma node_json space_json config s db_name space_name).0.world in
      let gone : fs.read_file s.mata.space_schema_file w' ≡ none =
        ap (fs.read_file s.mata.space_schema_file) (delete_space-world s db_name space_name done)
        ∙ fs.read-delete s.mata.space_schema_file (before_delete fs braft gamma config s) deleted in
      init-no_file fs node_json space_json new_mata dir t w' info there read parsed
        (subst (λ f. fs.read_file f w' ≡ none) same gone)
