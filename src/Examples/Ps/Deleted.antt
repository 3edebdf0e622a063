-- ===== src/Examples/Ps/Deleted.antt =====
-- The example of a space that is deleted, over the server of Examples/Ps.
use sim_search.Prelude.{◌≡◌, refl, true, some, [], ◌∷◌, str_lt}
use sim_search.External.FileSystem.{Disk, disk}
use sim_search.Ps.LocalMata
use sim_search.Ps.LocalMata.{with_dir, new_mata}
use sim_search.Ps.LocalStorager.{create_or_load_node_mata}
use sim_search.Ps.Rpc.{Ps, create_space, delete_space}
use sim_search.Ps.Rpc.Deleted.{before_delete, delete_space-init}
use sim_search.Examples.Ps.{
  ready_braft, ready_gamma, config, serving, dir, info, node_codec, request_codec,
}

abbrev deleted : Ps Disk
deleted =
    (delete_space disk ready_braft ready_gamma node_codec request_codec config serving (97 ∷ [])
      (97 ∷ [])).0

deleted-code :
    (delete_space disk ready_braft ready_gamma node_codec request_codec config serving
      (97 ∷ [])
      (97 ∷ [])).1.code
    ≡ 0
unfolding delete_space create_space disk create_or_load_node_mata new_mata str_lt
deleted-code = refl

deleted-file : serving.mata.space_schema_file ≡ (with_dir new_mata dir).space_schema_file
unfolding create_space disk create_or_load_node_mata new_mata with_dir str_lt
deleted-file = refl

deleted-dir : disk.path_exists dir deleted.world ≡ true
unfolding delete_space create_space disk create_or_load_node_mata new_mata str_lt
deleted-dir = refl

deleted-node :
    disk.read_file (with_dir new_mata dir).node_info_file deleted.world
    ≡ some (0 ∷ 7 ∷ 80 ∷ 49 ∷ [])
unfolding delete_space create_space disk create_or_load_node_mata new_mata with_dir str_lt
deleted-node = refl

deletes :
    (disk.delete_file serving.mata.space_schema_file
      (before_delete disk ready_braft ready_gamma config serving)).1
    ≡ true
unfolding disk
deletes = refl

delete_space-init_example :
    LocalMata.init disk node_codec request_codec new_mata dir deleted.world
    ≡ (record (with_dir new_mata dir) { ps_node_info = info }, true, deleted.world)
delete_space-init_example =
    delete_space-init disk ready_braft ready_gamma node_codec request_codec config serving (97 ∷ [])
      (97 ∷ []) dir (0 ∷ 7 ∷ 80 ∷ 49 ∷ []) info deleted-code deletes deleted-file deleted-dir
      deleted-node refl
