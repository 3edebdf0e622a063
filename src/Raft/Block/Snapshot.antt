-- ===== src/Raft/Block/Snapshot.antt =====
-- raft_store/raft_store.cc: the snapshots that braft asks a block for, and gives it.
use sim_search.Prelude.{
  ℕ, Bool, List, [], ◌∷◌, ◌++◌, Option, none, some, if◌then◌else◌, is_empty, Str, codes,
}
use sim_search.Engine
use sim_search.Engine.{Engine}
use sim_search.External.Files.{Files}
use sim_search.Raft.Block.{Block, is_leader}

unfoldable pub add_file_failed : Str → Str
unfolding codes
add_file_failed filename = codes "Fail to add file[" ++ filename ++ codes "] to writer"

-- The loop of `save_snapshot`; `add_file` is the writer's, and the status is the last error's.
unfoldable pub add_files :
    {W : Type 0} → (Str → W → W × Bool) → List Str → Option Str → W → Option Str × W
unfolding add_file_failed
add_files add_file [] status w = (status, w)
add_files add_file (filename ∷ filenames) status w =
    let (w', added) = add_file filename w in
    add_files add_file filenames (if added then status else some (add_file_failed filename)) w'

unfoldable pub save_snapshot :
    {W : Type 0} → Files W → (Str → W → W × Bool) → Engine → Str → W → Option Str × W
unfolding Engine.snapshot add_files
save_snapshot files add_file engine snapshot_path w =
    let (filenames, w') = Engine.snapshot files engine snapshot_path [] w in
    add_files add_file filenames none w'

-- What the thread of a snapshot is given: the closure that is answered is braft's.
pub record SnapshotArg : Type 0 where
  pub fd : Option ℕ
  pub root_path : Str
  pub snapshot_path : Str

-- `on_snapshot_save` up to the thread, which then calls `save_snapshot` with this; the writer's path is
-- given.
unfoldable pub on_snapshot_save : Block → Str → SnapshotArg
on_snapshot_save b snapshot_path = record {
  fd = b.fd;
  root_path = b.root_path;
  snapshot_path = snapshot_path;
}

-- none: a leader loads no snapshot, where the source stops the process, or the load is undefined; else
-- whether it returns 0.
unfoldable pub on_snapshot_load :
    {W : Type 0} → Files W → Block → Engine → Str → W → Option (Engine × Bool × W)
unfolding is_leader Engine.creat_or_load
on_snapshot_load files b engine snapshot_path w =
    let loaded = Engine.creat_or_load files engine snapshot_path w in
    if is_leader b
    then none
    else elim loaded [ none ↦ none | some (msg, engine', w') ↦ some (engine', is_empty msg, w') ]
