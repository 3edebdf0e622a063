-- ===== src/Engine.antt =====
-- engine/engine.{h,cc}: documents in a file of data, their positions in a file of metadata, and a map of
-- both in memory. `_mtx` is held for the whole of each method. A key is the number of its bits; lengths
-- are not negative, as BatchAdd's callers give them, and the order of the map is of no account.
pub mod Records
pub mod Mget
pub mod Recovery
pub mod Reads
use sim_search.Prelude.{
  ℕ, zero, suc, ◌+◌, ◌*◌, ◌/◌, Bool, true, false, ◌&&◌, List, [], ◌∷◌, ◌++◌, ltb, Option, none,
  some, if◌then◌else◌, is_empty, length, replicate, take, drop, Str, nat_key, codes, to_string,
}
use sim_search.Prelude.Assoc.{get?, put}
use sim_search.External.Files.{Files}
use sim_search.Utils.FileTool.{backup_file}
use Records.{one_doc_mata_size, Place, mata_record, put_record}

-- A descriptor of -1 is none. The number of records is an int in the source, and is read only by the
-- load that sets it and by the log.
pub record Engine : Type 0 where
  pub path : Str
  pub data_fd : Option ℕ
  pub mata_fd : Option ℕ
  pub data_size : ℕ
  pub mata_offset : ℕ
  pub raw_data_offset : ℕ
  pub key_to_offset : List (ℕ × Place)

unfoldable pub new_engine : Engine
new_engine = record {
  path = [];
  data_fd = none;
  mata_fd = none;
  data_size = 0;
  mata_offset = 0;
  raw_data_offset = 0;
  key_to_offset = [];
}

unfoldable pub data_filename : Str
unfolding codes
data_filename = codes "/engine_data.txt"

unfoldable pub mata_filename : Str
unfolding codes
mata_filename = codes "/engine_mata.dat"

unfoldable pub open_failed : Str → Str
unfolding codes
open_failed path = codes "open '" ++ path ++ codes "' file failed"

unfoldable pub read_failed : Str
unfolding codes
read_failed = codes "read mata file failed."

unfoldable pub data_failed : ℕ → ℕ → Str
unfolding codes to_string
data_failed off len =
    codes "Engine::write raw data failed, offset:"
    ++ to_string off
    ++ codes ", length:"
    ++ to_string len

unfoldable pub mata_failed : ℕ → Str
unfolding codes to_string
mata_failed off =
    codes "Engine::write mata data failed, offset:"
    ++ to_string off
    ++ codes ", length:"
    ++ to_string one_doc_mata_size

unfoldable pub init : Engine → Str → Engine × Bool
init e path = (record e { path = path }, true)

-- The values of an int are below it.
abbrev pub int_limit : ℕ
int_limit = 0x8000_0000

module _ {W : Type 0} (files : Files W) where
  -- The loop of `CreatOrLoad`, from record `i`. The product `i * _one_doc_mata_size` is of type int;
  -- none: it overflows, which is undefined.
  unfoldable pub load_records : ℕ → ℕ → ℕ → List (ℕ × Place) → W → Option (List (ℕ × Place) × Str)
  unfolding put_record read_failed
  load_records zero i fd m w = some (m, [])
  load_records (suc count) i fd m w = elim (ltb (i * one_doc_mata_size) int_limit) [
    | false ↦ none
    | true ↦ elim (files.read_at fd (i * one_doc_mata_size) one_doc_mata_size w) [
      | none ↦ some (m, read_failed)
      | some buf ↦ load_records count (i + 1) fd (put_record m buf) w
    ]
  ]

  -- The part of `CreatOrLoad` that takes the files of a snapshot.
  unfoldable pub take_snapshot : Str → Str → W → W
  unfolding backup_file data_filename mata_filename
  take_snapshot path snapshot_path w =
      let ss_data_path = snapshot_path ++ data_filename in
      let ss_mata_path = snapshot_path ++ mata_filename in
      let w1 = (backup_file files (path ++ data_filename) w).1 in
      let w2 = (backup_file files (path ++ mata_filename) w1).1 in
      let w3 = files.copy_file ss_data_path (path ++ data_filename) w2 in
      if files.path_exists ss_mata_path w && files.path_exists ss_data_path w
      then files.copy_file ss_mata_path (path ++ mata_filename) w3
      else w

  -- The rest of `CreatOrLoad`, with both files open; none: an int does not hold the number of the
  -- records, or overflows in the loop.
  unfoldable pub load : Engine → ℕ → ℕ → W → Option (Str × Engine)
  unfolding load_records
  load e data_fd mata_fd w =
      let mata_offset = files.size mata_fd w in
      let data_size = mata_offset / one_doc_mata_size in
      elim (ltb data_size int_limit) [
        | false ↦ none
        | true ↦ elim (load_records data_size 0 mata_fd e.key_to_offset w) [
          | none ↦ none
          | some (m, msg) ↦ some (
            msg,
            record e {
              data_fd = some data_fd;
              mata_fd = some mata_fd;
              raw_data_offset = files.size data_fd w;
              mata_offset = mata_offset;
              data_size = data_size;
              key_to_offset = m;
            },
          )
        ]
      ]

  unfoldable pub creat_or_load : Engine → Str → W → Option (Str × Engine × W)
  unfolding take_snapshot load open_failed data_filename mata_filename
  creat_or_load e snapshot_path w =
      let data_path = e.path ++ data_filename in
      let mata_path = e.path ++ mata_filename in
      let w0 = if is_empty snapshot_path then w else take_snapshot e.path snapshot_path w in
      let (w1, data_fd) = files.open_file data_path w0 in
      let (w2, mata_fd) = files.open_file mata_path w1 in
      elim data_fd [
        | none ↦ some (open_failed data_path, record e { data_fd = none }, w1)
        | some fd ↦ elim mata_fd [
          | none ↦ some (open_failed mata_path, record e { data_fd = some fd; mata_fd = none }, w2)
          | some mata ↦ elim (load e fd mata w2) [
            | none ↦ none
            | some (msg, e') ↦ some (msg, e', w2)
          ]
        ]
      ]

  -- `BatchAdd` with the descriptors; `text` is the data from `all_len` on, and is long enough.
  unfoldable pub add_all : ℕ → ℕ → Engine → List (ℕ × ℕ) → Str → W → Str × Engine × W
  unfolding data_failed mata_failed mata_record
  add_all data_fd mata_fd e [] text w = ([], e, w)
  add_all data_fd mata_fd e ((key, data_len) ∷ kv_list) text w =
      let (w1, wrote) = files.write_at data_fd e.raw_data_offset (take data_len text) w in
      let (w2, noted) =
        files.write_at mata_fd e.mata_offset (mata_record key e.raw_data_offset data_len) w1 in
      elim wrote [
        | false ↦ (data_failed e.raw_data_offset data_len, e, w1)
        | true ↦ elim noted [
          | false ↦ (mata_failed e.mata_offset, e, w2)
          | true ↦
              add_all data_fd mata_fd
                (record e {
                  key_to_offset = put e.key_to_offset key (e.raw_data_offset, data_len);
                  raw_data_offset = e.raw_data_offset + data_len;
                  mata_offset = e.mata_offset + one_doc_mata_size;
                  data_size = e.data_size + 1;
                })
                kv_list (drop data_len text) w2
        ]
      ]

  -- With a file that is not open the first call on it fails.
  unfoldable pub batch_add : Engine → List (ℕ × ℕ) → Str → W → Str × Engine × W
  unfolding add_all data_failed
  batch_add e [] text w = ([], e, w)
  batch_add e ((key, data_len) ∷ kv_list) text w = elim e.data_fd [
    | none ↦ (data_failed e.raw_data_offset data_len, e, w)
    | some fd ↦ elim e.mata_fd [
      | none ↦
          let (w1, wrote) = files.write_at fd e.raw_data_offset (take data_len text) w in
          (
            if wrote then mata_failed e.mata_offset else data_failed e.raw_data_offset data_len,
            e,
            w1,
          )
      | some mata ↦ add_all fd mata e ((key, data_len) ∷ kv_list) text w
    ]
  ]

  -- A read that fails leaves the zeros of the text's size.
  unfoldable pub get : Engine → ℕ → W → Str
  get e key w = elim (get? e.key_to_offset key) [
    | none ↦ []
    | some (off, size) ↦ elim e.data_fd [
      | none ↦ replicate size 0
      | some fd ↦ elim (files.read_at fd off size w) [ none ↦ replicate size 0 | some res ↦ res ]
    ]
  ]

  -- The names of the two files join the list; the writing out to the disk before is left out.
  unfoldable pub snapshot : Engine → Str → List Str → W → List Str × W
  unfolding data_filename mata_filename
  snapshot e raft_root filenames w =
      let w1 = files.copy_file (e.path ++ data_filename) (raft_root ++ data_filename) w in
      (
        filenames ++ data_filename ∷ mata_filename ∷ [],
        files.copy_file (e.path ++ mata_filename) (raft_root ++ mata_filename) w1,
      )

  unfoldable pub close_if_open : Option ℕ → W → W
  close_if_open none w = w
  close_if_open (some fd) w = files.close fd w

  -- The descriptors stay as they are, though closed.
  unfoldable pub delete : Engine → W → Engine × W
  unfolding close_if_open data_filename mata_filename
  delete e w =
      let w1 = close_if_open e.mata_fd (close_if_open e.data_fd w) in
      (
        record e { key_to_offset = []; data_size = 0; mata_offset = 0; raw_data_offset = 0 },
        files.delete_file (e.path ++ data_filename)
            (files.delete_file (e.path ++ mata_filename) w1),
      )
