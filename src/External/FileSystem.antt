-- ===== src/External/FileSystem.antt =====
-- Files, as `std::ifstream`, `std::ofstream` and butil's file_util reach them.
use sim_search.Prelude.{
  ◌≡◌, Bool, true, false, List, [], Option, none, some, arith, Str, str_eq, str_eq_iff, str_key,
}
use sim_search.Prelude.Assoc.{get?, put, has, get?-put, erase, get?-erase}

pub record FileSystem (W : Type 0) : Type 0 where
  pub path_exists : Str → W → Bool
  pub directory_exists : Str → W → Bool
  pub create_directory : Str → W → W × Bool
  pub copy_file : Str → Str → W → W × Bool
  pub delete_file : Str → W → W × Bool
  -- none: the file cannot be opened for reading.
  pub read_file : Str → W → Option Str
  -- none: the file cannot be opened for writing; otherwise it is there, and empty.
  pub open_file : Str → W → Option W
  -- The text goes to the file that was opened; false: the stream failed, as on a full disk, and the
  -- file holds anything.
  pub write_file : Str → Str → W → W × Bool
  pub read-write :
      (path text : Str) (w w' : W)
      → open_file path w ≡ some w'
      → (write_file path text w').1 ≡ true
      → read_file path (write_file path text w').0 ≡ some text
  pub read-write_ne :
      (path other text : Str) (w w' : W)
      → open_file path w ≡ some w'
      → str_eq path other ≡ false
      → read_file other (write_file path text w').0 ≡ read_file other w
  -- The file is gone if the call returns true, and may have been gone before.
  pub read-delete :
      (path : Str) (w : W)
      → (delete_file path w).1 ≡ true
      → read_file path (delete_file path w).0 ≡ none

-- No write to this file fails once it is open.
abbrev pub IsWritable : {W : Type 0} → FileSystem W → Str → Type 0
IsWritable {W} fs path = (text : Str) (w : W) → (fs.write_file path text w).1 ≡ true

-- A disk of its own, to run the model: files by name, all of which can be opened.
abbrev pub Disk : Type 0
Disk = List (Str × Str)

pub read-put :
    (path text : Str) (w w' : Disk)
    → some (put w path []) ≡ some w'
    → true ≡ true
    → get? (put w' path text) path ≡ some text
read-put path text w w' h good = ground (arith, get?-put w' path text path, str_eq_iff path path)

pub read-put_ne :
    (path other text : Str) (w w' : Disk)
    → some (put w path []) ≡ some w'
    → str_eq path other ≡ false
    → get? (put w' path text) other ≡ get? w other
read-put_ne path other text w w' h ne =
    ground (arith, get?-put w' path text other, get?-put w path [] other)

unfoldable pub disk : FileSystem Disk
unfolding get? put has erase str_eq
disk = record {
  path_exists = λ p w. has w p;
  directory_exists = λ p w. false;
  create_directory = λ p w. (w, true);
  copy_file = λ p q w. (w, false);
  delete_file = λ p w. (erase w p, true);
  read_file = λ p w. get? w p;
  open_file = λ p w. some (put w p []);
  write_file = λ p t w. (put w p t, true);
  read-write = read-put;
  read-write_ne = read-put_ne;
  read-delete = λ p w h. get?-erase w p;
}
