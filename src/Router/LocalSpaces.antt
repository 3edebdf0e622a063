-- ===== src/Router/LocalSpaces.antt =====
-- service/router/local_spaces.{h,cc}: the router's copy of the list of spaces, and its file.
use sim_search.Prelude.{
  ℕ, zero, suc, ◌+◌, Bool, true, false, not, ◌&&◌, List, [], ◌∷◌, ◌++◌, none, some, if◌then◌else◌,
  Str, str_eq, codes, to_string,
}
use sim_search.Common.Messages.{Space}
use sim_search.External.Codec.{Codec}
use sim_search.External.FileSystem.{FileSystem}

pub record LocalSpaces : Type 0 where
  pub filename : Str
  pub path : Str
  pub pb_spaces : List Space

unfoldable pub get_spaces : LocalSpaces → List Space
get_spaces l = l.pb_spaces

unfoldable pub add_space : LocalSpaces → Space → LocalSpaces × Bool
add_space l space = (record l { pb_spaces = l.pb_spaces ++ space ∷ [] }, true)

-- `SetSpaces` clears the list and calls `AddSpace` for each space.
unfoldable pub add_all : LocalSpaces → List Space → LocalSpaces
add_all l [] = l
add_all l (space ∷ spaces) = add_all (add_space l space).0 spaces

unfoldable pub set_spaces : LocalSpaces → List Space → LocalSpaces
unfolding add_all add_space
set_spaces l spaces = add_all (record l { pb_spaces = [] }) spaces

unfoldable pub is_named : Str → Str → Space → Bool
unfolding str_eq
is_named db_name space_name space =
    str_eq space.db_name db_name && str_eq space.space_name space_name

-- The loop of `DeleteSpace`: it goes down from the last position, so the rest is done first.
unfoldable pub delete_named : Str → Str → List Space → List Space × Bool
unfolding is_named
delete_named db_name space_name [] = ([], false)
delete_named db_name space_name (space ∷ spaces) =
    let (rest, is_del) = delete_named db_name space_name spaces in
    if is_named db_name space_name space then (rest, true) else (space ∷ rest, is_del)

unfoldable pub delete_space : LocalSpaces → Str → Str → LocalSpaces × Bool
unfolding delete_named
delete_space l db_name space_name =
    let (spaces, is_del) = delete_named db_name space_name l.pb_spaces in
    (record l { pb_spaces = spaces }, is_del)

unfoldable pub path_file : LocalSpaces → Str
unfolding codes
path_file l = l.path ++ codes "/" ++ l.filename

module _ {W : Type 0} (fs : FileSystem W) where
  -- The numbers that the loop of `Init` tries, `rounds` of them from `i`.
  unfoldable pub backup_from : ℕ → ℕ → LocalSpaces → W → W
  unfolding codes to_string
  backup_from zero i l w = w
  backup_from (suc rounds) i l w =
      let fp = l.path ++ codes "/" ++ l.filename ++ to_string i in
      let next = backup_from rounds (i + 1) l w in
      if fs.path_exists fp w && not (fs.directory_exists fp w)
      then next
      else (fs.copy_file l.path fp w).0

  unfoldable pub init : LocalSpaces → Str → Str → W → LocalSpaces × Bool × W
  unfolding backup_from
  init l path filename w =
      let l' = record l { path = path; filename = filename } in
      let (made, done) = fs.create_directory path w in
      if fs.path_exists path w then (l', true, backup_from 100 0 l' w) else (l', done, made)

  module _ (json : Codec (List Space)) where
    unfoldable pub load : LocalSpaces → W → LocalSpaces × Bool
    unfolding path_file
    load l w = elim (fs.read_file (path_file l) w) [
      | none ↦ (record l { pb_spaces = [] }, false)
      | some text ↦
          let (spaces, parsed) = json.parse text in (record l { pb_spaces = spaces }, parsed)
    ]

    -- The file is opened, and so emptied, before the list is converted; whether its stream failed is
    -- not looked at.
    unfoldable pub save : LocalSpaces → W → Bool × W
    unfolding path_file
    save l w = elim (fs.open_file (path_file l) w) [
      | none ↦ (false, w)
      | some opened ↦ elim (json.print l.pb_spaces) [
        | none ↦ (false, opened)
        | some text ↦ (true, (fs.write_file (path_file l) text opened).0)
      ]
    ]
