-- ===== src/Utils/FileTool.antt =====
-- utils/file_tool.cc, BackupFile.
use sim_search.Prelude.{
  ℕ, zero, suc, ◌+◌, true, false, not, ◌&&◌, [], ◌++◌, if◌then◌else◌, Str, codes, to_string,
}
use sim_search.External.Files.{Files}

unfoldable pub rename_failed : Str → Str → Str
unfolding codes
rename_failed filename new_path_file =
    filename ++ codes " file rename to " ++ new_path_file ++ codes " file failed"

module _ {W : Type 0} (files : Files W) where
  -- The numbers from `i`; the loop goes on after a file was renamed.
  unfoldable pub backup_from : ℕ → ℕ → Str → W → Str × W
  unfolding rename_failed to_string
  backup_from zero i filename w = ([], w)
  backup_from (suc rounds) i filename w =
      let new_path_file = filename ++ to_string i in
      elim (files.path_exists new_path_file w && not (files.directory_exists new_path_file w)) [
        | true ↦ backup_from rounds (i + 1) filename w
        | false ↦
            let (w', done) = files.rename filename new_path_file w in
            elim done [
              | true ↦ backup_from rounds (i + 1) filename w'
              | false ↦ (rename_failed filename new_path_file, w')
            ]
      ]

  unfoldable pub backup_file : Str → W → Str × W
  unfolding backup_from
  backup_file filename w =
      if files.path_exists filename w then backup_from 100 0 filename w else ([], w)
