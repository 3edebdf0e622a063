-- ===== src/External/Files.antt =====
-- Files through their descriptors, as POSIX and butil's file_util reach them. `content` is what a file
-- holds, by which the laws say what the calls do.
use sim_search.Prelude.{
  ℕ, ◌+◌, ◌≤◌, ◌≡◌, Bool, true, false, ◌++◌, Option, some, ◌==◌, length, take, drop, Str,
}

pub record Files (W : Type 0) : Type 0 where
  pub path_exists : Str → W → Bool
  pub directory_exists : Str → W → Bool
  pub copy_file : Str → Str → W → W
  -- `rename`: whether it was done.
  pub rename : Str → Str → W → W × Bool
  pub delete_file : Str → W → W
  pub close : ℕ → W → W
  -- `open` for reading and writing; none: the source takes the descriptor as a failure.
  pub open_file : Str → W → W × Option ℕ
  -- `lseek` to the end.
  pub size : ℕ → W → ℕ
  -- `lseek` and `write`: whether all bytes were written.
  pub write_at : ℕ → ℕ → Str → W → W × Bool
  -- `lseek` and `read`; none: fewer bytes were read.
  pub read_at : ℕ → ℕ → ℕ → W → Option Str
  pub content : ℕ → W → Str
  pub size-content : (fd : ℕ) (w : W) → size fd w ≡ length (content fd w)
  pub read-content :
      (fd off n : ℕ) (w : W)
      → off + n ≤ length (content fd w)
      → read_at fd off n w ≡ some (take n (drop off (content fd w)))
  pub write-end :
      (fd off : ℕ) (s : Str) (w : W)
      → off ≡ length (content fd w)
      → (write_at fd off s w).1 ≡ true
      → content fd (write_at fd off s w).0 ≡ content fd w ++ s
  pub write-other :
      (fd other off : ℕ) (s : Str) (w : W)
      → (fd == other) ≡ false
      → content other (write_at fd off s w).0 ≡ content other w
