-- ===== src/Raft/Block/Disk.antt =====
-- raft_store/raft_store.{h,cc}: the calls of the system on files: the descriptor that blocks share, which
-- is closed with its last owner, and a link that takes the place of a file. An error is its `errno`.
use sim_search.Prelude.{ℕ, Bool, true, false, ◌==◌, Option, none, some, if◌then◌else◌, Str}
use sim_search.Prelude.Retry.{retry}

-- none: the call gave no error.
pub record Posix (W : Type 0) : Type 0 where
  pub close : ℕ → W → W × Option ℕ
  pub unlink : Str → W → W × Option ℕ
  pub link : Str → Str → W → W × Option ℕ
  pub eintr : ℕ
  pub enoent : ℕ

module _ {W : Type 0} (posix : Posix W) where
  -- One round of the destructor's loop: none where a signal came between.
  unfoldable pub try_close : ℕ → W → W × Option (Unit {0})
  try_close fd w =
      let (w', error) = posix.close fd w in
      (
        w',
        elim error [ none ↦ some tt | some errno ↦ if errno == posix.eintr then none else some tt ],
      )

  -- The destructor of `SharedFD`, with a descriptor of -1 as none; none: still at it after these rounds.
  unfoldable pub close_shared : ℕ → Option ℕ → W → Option W
  unfolding try_close
  close_shared rounds none w = some w
  close_shared rounds (some fd) w =
      let (w', done) = retry (try_close fd) rounds w in
      elim done [ none ↦ none | some closed ↦ some w' ]

  -- Whether it returns 0.
  unfoldable pub link_overwrite : Str → Str → W → Bool × W
  link_overwrite old_path new_path w =
      let (w1, error) = posix.unlink new_path w in
      let (w2, failure) = posix.link old_path new_path w1 in
      let linked : Bool = elim failure [ none ↦ true | some errno ↦ false ] in
      elim error [
        | none ↦ (linked, w2)
        | some errno ↦ if errno == posix.enoent then (linked, w2) else (false, w1)
      ]
