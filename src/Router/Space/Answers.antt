-- ===== src/Router/Space/Answers.antt =====
-- service/router/space_connection.cc, GetDocs over the partitions that HashKeys gives.
use sim_search.Prelude.{
  ℕ, ◌≡◌, refl, ◌∙◌, Bool, false, ◌||◌, List, [], ◌∷◌, arith, ◌<◌, All, subst, length, Bool-cases,
  inl, inr, if◌then◌else◌, Str, str_eq, str_key, nat_key, ◌++◌,
}
use sim_search.Prelude.Assoc.{get?, put, has, has-put}
use sim_search.Utils.Hash.{get_partition_id}
use sim_search.Common.Messages.{Document}
use sim_search.External.Network.{Network}
use sim_search.Router.Hashing.{add_key, add_keys, hash_keys, at}
use sim_search.Router.Partition
use sim_search.Router.Partition.Answers.{asks, get_docs-IsAnswer}
use sim_search.Router.Space.Bounds.{AllBelow, hash_keys-AllBelow}
use sim_search.Router.Space.{SpaceConnection, put_all, get_docs, partition_at}

pub has-put_all :
    {V : Type 0} (err_mp one : List (Str × V)) (j : Str)
    → has (put_all err_mp one) j ≡ (has one j || has err_mp j)
unfolding put_all has
has-put_all err_mp [] j = refl
has-put_all err_mp ((key, v) ∷ one) j =
    ground (arith, has-put_all (put err_mp key v) one j, has-put err_mp key v j)

-- Whether some group asks for a key.
some_asks : List (ℕ × List Str) → Str → Bool
some_asks [] j = false
some_asks ((i, keys) ∷ groups) j = asks keys j || some_asks groups j

module _ {W : Type 0} (net : Network W) where
  get_docs-covers :
      (conn : SpaceConnection) (groups : List (ℕ × List Str)) (err_mp : List (Str × Str))
      (docs : List (Str × Document)) (w : W) (j : Str)
      → (has (get_docs net conn groups err_mp docs w).1 j
          || has (get_docs net conn groups err_mp docs w).2 j)
        ≡ (some_asks groups j || has err_mp j || has docs j)
  unfolding get_docs some_asks has
  get_docs-covers conn [] err_mp docs w j = refl
  get_docs-covers conn ((idx, keys) ∷ groups) err_mp docs w j =
      let (w', err, one) = Partition.get_docs net (partition_at conn idx) keys [] w in
      let covered = (get_docs-IsAnswer net (partition_at conn idx) keys [] w j).covered in
      get_docs-covers conn groups (put_all err_mp err) (put_all docs one) w' j
      ∙ ground (arith, covered, has-put_all err_mp err j, has-put_all docs one j)

asks-append :
    (keys : List Str) (key j : Str) → asks (keys ++ key ∷ []) j ≡ (str_eq key j || asks keys j)
unfolding asks
asks-append [] key j = refl
asks-append (k ∷ keys) key j = ground (arith, asks-append keys key j)

some_asks-put_nil :
    (groups : List (ℕ × List Str)) (i : ℕ) (j : Str)
    → has groups i ≡ false
    → some_asks (put groups i []) j ≡ some_asks groups j
unfolding some_asks put has asks
some_asks-put_nil [] i j h = refl
some_asks-put_nil ((k, keys) ∷ groups) i j h = ground (arith, some_asks-put_nil groups i j)

at-asked :
    (groups : List (ℕ × List Str)) (i : ℕ) (j : Str)
    → (asks (at groups i []) j || some_asks groups j) ≡ some_asks groups j
unfolding some_asks get? asks
at-asked [] i j = refl
at-asked ((k, keys) ∷ groups) i j = ground (arith, at-asked groups i j)

-- A group that takes one more key in.
some_asks-put :
    (groups : List (ℕ × List Str)) (i : ℕ) (new : List Str) (key j : Str)
    → asks new j ≡ (str_eq key j || asks (at groups i []) j)
    → some_asks (put groups i new) j ≡ (str_eq key j || some_asks groups j)
unfolding some_asks put get? asks
some_asks-put [] i new key j h = ground (arith, h)
some_asks-put ((k, keys) ∷ groups) i new key j h =
    ground (arith, h, some_asks-put groups i new key j, at-asked groups i j)

module _ (hash : Str → ℕ) (partition_num : ℕ) where
  add_key-asks :
      (groups : List (ℕ × List Str)) (key j : Str)
      → some_asks (add_key hash partition_num groups key) j ≡ (str_eq key j || some_asks groups j)
  unfolding add_key
  add_key-asks groups key j =
      let i = get_partition_id hash key partition_num in
      let m = if has groups i then groups else put groups i [] in
      let same : some_asks m j ≡ some_asks groups j = elim (Bool-cases (has groups i)) [
        | inl e ↦ rw e refl
        | inr e ↦ rw e (some_asks-put_nil groups i j e)
      ] in
      some_asks-put m i (at m i [] ++ key ∷ []) key j (asks-append (at m i []) key j) ∙ rw same refl

  add_keys-asks :
      (keys : List Str) (groups : List (ℕ × List Str)) (j : Str)
      → some_asks (add_keys hash partition_num groups keys) j ≡ (asks keys j || some_asks groups j)
  unfolding add_keys asks
  add_keys-asks [] groups j = refl
  add_keys-asks (key ∷ keys) groups j = ground (
    arith,
    add_keys-asks keys (add_key hash partition_num groups key) j,
    add_key-asks groups key j,
  )

  -- `GetDocs` over the groups of `HashKeys` answers the keys of the request.
  pub get_docs-asks :
      {W : Type 0} (net : Network W) (conn : SpaceConnection) (keys : List Str) (w : W) (j : Str)
      → (has (get_docs net conn (hash_keys hash partition_num keys) [] [] w).1 j
          || has (get_docs net conn (hash_keys hash partition_num keys) [] [] w).2 j)
        ≡ asks keys j
  unfolding hash_keys some_asks has
  get_docs-asks net conn keys w j =
      get_docs-covers net conn (hash_keys hash partition_num keys) [] [] w j
      ∙ ground (arith, add_keys-asks keys [] j)

module _ {W : Type 0} (hash : Str → ℕ) (net : Network W) where
  -- For a space whose number of partitions is above zero and is that of its connections: each group
  -- of `HashKeys` has the index of a connection, and `GetDocs` over the groups gives an error or a
  -- document to each key of the request, and to no other.
  pub get_docs-hash_keys :
      (conn : SpaceConnection) (keys : List Str) (w : W) (j : Str)
      → 0 < conn.pb_space.partition_num
      → conn.pb_space.partition_num ≡ length conn.partition_list
      → let groups = hash_keys hash conn.pb_space.partition_num keys in
        All (λ p. p.0 < length conn.partition_list) groups
        × ((has (get_docs net conn groups [] [] w).1 j
              || has (get_docs net conn groups [] [] w).2 j)
            ≡ asks keys j)
  get_docs-hash_keys conn keys w j some_partition same = (
    subst (λ n. AllBelow n (hash_keys hash conn.pb_space.partition_num keys)) same
        (hash_keys-AllBelow hash conn.pb_space.partition_num keys some_partition),
    get_docs-asks hash conn.pb_space.partition_num net conn keys w j,
  )
