-- ===== src/Router/Space/Bounds.antt =====
-- service/router/space_connection.cc: the indices of the groups of keys and documents, and the list of
-- connections that they index.
use sim_search.Prelude.{
  ℕ, suc, ◌<◌, ◌≡◌, refl, ap, ◌∙◌, subst, ◌==◌, ltb, All, if-both, length, length-set, set, sym,
  List, [], ◌∷◌, ◌++◌, Option, if◌then◌else◌, Str, nat_key,
}
use sim_search.Prelude.Assoc.{put, has}
use sim_search.Common.Messages.{Document, Partition, Space}
use sim_search.External.Network.{Network}
use sim_search.Router.Hashing.{
  DocsGroup, add_key, add_keys, hash_keys, ensure_group, ensure_groups, add_doc, add_docs,
  hash_docs, at, new_group,
}
use sim_search.Router.Partition
use sim_search.Router.Space.{
  SpaceConnection, init_partitions, init, upsert_docs, partition_at, put_all,
}
use sim_search.Utils.Hash.{get_partition_id, get_partition_id-lt}

-- Groups whose indices are below a number.
abbrev pub AllBelow : {V : Type 0} → ℕ → List (ℕ × V) → Type 0
AllBelow n groups = All (λ p. p.0 < n) groups

put-AllBelow :
    {V : Type 0} (n i : ℕ) (v : V) (groups : List (ℕ × V))
    → i < n
    → AllBelow n groups
    → AllBelow n (put groups i v)
unfolding put
put-AllBelow n i v [] h hs = (h, tt)
put-AllBelow n i v ((k, u) ∷ groups) h (b, hs) =
    if-both (AllBelow n) (k == i) (λ e. (h, hs))
      (λ e.
        if-both (AllBelow n) (ltb i k) (λ f. (h, (b, hs)))
          (λ f. (b, put-AllBelow n i v groups h hs)))

module _ (hash : Str → ℕ) (partition_num : ℕ) where
  add_keys-AllBelow :
      (groups : List (ℕ × List Str)) (keys : List Str)
      → 0 < partition_num
      → AllBelow partition_num groups
      → AllBelow partition_num (add_keys hash partition_num groups keys)
  unfolding add_keys add_key
  add_keys-AllBelow groups [] h below = below
  add_keys-AllBelow groups (key ∷ keys) h below =
      let i = get_partition_id hash key partition_num in
      let small = get_partition_id-lt hash key partition_num h in
      let m = if has groups i then groups else put groups i [] in
      let m_below : AllBelow partition_num m =
        if-both (AllBelow partition_num) (has groups i) (λ e. below)
          (λ e. put-AllBelow partition_num i [] groups small below) in
      add_keys-AllBelow (add_key hash partition_num groups key) keys h
        (put-AllBelow partition_num i (at m i [] ++ key ∷ []) m small m_below)

  pub hash_keys-AllBelow :
      (keys : List Str)
      → 0 < partition_num
      → AllBelow partition_num (hash_keys hash partition_num keys)
  unfolding hash_keys
  hash_keys-AllBelow keys h = add_keys-AllBelow [] keys h tt

  ensure_group-AllBelow :
      (groups : List (ℕ × DocsGroup)) (key : Str)
      → 0 < partition_num
      → AllBelow partition_num groups
      → AllBelow partition_num (ensure_group hash partition_num groups key)
  unfolding ensure_group
  ensure_group-AllBelow groups key h below =
      let i = get_partition_id hash key partition_num in
      if-both (AllBelow partition_num) (has groups i) (λ e. below)
        (λ e.
          put-AllBelow partition_num i (new_group i) groups
            (get_partition_id-lt hash key partition_num h) below)

  ensure_groups-AllBelow :
      (groups : List (ℕ × DocsGroup)) (keys : List Str)
      → 0 < partition_num
      → AllBelow partition_num groups
      → AllBelow partition_num (ensure_groups hash partition_num groups keys)
  unfolding ensure_groups
  ensure_groups-AllBelow groups [] h below = below
  ensure_groups-AllBelow groups (key ∷ keys) h below =
      ensure_groups-AllBelow (ensure_group hash partition_num groups key) keys h
        (ensure_group-AllBelow groups key h below)

  add_doc-AllBelow :
      (groups : List (ℕ × DocsGroup)) (key : Str) (doc : Document)
      → 0 < partition_num
      → AllBelow partition_num groups
      → AllBelow partition_num (add_doc hash partition_num groups key doc)
  unfolding add_doc
  add_doc-AllBelow groups key doc h below =
      put-AllBelow partition_num (get_partition_id hash key partition_num) _
        (ensure_group hash partition_num groups key) (get_partition_id-lt hash key partition_num h)
        (ensure_group-AllBelow groups key h below)

  add_docs-AllBelow :
      (groups : List (ℕ × DocsGroup)) (docs : List Document) (keys : List Str)
      → 0 < partition_num
      → AllBelow partition_num groups
      → AllBelow partition_num (add_docs hash partition_num groups docs keys)
  unfolding add_docs
  add_docs-AllBelow groups [] keys h below = below
  add_docs-AllBelow groups (doc ∷ docs) [] h below = below
  add_docs-AllBelow groups (doc ∷ docs) (key ∷ keys) h below =
      add_docs-AllBelow (add_doc hash partition_num groups key doc) docs keys h
        (add_doc-AllBelow groups key doc h below)

  hash_docs-AllBelow :
      (docs : List Document) (keys : List Str)
      → 0 < partition_num
      → AllBelow partition_num (hash_docs hash partition_num docs keys)
  unfolding hash_docs
  hash_docs-AllBelow docs keys h =
      add_docs-AllBelow (ensure_groups hash partition_num [] keys) docs keys h
        (ensure_groups-AllBelow [] keys h tt)

-- There are partitions, and a connection for each.
abbrev IsCounted : SpaceConnection → Type 0
IsCounted conn =
    (0 < conn.pb_space.partition_num) × (conn.pb_space.partition_num ≡ length conn.partition_list)

module _ {W : Type 0} (net : Network W) where
  init_partitions-length :
      (db_name space_name : Str) (partitions : List Partition) (w : W)
      → length (init_partitions net db_name space_name partitions w).0 ≡ length partitions
  unfolding init_partitions
  init_partitions-length db_name space_name [] w = refl
  init_partitions-length db_name space_name (partition ∷ partitions) w =
      ap suc (init_partitions-length db_name space_name partitions _)

  init-IsCounted :
      (space : Space) (w : W)
      → 0 < space.partition_num
      → space.partition_num ≡ length space.partitions
      → IsCounted (init net space w).0
  unfolding init
  init-IsCounted space w some_partition same = (
    some_partition,
    same ∙ sym (init_partitions-length space.db_name space.space_name space.partitions w),
  )

  module _ (serialize : Document → Option Str) where
    upsert_docs-IsCounted :
        (conn : SpaceConnection) (groups : List (ℕ × DocsGroup)) (err_mp : List (Str × Str)) (w : W)
        → IsCounted conn
        → IsCounted (upsert_docs net serialize conn groups err_mp w).1
    unfolding upsert_docs
    upsert_docs-IsCounted conn [] err_mp w counted = counted
    upsert_docs-IsCounted conn ((idx, docs_grp) ∷ groups) err_mp w (some_partition, same) =
        let (w', p, one_grp_res) =
          Partition.upsert_docs net serialize (partition_at conn idx) docs_grp w in
        upsert_docs-IsCounted (record conn { partition_list = set conn.partition_list idx p })
          groups (put_all err_mp one_grp_res) w' (some_partition, rw length-set same)

    -- The connection after writes of these groups, each with the errors and in the world given.
    unfoldable pub upsert_all :
        SpaceConnection → List (List (ℕ × DocsGroup) × List (Str × Str) × W) → SpaceConnection
    upsert_all conn [] = conn
    upsert_all conn ((groups, err_mp, w) ∷ batches) =
        upsert_all (upsert_docs net serialize conn groups err_mp w).1 batches

    upsert_all-IsCounted :
        (conn : SpaceConnection) (batches : List (List (ℕ × DocsGroup) × List (Str × Str) × W))
        → IsCounted conn
        → IsCounted (upsert_all conn batches)
    unfolding upsert_all
    upsert_all-IsCounted conn [] counted = counted
    upsert_all-IsCounted conn ((groups, err_mp, w) ∷ batches) counted =
        upsert_all-IsCounted (upsert_docs net serialize conn groups err_mp w).1 batches
          (upsert_docs-IsCounted conn groups err_mp w counted)

    -- For a space that has partitions, as many as its number says: after the `Init` of its connection
    -- and any calls of `UpsertDocs`, each group that `HashKeys` and `HashDocs` make by the number of
    -- partitions of the connection's space has the index of a partition in the connection's list.
    pub upsert_all-init-AllBelow :
        (hash : Str → ℕ) (space : Space)
        (batches : List (List (ℕ × DocsGroup) × List (Str × Str) × W)) (docs : List Document)
        (keys : List Str) (w : W)
        → 0 < space.partition_num
        → space.partition_num ≡ length space.partitions
        → let conn = upsert_all (init net space w).0 batches in
          All
            (λ p. p.0 < length conn.partition_list)
            (hash_keys hash conn.pb_space.partition_num keys)
          × All
              (λ p. p.0 < length conn.partition_list)
              (hash_docs hash conn.pb_space.partition_num docs keys)
    upsert_all-init-AllBelow hash space batches docs keys w some_partition same =
        let conn = upsert_all (init net space w).0 batches in
        let (positive, count) =
          upsert_all-IsCounted (init net space w).0 batches
            (init-IsCounted space w some_partition same) in
        let num = conn.pb_space.partition_num in
        (
          subst (λ n. AllBelow n (hash_keys hash num keys)) count
              (hash_keys-AllBelow hash num keys positive),
          subst (λ n. AllBelow n (hash_docs hash num docs keys)) count
              (hash_docs-AllBelow hash num docs keys positive),
        )
