-- ===== src/Router/Hashing.antt =====
-- service/router/space_manager.cc, HashDocs and HashKeys: documents and keys by partition.
-- A partition id is below 2^31, so `int` holds it.
pub mod Groups
use sim_search.Prelude.{
  ℕ, ◌≡◌, Bool, true, false, List, [], ◌∷◌, ◌++◌, Option, none, some, if◌then◌else◌, Str, nat_key,
}
use sim_search.Prelude.Assoc.{get?, put, has}
use sim_search.Utils.Hash.{get_partition_id}
use sim_search.Common.Messages.{Document}

-- service/router/partition_connection.h
pub record PbDocInfo : Type 0 where
  pub key : Str
  pub pb_doc : Document

pub record DocsGroup : Type 0 where
  pub partition_id : ℕ
  pub pb_doc_infos : List PbDocInfo
  pub data_text : Str

-- `m[k]` where `k` is in the map.
abbrev pub at : {V : Type 0} → List (ℕ × V) → ℕ → V → V
at m k default = elim (get? m k) [ none ↦ default | some v ↦ v ]

abbrev pub new_group : ℕ → DocsGroup
new_group partition_id = record { partition_id = partition_id; pb_doc_infos = []; data_text = [] }

module _ (hash : Str → ℕ) (partition_num : ℕ) where
  -- The body of the loop of `HashKeys`.
  unfoldable pub add_key : List (ℕ × List Str) → Str → List (ℕ × List Str)
  add_key idx_to_keys key =
      let partition_id = get_partition_id hash key partition_num in
      let m =
        if has idx_to_keys partition_id then idx_to_keys else put idx_to_keys partition_id [] in
      put m partition_id (at m partition_id [] ++ key ∷ [])

  unfoldable pub add_keys : List (ℕ × List Str) → List Str → List (ℕ × List Str)
  add_keys idx_to_keys [] = idx_to_keys
  add_keys idx_to_keys (key ∷ keys) = add_keys (add_key idx_to_keys key) keys

  unfoldable pub hash_keys : List Str → List (ℕ × List Str)
  hash_keys doc_keys = add_keys [] doc_keys

  -- What both loops of `HashDocs` do where a partition has no group yet.
  unfoldable pub ensure_group : List (ℕ × DocsGroup) → Str → List (ℕ × DocsGroup)
  ensure_group groups key =
      let partition_id = get_partition_id hash key partition_num in
      if has groups partition_id then groups else put groups partition_id (new_group partition_id)

  unfoldable pub ensure_groups : List (ℕ × DocsGroup) → List Str → List (ℕ × DocsGroup)
  ensure_groups groups [] = groups
  ensure_groups groups (key ∷ keys) = ensure_groups (ensure_group groups key) keys

  unfoldable pub add_doc : List (ℕ × DocsGroup) → Str → Document → List (ℕ × DocsGroup)
  unfolding ensure_group
  add_doc groups key doc =
      let partition_id = get_partition_id hash key partition_num in
      let m = ensure_group groups key in
      let docs_grp = at m partition_id (new_group partition_id) in
      put m partition_id (record docs_grp {
        pb_doc_infos = docs_grp.pb_doc_infos ++ record { key = key; pb_doc = doc } ∷ [];
      })

  -- The caller gives as many keys as documents.
  unfoldable pub add_docs : List (ℕ × DocsGroup) → List Document → List Str → List (ℕ × DocsGroup)
  add_docs groups [] keys = groups
  add_docs groups (doc ∷ docs) [] = groups
  add_docs groups (doc ∷ docs) (key ∷ keys) = add_docs (add_doc groups key doc) docs keys

  unfoldable pub hash_docs : List Document → List Str → List (ℕ × DocsGroup)
  unfolding ensure_groups add_docs
  hash_docs docs doc_keys = add_docs (ensure_groups [] doc_keys) docs doc_keys
