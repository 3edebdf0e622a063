-- ===== src/Router/Hashing/Groups.antt =====
-- HashKeys and HashDocs against their description: each partition gets its own keys, in their order.
use sim_search.Prelude.{
  ℕ, ◌≡◌, refl, ◌∙◌, List, [], ◌∷◌, ◌++◌, Option, none, some, arith, Bool-cases, inl, inr, ◌⊎◌,
  if◌then◌else◌, ◌==◌, is_empty, length, Str, nat_key,
}
use sim_search.Prelude.Assoc.{get?, put, has, get?-put, has-get?}
use sim_search.Utils.Hash.{get_partition_id}
use sim_search.Common.Messages.{Document}
use sim_search.Router.Hashing.{
  PbDocInfo, DocsGroup, at, new_group, add_key, add_keys, hash_keys, ensure_group, ensure_groups,
  add_doc, add_docs, hash_docs,
}
use mathlib.Core.List.{append_assoc}

-- A group and what joins it: none stays none where nothing joins.
abbrev pub joined : Option (List Str) → List Str → Option (List Str)
joined o [] = o
joined none (k ∷ ks) = some (k ∷ ks)
joined (some l) (k ∷ ks) = some (l ++ k ∷ ks)

module _ (hash : Str → ℕ) (partition_num : ℕ) where
  -- The keys of one partition, in the order of the request.
  unfoldable pub keys_of : ℕ → List Str → List Str
  keys_of p [] = []
  keys_of p (key ∷ keys) =
      if get_partition_id hash key partition_num == p then key ∷ keys_of p keys else keys_of p keys

  get?-add_key :
      (m : List (ℕ × List Str)) (key : Str) (p : ℕ)
      → get? (add_key hash partition_num m key) p ≡ (
          if get_partition_id hash key partition_num == p
          then joined (get? m p) (key ∷ [])
          else get? m p)
  unfolding add_key
  get?-add_key m key p =
      let q : ℕ = get_partition_id hash key partition_num in
      ground (
        arith,
        has-get? m q,
        get?-put m q [] p,
        get?-put m q [] q,
        get?-put (if has m q then m else put m q []) q
            (at (if has m q then m else put m q []) q [] ++ key ∷ []) p,
      )

  joined-cons :
      (o : Option (List Str)) (k : Str) (ks : List Str)
      → joined (joined o (k ∷ [])) ks ≡ joined o (k ∷ ks)
  joined-cons none k [] = refl
  joined-cons none k (j ∷ ks) = refl
  joined-cons (some l) k [] = refl
  joined-cons (some l) k (j ∷ ks) = rw append_assoc

  get?-add_keys :
      (m : List (ℕ × List Str)) (keys : List Str) (p : ℕ)
      → get? (add_keys hash partition_num m keys) p ≡ joined (get? m p) (keys_of p keys)
  unfolding add_keys keys_of
  get?-add_keys m [] p = refl
  get?-add_keys m (key ∷ keys) p =
      rw (get?-add_keys (add_key hash partition_num m key) keys p, get?-add_key m key p)
        (elim (Bool-cases (get_partition_id hash key partition_num == p)) [
          | inl e ↦ rw e (joined-cons (get? m p) key (keys_of p keys))
          | inr e ↦ rw e refl
        ])

  -- `HashKeys` maps a partition to the keys of the request that hash to it, in their order, and has no
  -- entry for a partition that no key hashes to.
  get?-hash_keys :
      (keys : List Str) (p : ℕ)
      → get? (hash_keys hash partition_num keys) p
        ≡ (if is_empty (keys_of p keys) then none else some (keys_of p keys))
  unfolding hash_keys get?
  get?-hash_keys keys p = get?-add_keys [] keys p ∙ ground arith

-- A group and the documents that join it.
abbrev grown : Option DocsGroup → ℕ → List PbDocInfo → Option DocsGroup
grown o p [] = o
grown none p (x ∷ xs) = some (record { partition_id = p; pb_doc_infos = x ∷ xs; data_text = [] })
grown (some g) p (x ∷ xs) = some (record g { pb_doc_infos = g.pb_doc_infos ++ x ∷ xs })

module _ (hash : Str → ℕ) (partition_num : ℕ) where
  -- The documents of one partition with their keys, in the order of the request.
  unfoldable pub infos_of : ℕ → List Document → List Str → List PbDocInfo
  infos_of p [] keys = []
  infos_of p (doc ∷ docs) [] = []
  infos_of p (doc ∷ docs) (key ∷ keys) =
      if get_partition_id hash key partition_num == p
      then record { key = key; pb_doc = doc } ∷ infos_of p docs keys
      else infos_of p docs keys

  get?-add_doc :
      (m : List (ℕ × DocsGroup)) (key : Str) (doc : Document) (p : ℕ)
      → get? (add_doc hash partition_num m key doc) p ≡ (
          if get_partition_id hash key partition_num == p
          then grown (get? m p) p (record { key = key; pb_doc = doc } ∷ [])
          else get? m p)
  unfolding add_doc ensure_group
  get?-add_doc m key doc p =
      let q : ℕ = get_partition_id hash key partition_num in
      let m' : List (ℕ × DocsGroup) = ensure_group hash partition_num m key in
      ground (
        arith,
        has-get? m q,
        get?-put m q (new_group q) p,
        get?-put m q (new_group q) q,
        get?-put m' q
            (record (at m' q (new_group q)) {
              pb_doc_infos =
                  (at m' q (new_group q)).pb_doc_infos ++ record { key = key; pb_doc = doc } ∷ [];
            })
            p,
      )

  grown-cons :
      (o : Option DocsGroup) (p : ℕ) (x : PbDocInfo) (xs : List PbDocInfo)
      → grown (grown o p (x ∷ [])) p xs ≡ grown o p (x ∷ xs)
  grown-cons none p x [] = refl
  grown-cons none p x (y ∷ xs) = refl
  grown-cons (some g) p x [] = refl
  grown-cons (some g) p x (y ∷ xs) = rw append_assoc

  get?-add_docs :
      (m : List (ℕ × DocsGroup)) (docs : List Document) (keys : List Str) (p : ℕ)
      → get? (add_docs hash partition_num m docs keys) p ≡ grown (get? m p) p (infos_of p docs keys)
  unfolding add_docs infos_of
  get?-add_docs m [] keys p = refl
  get?-add_docs m (doc ∷ docs) [] p = refl
  get?-add_docs m (doc ∷ docs) (key ∷ keys) p =
      rw
        (get?-add_docs (add_doc hash partition_num m key doc) docs keys p, get?-add_doc m key doc p)
        (elim (Bool-cases (get_partition_id hash key partition_num == p)) [
          | inl e ↦
              rw e (
                grown-cons (get? m p) p (record { key = key; pb_doc = doc }) (infos_of p docs keys))
          | inr e ↦ rw e refl
        ])

  get?-ensure_group :
      (m : List (ℕ × DocsGroup)) (key : Str) (p : ℕ)
      → get? (ensure_group hash partition_num m key) p ≡ (
          if get_partition_id hash key partition_num == p
          then some (at m p (new_group p))
          else get? m p)
  unfolding ensure_group
  get?-ensure_group m key p =
      let q : ℕ = get_partition_id hash key partition_num in
      ground (arith, has-get? m q, get?-put m q (new_group q) p)

  -- After the first loop a partition has an empty group or none, as the keys say.
  get?-ensure_groups :
      (m : List (ℕ × DocsGroup)) (keys : List Str) (p : ℕ)
      → (get? m p ≡ none) ⊎ (get? m p ≡ some (new_group p))
      → get? (ensure_groups hash partition_num m keys) p
        ≡ (if is_empty (keys_of hash partition_num p keys) then get? m p else some (new_group p))
  unfolding ensure_groups keys_of
  get?-ensure_groups m [] p h = refl
  get?-ensure_groups m (key ∷ keys) p h = ground (
    arith,
    get?-ensure_group m key p,
    get?-ensure_groups (ensure_group hash partition_num m key) keys p,
  )

  is_empty-infos_of :
      (p : ℕ) (docs : List Document) (keys : List Str)
      → length docs ≡ length keys
      → is_empty (infos_of p docs keys) ≡ is_empty (keys_of hash partition_num p keys)
  unfolding infos_of keys_of
  is_empty-infos_of p [] [] h = refl
  is_empty-infos_of p [] (key ∷ keys) h = absurd (omega arith)
  is_empty-infos_of p (doc ∷ docs) [] h = absurd (omega arith)
  is_empty-infos_of p (doc ∷ docs) (key ∷ keys) h = ground (arith, is_empty-infos_of p docs keys)

  -- `HashDocs`, given a key for each document, maps a partition to a group with its id, and with the
  -- documents whose keys hash to it, in their order; it has no group with no document.
  pub get?-hash_docs :
      (docs : List Document) (keys : List Str) (p : ℕ)
      → length docs ≡ length keys
      → get? (hash_docs hash partition_num docs keys) p ≡ (
          if is_empty (infos_of p docs keys)
          then none
          else some
              (record { partition_id = p; pb_doc_infos = infos_of p docs keys; data_text = [] }))
  unfolding hash_docs get?
  get?-hash_docs docs keys p h =
      get?-add_docs (ensure_groups hash partition_num [] keys) docs keys p
      ∙ ground (arith, get?-ensure_groups [] keys p (inl refl), is_empty-infos_of p docs keys h)
