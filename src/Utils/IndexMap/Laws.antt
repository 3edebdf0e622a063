-- ===== src/Utils/IndexMap/Laws.antt =====
-- What utils/one_writer_multi_reader_map promises its callers, as laws of `put`, `get`, `delete`.
use sim_search.Prelude.{
  ℕ, ◌<◌, ◌≡◌, ◌↔◌, ◌⊎◌, ◌∙◌, true, false, not, ◌&&◌, List, [], arith, Bool-cases, inl, inr, ==_iff,
  ◌==◌, length, get_or, set, length-set, get_or-set_self, get_or-set_ne, get_or-replicate,
  length-replicate, if◌then◌else◌, Str, str_eq, str_eq_iff,
}
use sim_search.Prelude.Int.{ℤ, negsuc, is_negative}
use sim_search.Utils.IndexMap.{
  OneWriterMultiReaderMap, empty_map, bucket_index, bucket_of, put, get, delete,
}
use sim_search.Utils.IndexMap.Bucket.{
  Cell, has_live, put_bucket, get_bucket, delete_bucket, has_key, KeysDistinct, get-store,
  has_key-store, store-KeysDistinct, get-delete_bucket, delete_bucket-done, has_key-delete,
  delete-KeysDistinct, has_live-get, get-has_live,
}

-- Distinct keys in each bucket, each in the bucket of its hash.
pub record IsWellFormed (hash : Str → ℕ) (m : OneWriterMultiReaderMap) : Type 0 where
  pub nonempty : 0 < length m.buckets
  pub distinct : (i : ℕ) → KeysDistinct (get_or m.buckets i [])
  pub placed :
      (i : ℕ) (j : Str) → has_key (get_or m.buckets i []) j ≡ true → bucket_index hash m j ≡ i

module _ (hash : Str → ℕ) where
  abbrev with_bucket : OneWriterMultiReaderMap → Str → List Cell → OneWriterMultiReaderMap
  with_bucket m key b = record { buckets = set m.buckets (bucket_index hash m key) b }

  index-with_bucket :
      (m : OneWriterMultiReaderMap) (key j : Str) (b : List Cell)
      → bucket_index hash (with_bucket m key b) j ≡ bucket_index hash m j
  unfolding bucket_index
  index-with_bucket m key j b = rw length-set

  bucket_index-lt :
      (m : OneWriterMultiReaderMap) (key : Str)
      → 0 < length m.buckets
      → bucket_index hash m key < length m.buckets
  unfolding bucket_index
  bucket_index-lt m key h = grind arith

  bucket-with_bucket :
      (m : OneWriterMultiReaderMap) (key : Str) (b : List Cell) (i : ℕ)
      → 0 < length m.buckets
      → get_or (with_bucket m key b).buckets i []
        ≡ (if bucket_index hash m key == i then b else get_or m.buckets i [])
  bucket-with_bucket m key b i h = elim (Bool-cases (bucket_index hash m key == i)) [
    | inl e ↦
        rw e
          (rw (← ((==_iff _ _).0 e)) (get_or-set_self m.buckets _ b [] (bucket_index-lt m key h)))
    | inr e ↦ rw e (get_or-set_ne m.buckets _ i b [] (λ same. ground (arith, same)))
  ]

  -- The bucket of a key after the bucket of another key was replaced.
  bucket_of-with_bucket :
      (m : OneWriterMultiReaderMap) (key : Str) (b : List Cell) (j : Str)
      → 0 < length m.buckets
      → bucket_of hash (with_bucket m key b) j
        ≡ (if bucket_index hash m key == bucket_index hash m j then b else bucket_of hash m j)
  unfolding bucket_of
  bucket_of-with_bucket m key b j h =
      rw (index-with_bucket m key j b) (bucket-with_bucket m key b (bucket_index hash m j) h)

  -- A replaced bucket keeps the map well formed if it adds at most the key itself.
  with_bucket-IsWellFormed :
      (m : OneWriterMultiReaderMap) (key : Str) (b : List Cell)
      → IsWellFormed hash m
      → KeysDistinct b
      → ((j : Str)
          → has_key b j ≡ true
          → (has_key (bucket_of hash m key) j ≡ true) ⊎ (str_eq key j ≡ true))
      → IsWellFormed hash (with_bucket m key b)
  unfolding bucket_of
  with_bucket-IsWellFormed m key b w d adds = record {
    nonempty = rw length-set w.nonempty;
    distinct = λ i. elim (Bool-cases (bucket_index hash m key == i)) [
      | inl e ↦ rw (bucket-with_bucket m key b i w.nonempty, e) d
      | inr e ↦ rw (bucket-with_bucket m key b i w.nonempty, e) (w.distinct i)
    ];
    placed = λ i j.
        rw (bucket-with_bucket m key b i w.nonempty, index-with_bucket m key j b)
          (elim (Bool-cases (bucket_index hash m key == i)) [
            | inl e ↦ rw e (λ known. elim (adds j known) [
              | inl old ↦ w.placed (bucket_index hash m key) j old ∙ (==_iff _ _).0 e
              | inr same ↦ rw (← ((str_eq_iff key j).0 same)) ((==_iff _ _).0 e)
            ])
            | inr e ↦ rw e (w.placed i j)
          ]);
  }

  bucket-distinct :
      (m : OneWriterMultiReaderMap) (key : Str)
      → IsWellFormed hash m
      → KeysDistinct (bucket_of hash m key)
  unfolding bucket_of
  bucket-distinct m key w = w.distinct (bucket_index hash m key)

  put_bucket-adds :
      (cells : List Cell) (key : Str) (idx : ℤ) (j : Str)
      → has_key (put_bucket cells key idx).0 j ≡ true
      → (has_key cells j ≡ true) ⊎ (str_eq key j ≡ true)
  unfolding put_bucket
  put_bucket-adds cells key idx j h = ground (arith, has_key-store cells key idx j)

  put_bucket-KeysDistinct :
      (cells : List Cell) (key : Str) (idx : ℤ)
      → KeysDistinct cells
      → KeysDistinct (put_bucket cells key idx).0
  unfolding put_bucket
  put_bucket-KeysDistinct cells key idx h = elim (Bool-cases (has_live cells)) [
    | inl e ↦ rw e h
    | inr e ↦ rw e (store-KeysDistinct cells key idx h)
  ]

  -- A constructed map, and what `Put` and `Delete` make of a well-formed one, is well formed.
  pub empty-IsWellFormed : (n : ℕ) → 0 < n → IsWellFormed hash (empty_map n)
  unfolding empty_map has_key
  empty-IsWellFormed n h = record {
    nonempty = rw length-replicate h;
    distinct = λ i. rw get_or-replicate tt;
    placed = λ i j known. absurd (cc (rw get_or-replicate at known));
  }

  pub put-IsWellFormed :
      (m : OneWriterMultiReaderMap) (key : Str) (idx : ℤ)
      → IsWellFormed hash m
      → IsWellFormed hash (put hash m key idx).0
  unfolding put
  put-IsWellFormed m key idx w =
      with_bucket-IsWellFormed m key _ w
        (put_bucket-KeysDistinct _ key idx (bucket-distinct m key w)) (put_bucket-adds _ key idx)

  pub delete-IsWellFormed :
      (m : OneWriterMultiReaderMap) (key : Str)
      → IsWellFormed hash m
      → IsWellFormed hash (delete hash m key).0
  unfolding delete
  delete-IsWellFormed m key w =
      with_bucket-IsWellFormed m key _ w (delete-KeysDistinct _ key (bucket-distinct m key w))
        (λ j known. inl (rw has_key-delete at known))

  same_bucket :
      (m : OneWriterMultiReaderMap) (key j : Str)
      → bucket_index hash m key ≡ bucket_index hash m j
      → bucket_of hash m key ≡ bucket_of hash m j
  unfolding bucket_of
  same_bucket m key j e = rw e

  put_bucket-get :
      (cells : List Cell) (key : Str) (idx : ℤ) (j : Str)
      → get_bucket (put_bucket cells key idx).0 j
        ≡ (if (put_bucket cells key idx).1 && str_eq key j then idx else get_bucket cells j)
  unfolding put_bucket
  put_bucket-get cells key idx j = ground (arith, get-store cells key idx j)

  -- What is read after `Put` in a well-formed map: the new index under the key where `Put` says
  -- that it stored it, and otherwise, and under every other key, what was read before.
  pub get-put :
      (m : OneWriterMultiReaderMap) (key : Str) (idx : ℤ) (j : Str)
      → IsWellFormed hash m
      → get hash (put hash m key idx).0 j
        ≡ (if (put hash m key idx).1 && str_eq key j then idx else get hash m j)
  unfolding put get
  get-put m key idx j w = ground (
    arith,
    bucket_of-with_bucket m key (put_bucket (bucket_of hash m key) key idx).0 j w.nonempty,
    put_bucket-get (bucket_of hash m key) key idx j,
    same_bucket m key j,
    str_eq_iff key j,
  )

  put_bucket-refused :
      (cells : List Cell) (key : Str) (idx : ℤ)
      → (put_bucket cells key idx).1 ≡ false
      → has_live cells ≡ true
  unfolding put_bucket
  put_bucket-refused cells key idx h = ground arith

  refused-put_bucket :
      (cells : List Cell) (key : Str) (idx : ℤ)
      → has_live cells ≡ true
      → (put_bucket cells key idx).1 ≡ false
  unfolding put_bucket
  refused-put_bucket cells key idx h = ground arith

  key_placed :
      (m : OneWriterMultiReaderMap) (key j : Str)
      → IsWellFormed hash m
      → has_key (bucket_of hash m key) j ≡ true
      → bucket_index hash m j ≡ bucket_index hash m key
  unfolding bucket_of
  key_placed m key j w h = w.placed (bucket_index hash m key) j h

  -- In a well-formed map `Put` is refused exactly when some key of the same bucket has an index, be
  -- it another key.
  pub put-refused_iff :
      (m : OneWriterMultiReaderMap) (key : Str) (idx : ℤ)
      → IsWellFormed hash m
      → ((put hash m key idx).1 ≡ false) ↔ (
          (j : Str) × (bucket_index hash m j ≡ bucket_index hash m key)
          × (is_negative (get hash m j) ≡ false))
  unfolding put get
  put-refused_iff m key idx w = (
    λ refused.
        let (j, known, found) =
          get-has_live (bucket_of hash m key) (bucket-distinct m key w)
            (put_bucket-refused (bucket_of hash m key) key idx refused) in
        (
          j,
          key_placed m key j w known,
          rw (same_bucket m j key (key_placed m key j w known)) found,
        ),
    λ used. refused-put_bucket (bucket_of hash m key) key idx (
        has_live-get (bucket_of hash m key) used.0
          (rw (← (same_bucket m used.0 key used.1)) used.2)),
  )

  -- What is read after `Delete` in a well-formed map: nothing under the key, and the rest
  -- unchanged.
  pub get-delete :
      (m : OneWriterMultiReaderMap) (key j : Str)
      → IsWellFormed hash m
      → get hash (delete hash m key).0 j
        ≡ (if str_eq key j && not (is_negative (get hash m key)) then negsuc 0 else get hash m j)
  unfolding delete get
  get-delete m key j w = ground (
    arith,
    bucket_of-with_bucket m key (delete_bucket (bucket_of hash m key) key).0 j w.nonempty,
    get-delete_bucket (bucket_of hash m key) key j (bucket-distinct m key w),
    same_bucket m key j,
    str_eq_iff key j,
  )

  -- `Delete` says whether the key had an index.
  pub delete-done :
      (m : OneWriterMultiReaderMap) (key : Str)
      → IsWellFormed hash m
      → (delete hash m key).1 ≡ not (is_negative (get hash m key))
  unfolding delete get
  delete-done m key w = delete_bucket-done (bucket_of hash m key) key (bucket-distinct m key w)

  pub get-empty : (n : ℕ) (key : Str) → get hash (empty_map n) key ≡ negsuc 0
  unfolding get bucket_of empty_map get_bucket
  get-empty n key = rw get_or-replicate
