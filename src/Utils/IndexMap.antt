-- ===== src/Utils/IndexMap.antt =====
-- utils/one_writer_multi_reader_map.{h,cc}. A writer holds the lock for the whole of `Put` and of
-- `Delete`, so each call is one step here. Cells are never removed: a deleted one has the index -1.
pub mod Bucket
pub mod Laws
use sim_search.Prelude.{ℕ, ◌%◌, Bool, List, [], length, get_or, set, replicate, Str}
use sim_search.Prelude.Int.{ℤ}
use sim_search.Utils.Hash.{str_hash_uint64}
use Bucket.{Cell, put_bucket, get_bucket, delete_bucket}

pub record OneWriterMultiReaderMap : Type 0 where
  pub buckets : List (List Cell)

-- The constructor.
unfoldable pub empty_map : ℕ → OneWriterMultiReaderMap
empty_map bucket_count = record { buckets = replicate bucket_count [] }

module _ (hash : Str → ℕ) where
  unfoldable pub bucket_index : OneWriterMultiReaderMap → Str → ℕ
  bucket_index m key = str_hash_uint64 hash key % length m.buckets

  unfoldable pub bucket_of : OneWriterMultiReaderMap → Str → List Cell
  bucket_of m key = get_or m.buckets (bucket_index m key) []

  unfoldable pub put : OneWriterMultiReaderMap → Str → ℤ → OneWriterMultiReaderMap × Bool
  put m key idx =
      let (bucket, done) = put_bucket (bucket_of m key) key idx in
      (record { buckets = set m.buckets (bucket_index m key) bucket }, done)

  unfoldable pub get : OneWriterMultiReaderMap → Str → ℤ
  get m key = get_bucket (bucket_of m key) key

  unfoldable pub delete : OneWriterMultiReaderMap → Str → OneWriterMultiReaderMap × Bool
  delete m key =
      let (bucket, done) = delete_bucket (bucket_of m key) key in
      (record { buckets = set m.buckets (bucket_index m key) bucket }, done)
