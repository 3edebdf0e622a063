-- ===== src/Examples/Utils.antt =====
-- The examples of utils/.
use sim_search.Prelude.{
  refl, ◌++◌, is_empty, ◌≡◌, ◌↔◌, false, ◌&&◌, [], ◌∷◌, if◌then◌else◌, arith, Str, str_eq,
}
use sim_search.Prelude.Int.{pos, negsuc, is_negative}
use sim_search.Utils.Numeric.{
  starts_with_digit, not_int64, int64_overflow, str_to_int64, int64_to_string,
}
use sim_search.Utils.Numeric.RoundTrip.{in_int64, str_to_int64-int64_to_string}
use sim_search.Utils.IndexMap.{empty_map, OneWriterMultiReaderMap, put, get, bucket_index}
use sim_search.Utils.IndexMap.Laws.{
  IsWellFormed, empty-IsWellFormed, put-IsWellFormed, get-put, put-refused_iff,
}
use sim_search.Examples.Values.{by_length}

-- Two buckets, and the index 3 under a key of one character.
abbrev one_key : OneWriterMultiReaderMap
one_key = (put by_length (empty_map 2) (97 ∷ []) (pos 3)).0

one_key-IsWellFormed : IsWellFormed by_length one_key
one_key-IsWellFormed =
    put-IsWellFormed by_length (empty_map 2) (97 ∷ []) (pos 3)
      (empty-IsWellFormed by_length 2 (omega arith))

get-put_example : get by_length (put by_length one_key (97 ∷ 98 ∷ []) (pos 5)).0 (97 ∷ []) ≡ (
    if (put by_length one_key (97 ∷ 98 ∷ []) (pos 5)).1 && str_eq (97 ∷ 98 ∷ []) (97 ∷ [])
    then pos 5
    else get by_length one_key (97 ∷ []))
get-put_example = get-put by_length one_key (97 ∷ 98 ∷ []) (pos 5) (97 ∷ []) one_key-IsWellFormed

put-refused_iff_example : ((put by_length one_key (98 ∷ []) (pos 5)).1 ≡ false) ↔ (
    (j : Str) × (bucket_index by_length one_key j ≡ bucket_index by_length one_key (98 ∷ []))
    × (is_negative (get by_length one_key j) ≡ false))
put-refused_iff_example = put-refused_iff by_length one_key (98 ∷ []) (pos 5) one_key-IsWellFormed

abbrev letter : Str
letter = 120 ∷ []

-- A number with a letter behind it.
str_to_int64-int64_to_string_example :
    str_to_int64 (int64_to_string (negsuc 41) ++ letter) (pos 0) ≡ (
      if in_int64 (negsuc 41)
      then ((if is_empty letter then [] else not_int64), negsuc 41)
      else (int64_overflow, pos 0))
unfolding starts_with_digit
str_to_int64-int64_to_string_example = str_to_int64-int64_to_string (negsuc 41) (pos 0) letter refl
