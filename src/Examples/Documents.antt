-- ===== src/Examples/Documents.antt =====
-- The examples of common/dto.cc.
use sim_search.Prelude.{◌≡◌, ◌↔◌, refl, true, List, [], ◌∷◌, arith, is_empty, All, Str}
use sim_search.Prelude.Int.{pos}
use sim_search.Utils.Numeric.{str_to_int64}
use sim_search.Common.Types.{long_sdtype}
use sim_search.Dto.Checks.{check_pb_ids}
use sim_search.Dto.Checks.Accepts.{IsValidKey, AreDistinct, check_pb_ids_iff}
use sim_search.Dto.Gamma.{split_commas, array_value, pb_doc_to_gamma_doc}
use sim_search.Dto.Gamma.Arrays.{split_commas-array_value}
use sim_search.Dto.Gamma.Ids.{pb_doc_to_gamma_doc_iff}
use sim_search.Examples.Values.{document, space}

abbrev keys : List Str
keys = (97 ∷ []) ∷ (98 ∷ []) ∷ (97 ∷ []) ∷ []

check_pb_ids_iff_example :
    (is_empty (check_pb_ids keys (space 97 98)) ≡ true)
    ↔ (All (IsValidKey (space 97 98)) keys × AreDistinct keys)
check_pb_ids_iff_example = check_pb_ids_iff keys (space 97 98)

split_commas-array_value_example :
    split_commas (array_value ((97 ∷ []) ∷ [] ∷ (98 ∷ 99 ∷ []) ∷ []))
    ≡ (97 ∷ []) ∷ [] ∷ (98 ∷ 99 ∷ []) ∷ []
split_commas-array_value_example =
    split_commas-array_value ((97 ∷ []) ∷ [] ∷ (98 ∷ 99 ∷ []) ∷ [])
      ((ground arith, tt), (tt, ((ground arith, (ground arith, tt)), refl)))

pb_doc_to_gamma_doc_iff_example :
    (is_empty (pb_doc_to_gamma_doc (document 65) (space 97 98)).0 ≡ true)
    ↔ (((space 97 98).id_type ≡ long_sdtype) × (is_empty (str_to_int64 (65 ∷ []) (pos 0)).0 ≡ true))
pb_doc_to_gamma_doc_iff_example = pb_doc_to_gamma_doc_iff (document 65) (space 97 98)
