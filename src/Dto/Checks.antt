-- ===== src/Dto/Checks.antt =====
-- common/dto.cc: CheckPbDoc and CheckPbIds. A message is empty where nothing is wrong.
pub mod Accepts
use sim_search.Prelude.{
  ℕ, Bool, true, false, ◌&&◌, ◌||◌, not, List, [], ◌∷◌, ◌++◌, Option, none, some, if◌then◌else◌,
  ◌==◌, is_empty, length, Str, str_eq, str_key, codes, to_string,
}
use sim_search.Prelude.Int.{ℤ, pos}
use sim_search.Prelude.Assoc.{get?, has}
use sim_search.Utils.Numeric.{str_to_int64}
use sim_search.Common.Messages.{Field, Space, Document}
use sim_search.Common.Types.{
  int_sdtype, long_sdtype, float_sdtype, double_sdtype, string_sdtype, string_array_sdtype,
  vector_sdtype,
}

unfoldable pub document_is_empty : Str
unfolding codes
document_is_empty = codes "Document is empty"

-- `CheckPbDoc` with one argument.
unfoldable pub check_pb_doc_filled : Document → Str
check_pb_doc_filled d =
    if is_empty d.ints
      && is_empty d.longs
      && is_empty d.floats
      && is_empty d.doubles
      && is_empty d.strings
      && is_empty d.string_arrays
      && is_empty d.vectors
    then document_is_empty
    else []

unfoldable pub id_is_empty : Str
unfolding codes
id_is_empty = codes "Document _id is empty"

unfoldable pub dimension_mismatch : Str → ℕ → ℕ → Str
unfolding codes to_string
dimension_mismatch name expected got =
    codes "Field ["
    ++ name
    ++ codes "] vector dimension mismatch: expected "
    ++ to_string expected
    ++ codes ", got "
    ++ to_string got
    ++ codes "; "

unfoldable pub unknown_type : Str → Str → Str
unfolding codes
unknown_type name type =
    codes "Unknown type for field [" ++ name ++ codes "]: " ++ type ++ codes "; "

unfoldable pub missing_field : Str → Str → Str
unfolding codes
missing_field name type =
    codes "Missing field in document: name = " ++ name ++ codes ", type = " ++ type ++ codes "; "

abbrev found_or_missing : Bool → Field → Str
found_or_missing found field = if found then [] else missing_field field.name field.type

-- The branch for a vector: the message where the document has one of another dimension.
unfoldable pub check_vector : Document → Field → Str
check_vector pb_doc field = elim (get? pb_doc.vectors field.name) [
  | none ↦ missing_field field.name field.type
  | some vector ↦ elim field.dimension [
    | none ↦ []
    | some dimension ↦
        if dimension == length vector
        then []
        else dimension_mismatch field.name dimension (length vector)
  ]
]

-- The body of the loop over the fields: what it writes to the stream.
unfoldable pub check_field : Document → Field → Str
unfolding check_vector
check_field pb_doc field =
    let name = field.name in
    let type = field.type in
    if str_eq type int_sdtype
    then found_or_missing (has pb_doc.ints name) field
    else if str_eq type long_sdtype
    then found_or_missing (has pb_doc.longs name) field
    else if str_eq type float_sdtype
    then found_or_missing (has pb_doc.floats name) field
    else if str_eq type double_sdtype
    then found_or_missing (has pb_doc.doubles name) field
    else if str_eq type string_sdtype
    then found_or_missing (has pb_doc.strings name) field
    else if str_eq type string_array_sdtype
    then found_or_missing (has pb_doc.string_arrays name) field
    else if str_eq type vector_sdtype
    then check_vector pb_doc field
    else unknown_type name type

unfoldable pub check_fields : Document → List Field → Str
unfolding check_field
check_fields pb_doc [] = []
check_fields pb_doc (field ∷ fields) = check_field pb_doc field ++ check_fields pb_doc fields

-- The status of an id in a space whose ids are of type `long`; empty in any other.
unfoldable pub id_status : Space → Str → Str
id_status space id = if str_eq space.id_type long_sdtype then (str_to_int64 id (pos 0)).0 else []

-- `CheckPbDoc` with two arguments.
unfoldable pub check_pb_doc : Document → Space → Str
unfolding id_status check_fields
check_pb_doc pb_doc space =
    if is_empty pb_doc.id
    then id_is_empty
    else if not (is_empty (id_status space pb_doc.id))
    then id_status space pb_doc.id
    else check_fields pb_doc space.fields

unfoldable pub key_is_empty : Str
unfolding codes
key_is_empty = codes "Document key is empty"

unfoldable pub bad_id : Str → Str → Str
unfolding codes
bad_id key status = codes "_id:" ++ key ++ codes " StrToInt64 failed: " ++ status

unfoldable pub duplicate_key : Str → Str
unfolding codes
duplicate_key key = codes "Duplicate document key: " ++ key

-- Whether a key is in the set `st`.
unfoldable pub contains : List Str → Str → Bool
contains [] key = false
contains (k ∷ st) key = str_eq k key || contains st key

unfoldable pub check_ids_from : Space → List Str → List Str → Str
unfolding contains id_status
check_ids_from space st [] = []
check_ids_from space st (key ∷ keys) =
    let rest = check_ids_from space (key ∷ st) keys in
    if is_empty key
    then key_is_empty
    else if not (is_empty (id_status space key))
    then bad_id key (id_status space key)
    else if contains st key
    then duplicate_key key
    else rest

unfoldable pub check_pb_ids : List Str → Space → Str
unfolding check_ids_from
check_pb_ids doc_keys space = check_ids_from space [] doc_keys
