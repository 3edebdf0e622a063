-- ===== src/Dto/Gamma.antt =====
-- common/dto.cc: documents of protobuf and of the engine. The engine's classes are not in this
-- repository: an engine document is the fields that AddField takes, in that order, and TableFields and
-- VectorFields are the maps of such fields that GammaDocToPbDoc reads. A protobuf map has no order of
-- its own. A number is the number of its bits, in memory the lowest byte first.

pub mod Arrays
pub mod Ids
use sim_search.Prelude.{
  ℕ, zero, suc, ◌+◌, ◌-◌, ◌/◌, ltb, Bool, true, false, List, [], ◌∷◌, ◌++◌, Option, none, some,
  if◌then◌else◌, ◌==◌, is_empty, length, take, drop, Str, str_eq, str_key, codes, to_string,
}
use sim_search.Prelude.Int.{ℤ, pos, negsuc}
use sim_search.Prelude.Assoc.{get?, put}
use sim_search.Prelude.Bytes.{le_bytes, of_le_bytes}
use sim_search.Utils.Numeric.{str_to_int64, int64_to_string}
use sim_search.Common.Messages.{Field, Index, Space, Document, empty_document}
use sim_search.Common.Types.{
  DType, int_sdtype, long_sdtype, float_sdtype, double_sdtype, string_sdtype, vector_sdtype,
}

-- The engine's types of a field, of which these are used.
pub data DataType : Type 0 where
  int long float double string string_array vector : DataType

pub record GammaField : Type 0 where
  pub name : Str
  pub value : Str
  pub datatype : DataType

unfoldable pub id_name : Str
unfolding codes
id_name = codes "_id"

unfoldable pub id_not_int64 : Str → Str → Str
unfolding codes
id_not_int64 id status =
    codes "request Document _id:" ++ id ++ codes " StrToInt64 failed: " ++ status

unfoldable pub unsupported_id_type : Str → Str
unfolding codes
unsupported_id_type id_type = codes "Unsupported _id type: " ++ id_type

-- The bits of an int64_t, and the int64_t of such bits.
unfoldable pub int64_bits : ℤ → ℕ
int64_bits (pos n) = n
int64_bits (negsuc n) = 0xffff_ffff_ffff_ffff - n

unfoldable pub int64_of_bits : ℕ → ℤ
int64_of_bits n = if ltb n 0x8000_0000_0000_0000 then pos n else negsuc (0xffff_ffff_ffff_ffff - n)

unfoldable pub pop_back : Str → Str
pop_back [] = []
pop_back (c ∷ s) = elim s [ [] ↦ [] | d ∷ t ↦ c ∷ pop_back s ]

-- The loop over the values of an array: each, and a comma.
unfoldable pub with_commas : List Str → Str
with_commas [] = []
with_commas (val ∷ vals) = val ++ 44 ∷ with_commas vals

unfoldable pub array_value : List Str → Str
unfolding with_commas pop_back
array_value vals = pop_back (with_commas vals)

unfoldable pub cons_to_first : ℕ → List Str → List Str
cons_to_first c [] = (c ∷ []) ∷ []
cons_to_first c (item ∷ items) = (c ∷ item) ∷ items

-- `std::getline` up to each comma, until it reads nothing.
unfoldable pub split_commas : Str → List Str
unfolding cons_to_first
split_commas [] = []
split_commas (c ∷ s) =
    let rest = split_commas s in if c == 44 then [] ∷ rest else cons_to_first c rest

-- `k` floats in memory.
unfoldable pub vector_value : List ℕ → Str
unfolding le_bytes
vector_value [] = []
vector_value (val ∷ vals) = le_bytes 4 val ++ vector_value vals

unfoldable pub read_floats : ℕ → Str → List ℕ
unfolding of_le_bytes
read_floats zero value = []
read_floats (suc size) value = of_le_bytes (take 4 value) ∷ read_floats size (drop 4 value)

unfoldable pub add_fields : {V : Type 0} → DataType → (V → Str) → List (Str × V) → List GammaField
add_fields datatype value_of [] = []
add_fields datatype value_of ((key, value) ∷ m) =
    record { name = key; value = value_of value; datatype = datatype }
    ∷ add_fields datatype value_of m

-- The field of the id, or the message. The second test is the first one again, as in the source.
unfoldable pub id_gamma_field : Document → Space → Str × List GammaField
unfolding id_name id_not_int64 unsupported_id_type int64_bits le_bytes
id_gamma_field pb_doc space =
    let (status, id_value) = str_to_int64 pb_doc.id (pos 0) in
    if str_eq space.id_type long_sdtype
    then (if is_empty status
        then (
          [],
          record { name = id_name; value = le_bytes 8 (int64_bits id_value); datatype = long } ∷ [],
        )
        else (id_not_int64 pb_doc.id status, []))
    else if str_eq space.id_type long_sdtype
    then ([], record { name = id_name; value = pb_doc.id; datatype = string } ∷ [])
    else (unsupported_id_type space.id_type, [])

-- The fields that are added where the id is taken.
unfoldable pub value_fields : Document → List GammaField
unfolding add_fields le_bytes array_value vector_value
value_fields pb_doc =
    add_fields int (le_bytes 4) pb_doc.ints
    ++ add_fields long (le_bytes 8) pb_doc.longs
    ++ add_fields float (le_bytes 4) pb_doc.floats
    ++ add_fields double (le_bytes 8) pb_doc.doubles
    ++ add_fields string (λ value. value) pb_doc.strings
    ++ add_fields string_array array_value pb_doc.string_arrays
    ++ add_fields vector vector_value pb_doc.vectors

unfoldable pub pb_doc_to_gamma_doc : Document → Space → Str × List GammaField
unfolding id_gamma_field value_fields
pb_doc_to_gamma_doc pb_doc space =
    let (msg, id_field) = id_gamma_field pb_doc space in
    if is_empty msg then ([], id_field ++ value_fields pb_doc) else (msg, [])

abbrev items_or_none : {V : Type 0} → Option (List V) → List V
items_or_none none = []
items_or_none (some items) = items

-- The first loop of `GammaDocToPbDoc`.
unfoldable pub read_table_field : Document → GammaField → Document
unfolding of_le_bytes split_commas
read_table_field d field =
    let name = field.name in
    let value = field.value in
    elim field.datatype [
      | int ↦ record d { ints = put d.ints name (of_le_bytes (take 4 value)) }
      | long ↦ record d { longs = put d.longs name (of_le_bytes (take 8 value)) }
      | float ↦ record d { floats = put d.floats name (of_le_bytes (take 4 value)) }
      | double ↦ record d { doubles = put d.doubles name (of_le_bytes (take 8 value)) }
      | string ↦ record d { strings = put d.strings name value }
      | string_array ↦
          let items = items_or_none (get? d.string_arrays name) ++ split_commas value in
          record d { string_arrays = put d.string_arrays name items }
      | vector ↦ d
    ]

unfoldable pub read_table_fields : Document → List GammaField → Document
unfolding read_table_field
read_table_fields d [] = d
read_table_fields d (field ∷ fields) = read_table_fields (read_table_field d field) fields

-- The second loop, which the source runs over the table's fields again.
unfoldable pub read_vector_fields : Document → List GammaField → Document
unfolding read_floats
read_vector_fields d [] = d
read_vector_fields d (field ∷ fields) =
    let floats =
      items_or_none (get? d.vectors field.name)
      ++ read_floats (length field.value / 4) field.value in
    read_vector_fields (record d { vectors = put d.vectors field.name floats }) fields

unfoldable pub gamma_doc_to_pb_doc : List GammaField → List GammaField → Document
unfolding read_table_fields read_vector_fields
gamma_doc_to_pb_doc table_fields vector_fields =
    read_vector_fields (read_table_fields empty_document table_fields) table_fields

unfoldable pub get_pb_doc_key : Document → DType → Str
unfolding id_name int64_of_bits int64_to_string
get_pb_doc_key pb_doc id_dtype = elim id_dtype [
  | DType.long ↦ elim (get? pb_doc.longs id_name) [
    | none ↦ []
    | some value ↦ int64_to_string (int64_of_bits value)
  ]
  | DType.string ↦ elim (get? pb_doc.strings id_name) [ none ↦ [] | some value ↦ value ]
  | _ ↦ []
]

unfoldable pub to_gamma_dtype : Str → DataType
to_gamma_dtype data_type =
    if str_eq data_type int_sdtype
    then int
    else if str_eq data_type float_sdtype
    then float
    else if str_eq data_type double_sdtype
    then double
    else if str_eq data_type string_sdtype
    then string
    else if str_eq data_type vector_sdtype
    then vector
    else int

-- What `GetGammaTable` sets of a table.
pub record VectorInfo : Type 0 where
  pub name : Str
  pub data_type : DataType
  pub is_index : Bool
  pub dimension : ℕ
  pub store_param : Str

pub record FieldInfo : Type 0 where
  pub name : Str
  pub data_type : DataType
  pub is_index : Bool

pub record TableInfo : Type 0 where
  pub name : Str
  pub fields : List FieldInfo
  pub vector_infos : List VectorInfo
  pub index_type : Str
  pub index_params : Str

abbrev number_or_zero : Option ℕ → ℕ
number_or_zero none = 0
number_or_zero (some n) = n

abbrev empty_index : Index
empty_index = record { name = []; type = []; params = [] }

abbrev index_or_empty : Option Index → Index
index_or_empty none = empty_index
index_or_empty (some index) = index

abbrev has_index : Option Index → Bool
has_index none = false
has_index (some index) = true

unfoldable pub add_table_field : TableInfo → Field → TableInfo
unfolding to_gamma_dtype
add_table_field table field =
    let index = index_or_empty field.index in
    if str_eq field.type vector_sdtype
    then record table {
      index_type = index.type;
      index_params = index.params;
      vector_infos =
          table.vector_infos
          ++ record {
            name = field.name;
            data_type = to_gamma_dtype field.type;
            is_index = true;
            dimension = number_or_zero field.dimension;
            store_param = index.params;
          }
            ∷ [];
    }
    else record table {
      fields =
          table.fields
          ++ record {
            name = field.name;
            data_type = to_gamma_dtype field.type;
            is_index = has_index field.index;
          }
            ∷ [];
    }

unfoldable pub add_table_fields : TableInfo → List Field → TableInfo
unfolding add_table_field
add_table_fields table [] = table
add_table_fields table (field ∷ fields) = add_table_fields (add_table_field table field) fields

unfoldable pub get_gamma_table : Space → TableInfo
unfolding add_table_fields
get_gamma_table space =
    add_table_fields
      (record {
        name = space.space_name;
        fields = [];
        vector_infos = [];
        index_type = [];
        index_params = [];
      })
      space.fields
