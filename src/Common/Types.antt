-- ===== src/Common/Types.antt =====
-- common/common_type.{h,cc}: the types of a field and their names.
use sim_search.Prelude.{
  ◌≡◌, refl, Bool, true, false, List, [], ◌∷◌, Option, none, some, Str, str_eq, str_key, codes,
}
use sim_search.Prelude.Assoc.{get?}

pub data DType : Type 0 where
  undefine int long float double string string_array vector : DType

unfoldable pub undefine_sdtype : Str
unfolding codes
undefine_sdtype = codes "undefine"

unfoldable pub int_sdtype : Str
unfolding codes
int_sdtype = codes "int"

unfoldable pub long_sdtype : Str
unfolding codes
long_sdtype = codes "long"

unfoldable pub float_sdtype : Str
unfolding codes
float_sdtype = codes "float"

unfoldable pub double_sdtype : Str
unfolding codes
double_sdtype = codes "double"

unfoldable pub string_sdtype : Str
unfolding codes
string_sdtype = codes "string"

unfoldable pub string_array_sdtype : Str
unfolding codes
string_array_sdtype = codes "stringarrry"

unfoldable pub vector_sdtype : Str
unfolding codes
vector_sdtype = codes "vector"

-- The unordered map of the same name; its order is of no account, since the keys differ.
unfoldable pub sdtype_to_dtype : List (Str × DType)
unfolding undefine_sdtype int_sdtype long_sdtype float_sdtype double_sdtype string_sdtype
    string_array_sdtype vector_sdtype
sdtype_to_dtype =
    (undefine_sdtype, undefine)
    ∷ (int_sdtype, int)
    ∷ (long_sdtype, long)
    ∷ (float_sdtype, float)
    ∷ (double_sdtype, double)
    ∷ (string_sdtype, string)
    ∷ (string_array_sdtype, string_array)
    ∷ (vector_sdtype, vector)
    ∷ []

abbrev dtype_or_undefine : Option DType → DType
dtype_or_undefine none = undefine
dtype_or_undefine (some t) = t

unfoldable pub sdtype_to_dtype_of : Str → DType
unfolding sdtype_to_dtype get? str_eq
sdtype_to_dtype_of sdtype = dtype_or_undefine (get? sdtype_to_dtype sdtype)

unfoldable pub dtype_to_sdtype : DType → Str
unfolding undefine_sdtype int_sdtype long_sdtype float_sdtype double_sdtype string_sdtype
    string_array_sdtype vector_sdtype
dtype_to_sdtype undefine = undefine_sdtype
dtype_to_sdtype int = int_sdtype
dtype_to_sdtype long = long_sdtype
dtype_to_sdtype float = float_sdtype
dtype_to_sdtype double = double_sdtype
dtype_to_sdtype string = string_sdtype
dtype_to_sdtype string_array = string_array_sdtype
dtype_to_sdtype vector = vector_sdtype

unfoldable pub is_id_dtype : DType → Bool
is_id_dtype long = true
is_id_dtype string = true
is_id_dtype _ = false

-- Every type is read back from its name.
sdtype_to_dtype-dtype_to_sdtype : (t : DType) → sdtype_to_dtype_of (dtype_to_sdtype t) ≡ t
unfolding sdtype_to_dtype_of dtype_to_sdtype
sdtype_to_dtype-dtype_to_sdtype undefine = refl
sdtype_to_dtype-dtype_to_sdtype _ = refl
