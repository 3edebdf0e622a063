-- ===== src/Dto/Gamma/Ids.antt =====
-- common/dto.cc: the ids that PbDocToGammaDoc takes.
use sim_search.Prelude.{
  ◌≡◌, ◌↔◌, refl, true, false, ◌&&◌, List, [], ◌∷◌, ◌++◌, arith, Bool-cases, inl, inr,
  if◌then◌else◌, is_empty, Str, str_eq, str_eq_iff,
}
use sim_search.Prelude.Int.{pos}
use sim_search.Utils.Numeric.{str_to_int64}
use sim_search.Common.Messages.{Space, Document}
use sim_search.Common.Types.{long_sdtype}
use sim_search.Dto.Gamma.{
  id_gamma_field, value_fields, id_not_int64, unsupported_id_type, pb_doc_to_gamma_doc,
}

id_not_int64-ne : (id status : Str) → is_empty (id_not_int64 id status) ≡ false
unfolding id_not_int64
id_not_int64-ne id status = refl

unsupported_id_type-ne : (id_type : Str) → is_empty (unsupported_id_type id_type) ≡ false
unfolding unsupported_id_type
unsupported_id_type-ne id_type = refl

id_gamma_field-is_empty :
    (pb_doc : Document) (space : Space)
    → is_empty (id_gamma_field pb_doc space).0
      ≡ (str_eq space.id_type long_sdtype && is_empty (str_to_int64 pb_doc.id (pos 0)).0)
unfolding id_gamma_field
id_gamma_field-is_empty pb_doc space = elim (Bool-cases (str_eq space.id_type long_sdtype)) [
  | inr e ↦ rw (e, unsupported_id_type-ne) refl
  | inl e ↦ elim (Bool-cases (is_empty (str_to_int64 pb_doc.id (pos 0)).0)) [
    | inl f ↦ rw (e, f) refl
    | inr f ↦ rw (e, f, id_not_int64-ne) refl
  ]
]

if-is_empty :
    {A : Type 0} (msg : Str) (taken : Str × List A)
    → is_empty taken.0 ≡ true
    → is_empty (if is_empty msg then taken else (msg, [])).0 ≡ is_empty msg
if-is_empty [] taken h = h
if-is_empty (_ ∷ _) taken h = refl

pb_doc_to_gamma_doc-is_empty :
    (pb_doc : Document) (space : Space)
    → is_empty (pb_doc_to_gamma_doc pb_doc space).0 ≡ is_empty (id_gamma_field pb_doc space).0
unfolding pb_doc_to_gamma_doc
pb_doc_to_gamma_doc-is_empty pb_doc space =
    if-is_empty (id_gamma_field pb_doc space).0
      ([], (id_gamma_field pb_doc space).1 ++ value_fields pb_doc) refl

-- `PbDocToGammaDoc` takes a document exactly in a space whose ids are of type `long` and where the id
-- of the document is an int64: one of a space with ids of type `string` is always refused.
pub pb_doc_to_gamma_doc_iff :
    (pb_doc : Document) (space : Space)
    → (is_empty (pb_doc_to_gamma_doc pb_doc space).0 ≡ true)
      ↔ ((space.id_type ≡ long_sdtype) × (is_empty (str_to_int64 pb_doc.id (pos 0)).0 ≡ true))
pb_doc_to_gamma_doc_iff pb_doc space = ground (
  arith,
  pb_doc_to_gamma_doc-is_empty pb_doc space,
  id_gamma_field-is_empty pb_doc space,
  str_eq_iff space.id_type long_sdtype,
)
