-- ===== src/Dto/Checks/Accepts.antt =====
-- common/dto.cc: the requests that CheckPbDoc and CheckPbIds accept, described without the loops.
use sim_search.Prelude.{
  ◌≡◌, ◌≢◌, ◌↔◌, refl, sym, ◌∙◌, Bool, true, false, ◌&&◌, not, List, [], ◌∷◌, arith, Bool-cases,
  inl, inr, is_empty, All, Str, str_eq_iff, str_key,
}
use sim_search.Common.Messages.{Space}
use sim_search.Dto.Checks.{
  check_ids_from, check_pb_ids, id_status, contains, key_is_empty, bad_id, duplicate_key,
}

-- No key of the list is empty, fails as an id of the space, is in `st`, or comes twice.
AreValidFrom : Space → List Str → List Str → Type 0
AreValidFrom space st [] = Unit
AreValidFrom space st (key ∷ keys) =
    (is_empty key ≡ false)
    × (is_empty (id_status space key) ≡ true)
    × (contains st key ≡ false)
    × AreValidFrom space (key ∷ st) keys

key_is_empty-ne : is_empty key_is_empty ≡ false
unfolding key_is_empty
key_is_empty-ne = refl

bad_id-ne : (key status : Str) → is_empty (bad_id key status) ≡ false
unfolding bad_id
bad_id-ne key status = refl

duplicate_key-ne : (key : Str) → is_empty (duplicate_key key) ≡ false
unfolding duplicate_key
duplicate_key-ne key = refl

check_ids_from-cons :
    (space : Space) (st keys : List Str) (key : Str)
    → is_empty (check_ids_from space st (key ∷ keys)) ≡ (
        not (is_empty key)
        && is_empty (id_status space key)
        && not (contains st key)
        && is_empty (check_ids_from space (key ∷ st) keys))
unfolding check_ids_from
check_ids_from-cons space st keys key = elim (Bool-cases (is_empty key)) [
  | inl a ↦ rw (a, key_is_empty-ne)
  | inr a ↦ elim (Bool-cases (is_empty (id_status space key))) [
    | inr b ↦ rw (a, b, bad_id-ne)
    | inl b ↦ elim (Bool-cases (contains st key)) [
      | inl c ↦ rw (a, b, c, duplicate_key-ne)
      | inr c ↦ rw (a, b, c)
    ]
  ]
]

and4_iff :
    (a b c d : Bool)
    → ((not a && b && not c && d) ≡ true) ↔ ((a ≡ false) × (b ≡ true) × (c ≡ false) × (d ≡ true))
and4_iff a b c d = ground arith

check_ids_from-nil : (space : Space) (st : List Str) → is_empty (check_ids_from space st []) ≡ true
unfolding check_ids_from
check_ids_from-nil space st = refl

check_ids_from_iff :
    (space : Space) (st keys : List Str)
    → (is_empty (check_ids_from space st keys) ≡ true) ↔ AreValidFrom space st keys
unfolding AreValidFrom
check_ids_from_iff space st [] = (λ h. tt, λ h. check_ids_from-nil space st)
check_ids_from_iff space st (key ∷ keys) =
    let e = check_ids_from-cons space st keys key in
    let bits =
      and4_iff (is_empty key) (is_empty (id_status space key)) (contains st key)
        (is_empty (check_ids_from space (key ∷ st) keys)) in
    (
      λ h.
          let (a, b, c, d) = bits.0 (sym e ∙ h) in
          (a, b, c, (check_ids_from_iff space (key ∷ st) keys).0 d),
      λ h.
          let (a, b, c, d) = h in
          e ∙ bits.1 (a, b, c, (check_ids_from_iff space (key ∷ st) keys).1 d),
    )

-- A key that the loop takes in a space.
abbrev pub IsValidKey : Space → Str → Type 0
IsValidKey space key = (is_empty key ≡ false) × (is_empty (id_status space key) ≡ true)

-- No key comes twice.
abbrev pub AreDistinct : List Str → Type 0
AreDistinct [] = Unit
AreDistinct (key ∷ keys) = All (λ k. key ≢ k) keys × AreDistinct keys

abbrev AreFresh : List Str → List Str → Type 0
AreFresh st keys = All (λ k. contains st k ≡ false) keys

contains-cons :
    (st : List Str) (key k : Str)
    → (contains (key ∷ st) k ≡ false) ↔ ((key ≢ k) × (contains st k ≡ false))
unfolding contains
contains-cons st key k = ground (arith, str_eq_iff key k)

contains-nil : (k : Str) → contains [] k ≡ false
unfolding contains
contains-nil k = refl

AreFresh-iff :
    (st keys : List Str) (key : Str)
    → AreFresh (key ∷ st) keys ↔ (All (λ k. key ≢ k) keys × AreFresh st keys)
AreFresh-iff st [] key = (λ h. (tt, tt), λ h. tt)
AreFresh-iff st (k ∷ keys) key =
    let (to, from) = contains-cons st key k in
    let (all_to, all_from) = AreFresh-iff st keys key in
    (
      λ (h, hs). (((to h).0, (all_to hs).0), ((to h).1, (all_to hs).1)),
      λ ((ne, nes), (h, hs)). (from (ne, h), all_from (nes, hs)),
    )

AreFresh-nil : (keys : List Str) → AreFresh [] keys
AreFresh-nil [] = tt
AreFresh-nil (k ∷ keys) = (contains-nil k, AreFresh-nil keys)

AreValidFrom-iff :
    (space : Space) (st keys : List Str)
    → AreValidFrom space st keys
      ↔ (All (IsValidKey space) keys × AreFresh st keys × AreDistinct keys)
unfolding AreValidFrom
AreValidFrom-iff space st [] = (λ h. (tt, tt, tt), λ h. tt)
AreValidFrom-iff space st (key ∷ keys) =
    let (to, from) = AreValidFrom-iff space (key ∷ st) keys in
    let (split, join) = AreFresh-iff st keys key in
    (
      λ (a, b, c, d).
          let (valid, fresh, distinct) = to d in
          let (ne, fresh') = split fresh in (((a, b), valid), (c, fresh'), (ne, distinct)),
      λ (((a, b), valid), (c, fresh'), (ne, distinct)).
          (a, b, c, from (valid, join (ne, fresh'), distinct)),
    )

-- `CheckPbIds` finds nothing wrong exactly with keys that are not empty, that the space's id type
-- takes, and of which none comes twice.
pub check_pb_ids_iff :
    (keys : List Str) (space : Space)
    → (is_empty (check_pb_ids keys space) ≡ true) ↔ (All (IsValidKey space) keys × AreDistinct keys)
unfolding check_pb_ids
check_pb_ids_iff keys space =
    let (loop, unloop) = check_ids_from_iff space [] keys in
    let (to, from) = AreValidFrom-iff space [] keys in
    (
      λ h. let (valid, fresh, distinct) = to (loop h) in (valid, distinct),
      λ (valid, distinct). unloop (from (valid, AreFresh-nil keys, distinct)),
    )
