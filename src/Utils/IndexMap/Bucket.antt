-- ===== src/Utils/IndexMap/Bucket.antt =====
-- One bucket of utils/one_writer_multi_reader_map.cc: the loops of `Put`, `Get` and `Delete`.
use sim_search.Prelude.{
  ◌≡◌, refl, Bool, true, false, not, ◌&&◌, ◌||◌, List, [], ◌∷◌, arith, Bool-cases, inl, inr,
  if◌then◌else◌, Str, str_eq, str_eq_iff,
}
use sim_search.Prelude.Int.{ℤ, negsuc, is_negative}

pub record Cell : Type 0 where
  pub idx : ℤ
  pub key : Str

unfoldable pub is_live : Cell → Bool
is_live c = not (is_negative c.idx)

-- The first loop of `Put`: some cell of the bucket, under whatever key, is in use.
unfoldable pub has_live : List Cell → Bool
unfolding is_live
has_live [] = false
has_live (c ∷ cells) = is_live c || has_live cells

-- The second loop of `Put`, and the cell that it appends.
unfoldable pub store : List Cell → Str → ℤ → List Cell
store [] key idx = record { idx = idx; key = key } ∷ []
store (c ∷ cells) key idx =
    if str_eq c.key key then record c { idx = idx } ∷ cells else c ∷ store cells key idx

unfoldable pub put_bucket : List Cell → Str → ℤ → List Cell × Bool
unfolding has_live store
put_bucket cells key idx = if has_live cells then (cells, false) else (store cells key idx, true)

unfoldable pub get_bucket : List Cell → Str → ℤ
get_bucket [] key = negsuc 0
get_bucket (c ∷ cells) key = if str_eq c.key key then c.idx else get_bucket cells key

unfoldable pub delete_bucket : List Cell → Str → List Cell × Bool
unfolding is_live
delete_bucket [] key = ([], false)
delete_bucket (c ∷ cells) key =
    let (rest, done) = delete_bucket cells key in
    if str_eq c.key key && is_live c
    then (record c { idx = negsuc 0 } ∷ cells, true)
    else (c ∷ rest, done)

unfoldable pub has_key : List Cell → Str → Bool
has_key [] key = false
has_key (c ∷ cells) key = str_eq c.key key || has_key cells key

-- No two cells of a bucket have one key.
abbrev pub KeysDistinct : List Cell → Type 0
KeysDistinct [] = Unit
KeysDistinct (c ∷ cells) = (has_key cells c.key ≡ false) × KeysDistinct cells

pub get-store :
    (cells : List Cell) (key : Str) (idx : ℤ) (j : Str)
    → get_bucket (store cells key idx) j ≡ (if str_eq key j then idx else get_bucket cells j)
unfolding get_bucket store
get-store [] key idx j = refl
get-store (c ∷ cells) key idx j =
    ground
      (arith, str_eq_iff c.key key, str_eq_iff key j, str_eq_iff c.key j, get-store cells key idx j)

pub has_key-store :
    (cells : List Cell) (key : Str) (idx : ℤ) (j : Str)
    → has_key (store cells key idx) j ≡ (has_key cells j || str_eq key j)
unfolding has_key store
has_key-store [] key idx j = ground arith
has_key-store (c ∷ cells) key idx j = ground (
  arith,
  str_eq_iff c.key key,
  str_eq_iff key j,
  str_eq_iff c.key j,
  has_key-store cells key idx j,
)

pub store-KeysDistinct :
    (cells : List Cell) (key : Str) (idx : ℤ)
    → KeysDistinct cells
    → KeysDistinct (store cells key idx)
unfolding store has_key
store-KeysDistinct [] key idx h = (refl, tt)
store-KeysDistinct (c ∷ cells) key idx h = elim (Bool-cases (str_eq c.key key)) [
  | inl e ↦ rw e h
  | inr e ↦ rw e (
    ground
        (arith, has_key-store cells key idx c.key, h.0, str_eq_iff key c.key, str_eq_iff c.key key),
    store-KeysDistinct cells key idx h.1,
  )
]

pub get_bucket-missing :
    (cells : List Cell) (key : Str) → has_key cells key ≡ false → get_bucket cells key ≡ negsuc 0
unfolding get_bucket has_key
get_bucket-missing [] key h = refl
get_bucket-missing (c ∷ cells) key h = ground (arith, get_bucket-missing cells key)

-- Deleting a key hides its index, says whether it had one, and leaves the other keys.
pub get-delete_bucket :
    (cells : List Cell) (key j : Str)
    → KeysDistinct cells
    → get_bucket (delete_bucket cells key).0 j ≡ (
        if str_eq key j && not (is_negative (get_bucket cells key))
        then negsuc 0
        else get_bucket cells j)
unfolding get_bucket delete_bucket
get-delete_bucket [] key j h = ground arith
get-delete_bucket (c ∷ cells) key j h = ground (
  arith,
  str_eq_iff c.key key,
  str_eq_iff key j,
  str_eq_iff c.key j,
  get_bucket-missing cells key,
  get-delete_bucket cells key j,
  h.0,
  h.1,
)

pub delete_bucket-done :
    (cells : List Cell) (key : Str)
    → KeysDistinct cells
    → (delete_bucket cells key).1 ≡ not (is_negative (get_bucket cells key))
unfolding get_bucket delete_bucket
delete_bucket-done [] key h = refl
delete_bucket-done (c ∷ cells) key h = ground (
  arith,
  str_eq_iff c.key key,
  get_bucket-missing cells key,
  delete_bucket-done cells key,
  h.0,
  h.1,
)

pub has_key-delete :
    (cells : List Cell) (key j : Str) → has_key (delete_bucket cells key).0 j ≡ has_key cells j
unfolding has_key delete_bucket
has_key-delete [] key j = refl
has_key-delete (c ∷ cells) key j = ground (arith, has_key-delete cells key j)

pub delete-KeysDistinct :
    (cells : List Cell) (key : Str) → KeysDistinct cells → KeysDistinct (delete_bucket cells key).0
unfolding delete_bucket
delete-KeysDistinct [] key h = tt
delete-KeysDistinct (c ∷ cells) key h = elim (Bool-cases (str_eq c.key key && is_live c)) [
  | inl e ↦ rw e h
  | inr e ↦ rw e (rw has_key-delete h.0, delete-KeysDistinct cells key h.1)
]

-- A key with an index makes its bucket live.
pub has_live-get :
    (cells : List Cell) (key : Str)
    → is_negative (get_bucket cells key) ≡ false
    → has_live cells ≡ true
unfolding get_bucket has_live
has_live-get [] key h = cc
has_live-get (c ∷ cells) key h = ground (arith, has_live-get cells key)

-- A live bucket has a key with an index.
pub get-has_live :
    (cells : List Cell)
    → KeysDistinct cells
    → has_live cells ≡ true
    → (j : Str) × (has_key cells j ≡ true) × (is_negative (get_bucket cells j) ≡ false)
unfolding get_bucket has_live has_key
get-has_live [] h live = cc
get-has_live (c ∷ cells) h live = elim (Bool-cases (is_live c)) [
  | inl e ↦ (c.key, ground (arith, str_eq_iff c.key c.key), ground (arith, str_eq_iff c.key c.key))
  | inr e ↦
      let (j, known, found) = get-has_live cells h.1 (ground arith) in
      (j, ground arith, ground (arith, str_eq_iff c.key j, h.0))
]
