-- ===== src/Engine/Records.antt =====
-- engine/engine.cc: the records of the file of metadata, 14 bytes each, and the map that they make.
use sim_search.Prelude.{
  ℕ, zero, suc, ◌+◌, ◌*◌, ◌^◌, ◌<◌, ◌≤◌, ◌≡◌, refl, ap, ◌∙◌, List, [], ◌∷◌, ◌++◌, arith, length,
  length-append, take, drop, Str, nat_key,
}
use sim_search.Prelude.Assoc.{put}
use sim_search.Prelude.Bytes.{
  le_bytes, of_le_bytes, length-le_bytes, of_le_bytes-le_bytes, take-append, drop-append,
}

abbrev pub one_doc_mata_size : ℕ
one_doc_mata_size = 14

-- The position and the length of a document.
abbrev pub Place : Type 0
Place = ℕ × ℕ

unfoldable pub mata_record : ℕ → ℕ → ℕ → Str
unfolding le_bytes
mata_record key off len = le_bytes 4 key ++ (le_bytes 8 off ++ le_bytes 2 len)

-- One round of the loop of `CreatOrLoad` on the bytes that it read.
unfoldable pub put_record : List (ℕ × Place) → Str → List (ℕ × Place)
unfolding of_le_bytes
put_record m buf =
    put m (of_le_bytes (take 4 buf))
      (of_le_bytes (take 8 (drop 4 buf)), of_le_bytes (take 2 (drop 8 (drop 4 buf))))

-- The map of the first records of a file's content.
unfoldable pub map_of : ℕ → Str → List (ℕ × Place)
unfolding put_record
map_of zero content = []
map_of (suc i) content = put_record (map_of i content) (take 14 (drop (i * 14) content))

pub length-mata_record : (key off len : ℕ) → length (mata_record key off len) ≡ 14
unfolding mata_record
length-mata_record key off len = omega (
  arith,
  length-append (le_bytes 4 key) (le_bytes 8 off ++ le_bytes 2 len),
  length-append (le_bytes 8 off) (le_bytes 2 len),
  length-le_bytes 4 key,
  length-le_bytes 8 off,
  length-le_bytes 2 len,
)

pub take-all : (xs : Str) (n : ℕ) → length xs ≡ n → take n xs ≡ xs
take-all [] zero h = refl
take-all [] (suc n) h = absurd (omega arith)
take-all (x ∷ xs) zero h = absurd (omega arith)
take-all (x ∷ xs) (suc n) h = ap (◌∷◌ x) (take-all xs n (omega arith))

record_parts :
    (a b c : Str)
    → length a ≡ 4
    → length b ≡ 8
    → length c ≡ 2
    → (take 4 (a ++ (b ++ c)) ≡ a)
      × (take 8 (drop 4 (a ++ (b ++ c))) ≡ b)
      × (take 2 (drop 8 (drop 4 (a ++ (b ++ c)))) ≡ c)
record_parts a b c ha hb hc =
    let rest = drop-append a (b ++ c) 4 ha in
    (
      take-append a (b ++ c) 4 ha,
      ap (take 8) rest ∙ take-append b c 8 hb,
      ap (λ s. take 2 (drop 8 s)) rest ∙ ap (take 2) (drop-append b c 8 hb) ∙ take-all c 2 hc,
    )

put_record-parts :
    (m : List (ℕ × Place)) (buf : Str) (key off len : ℕ)
    → of_le_bytes (take 4 buf) ≡ key
    → of_le_bytes (take 8 (drop 4 buf)) ≡ off
    → of_le_bytes (take 2 (drop 8 (drop 4 buf))) ≡ len
    → put_record m buf ≡ put m key (off, len)
unfolding put_record
put_record-parts m buf key off len k o l = cc

pub put_record-mata_record :
    (m : List (ℕ × Place)) (key off len : ℕ)
    → key < 256 ^ 4
    → off < 256 ^ 8
    → len < 256 ^ 2
    → put_record m (mata_record key off len) ≡ put m key (off, len)
unfolding mata_record
put_record-mata_record m key off len k o l =
    let (a, b, c) =
      record_parts (le_bytes 4 key) (le_bytes 8 off) (le_bytes 2 len) (length-le_bytes 4 key)
        (length-le_bytes 8 off) (length-le_bytes 2 len) in
    put_record-parts m _ key off len (ap of_le_bytes a ∙ of_le_bytes-le_bytes 4 key k)
      (ap of_le_bytes b ∙ of_le_bytes-le_bytes 8 off o)
      (ap of_le_bytes c ∙ of_le_bytes-le_bytes 2 len l)

pub slice-append :
    (k n : ℕ) (xs ys : Str) → k + n ≤ length xs → take n (drop k (xs ++ ys)) ≡ take n (drop k xs)
slice-append zero zero xs ys h = refl
slice-append zero (suc n) [] ys h = absurd (omega arith)
slice-append zero (suc n) (x ∷ xs) ys h = ap (◌∷◌ x) (slice-append zero n xs ys (omega arith))
slice-append (suc k) zero [] ys h = refl
slice-append (suc k) (suc n) [] ys h = absurd (omega arith)
slice-append (suc k) n (x ∷ xs) ys h = slice-append k n xs ys (omega arith)

-- More bytes at the end leave the map of the first records.
pub map_of-append :
    (n : ℕ) (content s : Str) → n * 14 ≤ length content → map_of n (content ++ s) ≡ map_of n content
unfolding map_of
map_of-append zero content s h = refl
map_of-append (suc n) content s h =
    rw (map_of-append n content s (omega arith), slice-append (n * 14) 14 content s (omega arith))
      refl

-- One more record puts its entry.
pub map_of-record :
    (n : ℕ) (content : Str) (key off len : ℕ)
    → length content ≡ n * 14
    → key < 256 ^ 4
    → off < 256 ^ 8
    → len < 256 ^ 2
    → map_of (suc n) (content ++ mata_record key off len) ≡ put (map_of n content) key (off, len)
unfolding map_of
map_of-record n content key off len h k o l =
    rw
      (
        map_of-append n content (mata_record key off len) (omega (arith, h)),
        drop-append content (mata_record key off len) (n * 14) h,
        take-all (mata_record key off len) 14 (length-mata_record key off len),
      )
      (put_record-mata_record (map_of n content) key off len k o l)
