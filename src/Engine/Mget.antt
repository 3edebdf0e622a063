-- ===== src/Engine/Mget.antt =====
-- engine/engine.cc, Mget: the documents of several keys in one buffer. The position of the file hides
-- that of the buffer in the loop, so a document is read to the place that it has in the file.
use sim_search.Prelude.{
  ℕ, zero, suc, ◌+◌, ◌≤◌, ◌<◌, ◌≡◌, refl, ap, ◌∙◌, Bool, true, false, List, [], ◌∷◌, ◌++◌, Option,
  none, some, if◌then◌else◌, leb, length, length-take, length-drop, length-replicate, take, drop,
  replicate, Str, nat_key, arith,
}
use sim_search.Prelude.Assoc.{get?}
use sim_search.Engine.{Engine, Place}
use sim_search.External.Files.{Files}

-- The first loop: the lengths, 0 where a key is unknown, and their sum.
unfoldable pub lengths : List (ℕ × Place) → List ℕ → List ℕ × ℕ
lengths key_to_offset [] = ([], 0)
lengths key_to_offset (key ∷ keys) =
    let (doc_lengths, all_len) = lengths key_to_offset keys in
    elim (get? key_to_offset key) [
      | none ↦ (0 ∷ doc_lengths, all_len)
      | some (off, size) ↦ (size ∷ doc_lengths, size + all_len)
    ]

-- none: the bytes do not fit in the buffer, where the source writes outside of it.
unfoldable pub write_into : Str → ℕ → Str → Option Str
write_into buf off s =
    if leb (off + length s) (length buf)
    then some (take off buf ++ (s ++ drop (off + length s) buf))
    else none

-- A text of the buffer's length fits at its start, and nowhere else.
all_dropped : {A : Type 0} (n : ℕ) (xs : List A) → length xs ≡ n → drop n xs ≡ []
all_dropped zero [] h = refl
all_dropped zero (x ∷ xs) h = absurd (omega arith)
all_dropped (suc n) [] h = refl
all_dropped (suc n) (x ∷ xs) h = all_dropped n xs (omega arith)

append_nil : {A : Type 0} (xs : List A) → xs ++ [] ≡ xs
append_nil [] = refl
append_nil (x ∷ xs) = ap (λ ys. x ∷ ys) (append_nil xs)

leb_refl : (n : ℕ) → leb (0 + n) n ≡ true
leb_refl n = ground arith

write_into-start : (buf s : Str) → length s ≡ length buf → write_into buf 0 s ≡ some s
unfolding write_into
write_into-start buf s h =
    ground (arith, all_dropped (0 + length s) buf (omega (arith, h)), append_nil s)

write_into-further :
    (buf s : Str) (off : ℕ) → length s ≡ length buf → 0 < off → write_into buf off s ≡ none
unfolding write_into
write_into-further buf s off h k = ground arith

-- The result of a loop that read everything.
abbrev all_read : Str → Option (Bool × Str)
all_read buf = some (true, buf)

placed :
    (content : Str) (off size : ℕ) (buf : Str)
    → length (take size (drop off content)) ≡ length buf
    → (elim (write_into buf off (take size (drop off content))) [
      | none ↦ none
      | some buf' ↦ some (true, buf')
    ])
      ≡ (if leb off 0 then all_read (take size content) else none)
placed content zero size buf h = rw (write_into-start buf (take size content) h) refl
placed content (suc n) size buf h =
    rw (write_into-further buf (take size (drop (suc n) content)) (suc n) h (omega arith))
      (ground arith)

module _ {W : Type 0} (files : Files W) where
  -- The second loop: none where it writes outside of the buffer, else whether all reads were done.
  unfoldable pub read_all : Engine → List ℕ → Str → W → Option (Bool × Str)
  unfolding write_into
  read_all e [] res_buf w = some (true, res_buf)
  read_all e (key ∷ keys) res_buf w = elim (get? e.key_to_offset key) [
    | none ↦ read_all e keys res_buf w
    | some (off, size) ↦ elim e.data_fd [
      | none ↦ some (false, res_buf)
      | some fd ↦ elim (files.read_at fd off size w) [
        | none ↦ some (false, res_buf)
        | some text ↦ elim (write_into res_buf off text) [
          | none ↦ none
          | some buf ↦ read_all e keys buf w
        ]
      ]
    ]
  ]

  unfoldable pub mget : Engine → List ℕ → W → List ℕ × Option (Bool × Str)
  unfolding lengths read_all
  mget e keys w =
      let (doc_lengths, all_len) = lengths e.key_to_offset keys in
      (doc_lengths, read_all e keys (replicate all_len 0) w)

  -- The loop at one key whose document the file has.
  read_all-one :
      (e : Engine) (key fd off size : ℕ) (buf text : Str) (w : W)
      → e.data_fd ≡ some fd
      → get? e.key_to_offset key ≡ some (off, size)
      → files.read_at fd off size w ≡ some text
      → read_all e (key ∷ []) buf w
        ≡ (elim (write_into buf off text) [ none ↦ none | some buf' ↦ some (true, buf') ])
  unfolding read_all
  read_all-one e key fd off size buf text w opened found reads =
      rw (read_all, found, opened, reads) refl

  mget-lengths :
      (e : Engine) (key off size : ℕ) (w : W)
      → get? e.key_to_offset key ≡ some (off, size)
      → mget e (key ∷ []) w ≡ (size ∷ [], read_all e (key ∷ []) (replicate (size + 0) 0) w)
  unfolding mget lengths
  mget-lengths e key off size w found = rw (mget, lengths, found) refl

  -- For one key, whose document is in the open file and is not empty, Mget gives the document if it
  -- stands at the start of the file, and else writes outside of its buffer.
  pub mget-one :
      (e : Engine) (key fd off size : ℕ) (w : W)
      → e.data_fd ≡ some fd
      → get? e.key_to_offset key ≡ some (off, size)
      → off + size ≤ length (files.content fd w)
      → 0 < size
      → mget e (key ∷ []) w
        ≡ (size ∷ [], (if leb off 0 then all_read (take size (files.content fd w)) else none))
  mget-one e key fd off size w opened found within filled =
      let text = take size (drop off (files.content fd w)) in
      let buf = replicate (size + 0) 0 in
      let same : length text ≡ length buf = omega (
        arith,
        length-take size (drop off (files.content fd w)),
        length-drop off (files.content fd w),
        length-replicate {A = ℕ} (size + 0) 0,
        within,
      ) in
      mget-lengths e key off size w found
      ∙ ap (λ r. (size ∷ [], r))
          (read_all-one e key fd off size buf text w opened found
              (files.read-content fd off size w within)
            ∙ placed (files.content fd w) off size buf same)
