-- ===== src/Engine/Reads.antt =====
-- engine/engine.cc: what Get reads after BatchAdd.
use sim_search.Prelude.{
  ℕ, ◌+◌, ◌≤◌, ◌≡◌, refl, sym, ap, ◌∙◌, false, List, [], ◌∷◌, ◌++◌, Option, none, some, arith,
  Bool-cases, Option-cases, inl, inr, if◌then◌else◌, ◌==◌, length, length-append, length-take, take,
  drop, Str, nat_key,
}
use sim_search.Prelude.Assoc.{get?, put, get?-put}
use sim_search.Prelude.Bytes.{drop-append}
use sim_search.External.Files.{Files}
use sim_search.Engine.{Engine, add_all, get}
use sim_search.Engine.Records.{Place, mata_record, take-all, slice-append}
use sim_search.Engine.Recovery.{
  IsConsistent, Fits, added, added-IsConsistent, data_failed-ne, mata_failed-ne, other_way,
}

-- Every document of the map lies in the data.
abbrev pub IsWithin : Engine → Type 0
IsWithin e =
    (key off len : ℕ) → get? e.key_to_offset key ≡ some (off, len) → off + len ≤ e.raw_data_offset

module _ {W : Type 0} (files : Files W) (data_fd mata_fd : ℕ) where
  get-some :
      (e : Engine) (key off len : ℕ) (w : W)
      → e.data_fd ≡ some data_fd
      → get? e.key_to_offset key ≡ some (off, len)
      → off + len ≤ length (files.content data_fd w)
      → get files e key w ≡ take len (drop off (files.content data_fd w))
  unfolding get
  get-some e key off len w fd found within =
      rw (found, fd, files.read-content data_fd off len w within, get) refl

  get-none :
      (e : Engine) (key : ℕ) (w : W) → get? e.key_to_offset key ≡ none → get files e key w ≡ []
  unfolding get
  get-none e key w found = rw (found, get) refl

  -- The file of the data grew at its end, and one entry was put.
  get-put_entry :
      (e e' : Engine) (key len j : ℕ) (text : Str) (w w' : W)
      → e.data_fd ≡ some data_fd
      → e'.data_fd ≡ some data_fd
      → e'.key_to_offset ≡ put e.key_to_offset key (e.raw_data_offset, len)
      → e.raw_data_offset ≡ length (files.content data_fd w)
      → files.content data_fd w' ≡ files.content data_fd w ++ text
      → length text ≡ len
      → IsWithin e
      → get files e' j w' ≡ (if key == j then text else get files e j w)
  get-put_entry e e' key len j text w w' fd fd' entry end grown fits within =
      let c = files.content data_fd w in
      let found : get? e'.key_to_offset j
          ≡ (if key == j then some (e.raw_data_offset, len) else get? e.key_to_offset j) =
        ap (λ m. get? m j) entry ∙ get?-put e.key_to_offset key (e.raw_data_offset, len) j in
      let total : length (files.content data_fd w') ≡ length c + length text =
        ap length grown ∙ length-append c text in
      elim (Bool-cases (key == j)) [
        | inl p ↦ rw p (
            get-some e' j e.raw_data_offset len w' fd' (found ∙ rw p refl)
              (omega (arith, total, end, fits))
            ∙ ap (λ s. take len (drop e.raw_data_offset s)) grown
            ∙ ap (take len) (drop-append c text e.raw_data_offset (sym end))
            ∙ take-all text len fits)
        | inr p ↦ elim (Option-cases (get? e.key_to_offset j)) [
          | inl q ↦ rw p (get-none e' j w' (found ∙ rw p q) ∙ sym (get-none e j w q))
          | inr ((off, size), q) ↦
              let inside = within j off size q in
              rw p (
                get-some e' j off size w' fd' (found ∙ rw p q) (omega (arith, total, end, inside))
                ∙ ap (λ s. take size (drop off s)) grown
                ∙ slice-append off size c text (omega (arith, end, inside))
                ∙ sym (get-some e j off size w fd q (omega (arith, end, inside))))
        ]
      ]

abbrev end_of : Option Place → ℕ
end_of none = 0
end_of (some (off, len)) = off + len

-- What a key reads after a batch: its text in the batch, the last where it comes more than once, and
-- otherwise what it read before.
unfoldable pub read_after : List (ℕ × ℕ) → Str → ℕ → Str → Str
read_after [] text j before = before
read_after ((key, len) ∷ kv_list) text j before =
    read_after kv_list (drop len text) j (if key == j then take len text else before)

module _ {W : Type 0} (files : Files W) (data_fd mata_fd : ℕ) where
  added-IsWithin :
      (e : Engine) (key len : ℕ) → IsWithin e → IsWithin (added files data_fd mata_fd e key len)
  added-IsWithin e key len within = λ j off size found.
      let eq = get?-put e.key_to_offset key (e.raw_data_offset, len) j in
      elim (Bool-cases (key == j)) [
        | inl p ↦
            let same : some (e.raw_data_offset, len) ≡ some (off, size) =
              sym (eq ∙ rw p refl) ∙ found in
            omega (arith, ap end_of same)
        | inr p ↦ omega (arith, within j off size (sym (eq ∙ rw p refl) ∙ found))
      ]

  -- After a batch that reports no error, on an engine whose two files, of different descriptors,
  -- agree with its map, whose documents lie in the data, and whose batch fits the record's widths
  -- and its text, `Get` of any key reads the key's last text in the batch, or what it read before
  -- if the batch does not have the key.
  pub get-add_all :
      (e : Engine) (kv_list : List (ℕ × ℕ)) (text : Str) (w : W) (j : ℕ)
      → (data_fd == mata_fd) ≡ false
      → e.data_fd ≡ some data_fd
      → IsConsistent files data_fd mata_fd e w
      → IsWithin e
      → Fits e.raw_data_offset kv_list text
      → (add_all files data_fd mata_fd e kv_list text w).0 ≡ []
      → get files
          (add_all files data_fd mata_fd e kv_list text w).1
          j
          (add_all files data_fd mata_fd e kv_list text w).2
        ≡ read_after kv_list text j (get files e j w)
  unfolding add_all read_after
  get-add_all e [] text w j ne fd s within fit h = refl
  get-add_all e ((key, len) ∷ kv_list) text w j ne fd s within (k, l, o, fits, fit) h =
      let (w1, wrote) = files.write_at data_fd e.raw_data_offset (take len text) w in
      let rec = mata_record key e.raw_data_offset len in
      let (w2, noted) = files.write_at mata_fd e.mata_offset rec w1 in
      elim (Bool-cases wrote) [
        | inr p ↦
            absurd
              (data_failed-ne files data_fd mata_fd e.raw_data_offset len (rw (p, add_all) at h))
        | inl p ↦ elim (Bool-cases noted) [
          | inr q ↦
              absurd (mata_failed-ne files data_fd mata_fd e.mata_offset (rw (p, q, add_all) at h))
          | inl q ↦
              let grown : files.content data_fd w2 ≡ files.content data_fd w ++ take len text =
                files.write-other mata_fd data_fd e.mata_offset rec w1
                  (other_way data_fd mata_fd ne)
                ∙ files.write-end data_fd e.raw_data_offset (take len text) w s.data_end p in
              let e' = added files data_fd mata_fd e key len in
              let one =
                get-put_entry files data_fd mata_fd e e' key len j (take len text) w w2 fd fd refl
                  s.data_end grown (omega (arith, length-take len text, fits)) within in
              rw (p, q, add_all)
                (get-add_all e' kv_list (drop len text) w2 j ne fd
                    (added-IsConsistent files data_fd mata_fd e key len text w ne s
                      (omega (arith, k)) (omega (arith, l)) (omega (arith, o)) fits p q)
                    (added-IsWithin e key len within) fit (rw (p, q, add_all) at h)
                  ∙ ap (read_after kv_list (drop len text) j) one)
        ]
      ]
