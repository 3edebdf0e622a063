-- ===== src/Engine/Recovery.antt =====
-- engine/engine.cc: the map in memory and the file of metadata agree.
use sim_search.Prelude.{
  ℕ, zero, suc, ◌+◌, ◌*◌, ◌/◌, ◌^◌, ◌<◌, ◌≤◌, ◌≡◌, ◌≢◌, refl, sym, ap, ◌∙◌, true, false, List, [],
  ◌∷◌, ◌++◌, some, arith, Bool-cases, inl, inr, ltb, ◌==◌, length, length-append, length-take, take,
  drop, Str, nat_key,
}
use sim_search.Prelude.Assoc.{put}
use sim_search.External.Files.{Files}
use sim_search.Engine.{
  int_limit, Engine, new_engine, load_records, load, add_all, data_failed, mata_failed,
}
use sim_search.Engine.Records.{mata_record, put_record, map_of, map_of-record, length-mata_record}

map_of-suc :
    (i : ℕ) (c : Str) → map_of (suc i) c ≡ put_record (map_of i c) (take 14 (drop (i * 14) c))
unfolding map_of
map_of-suc i c = refl

map_of-zero : (c : Str) → map_of 0 c ≡ []
unfolding map_of
map_of-zero c = refl

lt-ltb : (a b : ℕ) → a < b → ltb a b ≡ true
lt-ltb a b h = ground arith

pub other_way : (a b : ℕ) → (a == b) ≡ false → (b == a) ≡ false
other_way a b h = ground arith

-- Entries of a batch from position `off`, with keys and positions in their widths, and a text that has
-- all the bytes that the entries name.
abbrev pub Fits : ℕ → List (ℕ × ℕ) → Str → Type 0
Fits off [] text = Unit
Fits off ((key, len) ∷ kv_list) text =
    (key < 0x1_0000_0000)
    × (len < 0x8000)
    × (off < 0x8000_0000_0000_0000)
    × (len ≤ length text)
    × Fits (off + len) kv_list (drop len text)

module _ {W : Type 0} (files : Files W) (data_fd mata_fd : ℕ) where
  -- The offsets are the ends of the files, and the map is that of the records.
  pub record IsConsistent (e : Engine) (w : W) : Type 0 where
    pub data_end : e.raw_data_offset ≡ length (files.content data_fd w)
    pub mata_end : e.mata_offset ≡ length (files.content mata_fd w)
    pub counted : e.mata_offset ≡ e.data_size * 14
    pub mapped : e.key_to_offset ≡ map_of e.data_size (files.content mata_fd w)

  load_records-map_of :
      (count i : ℕ) (w : W)
      → (i + count) * 14 ≤ length (files.content mata_fd w)
      → length (files.content mata_fd w) < int_limit
      → load_records files count i mata_fd (map_of i (files.content mata_fd w)) w
        ≡ some (map_of (i + count) (files.content mata_fd w), [])
  unfolding load_records
  load_records-map_of zero i w h small =
      ap (λ k. some (map_of k (files.content mata_fd w), [])) (omega arith)
  load_records-map_of (suc count) i w h small =
      let c = files.content mata_fd w in
      let buf = take 14 (drop (i * 14) c) in
      let fits : ltb (i * 14) int_limit ≡ true =
        lt-ltb (i * 14) int_limit (omega (arith, h, small)) in
      let read : files.read_at mata_fd (i * 14) 14 w ≡ some buf =
        files.read-content mata_fd (i * 14) 14 w (omega (arith, h)) in
      let next : i + 1 ≡ suc i = omega arith in
      let last : suc i + count ≡ i + suc count = omega arith in
      rw (fits, read, load_records)
        (ap (λ k. load_records files count k mata_fd (put_record (map_of i c) buf) w) next
          ∙ ap (λ m. load_records files count (suc i) mata_fd m w) (sym (map_of-suc i c))
          ∙ load_records-map_of count (suc i) w (omega (arith, h)) small
          ∙ ap (λ k. some (map_of k c, [])) last)

  -- A fresh engine that opens the files of a consistent one, with metadata whose positions an int
  -- holds, becomes that engine but for its path and its descriptors.
  load-IsConsistent :
      (e : Engine) (w : W)
      → IsConsistent e w
      → length (files.content mata_fd w) < int_limit
      → load files new_engine data_fd mata_fd w
        ≡ some ([], record e { path = []; data_fd = some data_fd; mata_fd = some mata_fd })
  unfolding load new_engine
  load-IsConsistent e w s small =
      let c = files.content mata_fd w in
      let mata : files.size mata_fd w ≡ e.mata_offset =
        files.size-content mata_fd w ∙ sym s.mata_end in
      let raw : files.size data_fd w ≡ e.raw_data_offset =
        files.size-content data_fd w ∙ sym s.data_end in
      let size : files.size mata_fd w / 14 ≡ e.data_size = omega (arith, mata, s.counted) in
      let fits : ltb (files.size mata_fd w / 14) int_limit ≡ true =
        lt-ltb (files.size mata_fd w / 14) int_limit
          (omega (arith, size, s.mata_end, s.counted, small)) in
      let loaded : load_records files (files.size mata_fd w / 14) 0 mata_fd [] w
          ≡ some (e.key_to_offset, []) =
        ap (λ n. load_records files n 0 mata_fd [] w) size
        ∙ ap (λ m. load_records files e.data_size 0 mata_fd m w) (sym (map_of-zero c))
        ∙ load_records-map_of e.data_size 0 w (omega (arith, s.mata_end, s.counted)) small
        ∙ ap (λ k. some (map_of k c, [])) (omega arith)
        ∙ ap (λ m. some (m, [])) (sym s.mapped) in
      rw (fits, loaded, size, mata, raw, load) refl

  -- What one entry leaves, where both of its writes are done.
  abbrev pub added : Engine → ℕ → ℕ → Engine
  added e key len = record e {
    key_to_offset = put e.key_to_offset key (e.raw_data_offset, len);
    raw_data_offset = e.raw_data_offset + len;
    mata_offset = e.mata_offset + 14;
    data_size = e.data_size + 1;
  }

  pub added-IsConsistent :
      (e : Engine) (key len : ℕ) (text : Str) (w : W)
      → (data_fd == mata_fd) ≡ false
      → IsConsistent e w
      → key < 256 ^ 4
      → len < 256 ^ 2
      → e.raw_data_offset < 256 ^ 8
      → len ≤ length text
      → (files.write_at data_fd e.raw_data_offset (take len text) w).1 ≡ true
      → (files.write_at mata_fd e.mata_offset
          (mata_record key e.raw_data_offset len)
          (files.write_at data_fd e.raw_data_offset (take len text) w).0).1
        ≡ true
      → IsConsistent
          (added e key len)
          (files.write_at mata_fd e.mata_offset
            (mata_record key e.raw_data_offset len)
            (files.write_at data_fd e.raw_data_offset (take len text) w).0).0
  added-IsConsistent e key len text w ne s k l o fits wrote noted =
      let rec = mata_record key e.raw_data_offset len in
      let w1 = (files.write_at data_fd e.raw_data_offset (take len text) w).0 in
      let w2 = (files.write_at mata_fd e.mata_offset rec w1).0 in
      let same : files.content mata_fd w1 ≡ files.content mata_fd w =
        files.write-other data_fd mata_fd e.raw_data_offset (take len text) w ne in
      let data1 : files.content data_fd w1 ≡ files.content data_fd w ++ take len text =
        files.write-end data_fd e.raw_data_offset (take len text) w s.data_end wrote in
      let data2 : files.content data_fd w2 ≡ files.content data_fd w1 =
        files.write-other mata_fd data_fd e.mata_offset rec w1 (other_way data_fd mata_fd ne) in
      let mata2 : files.content mata_fd w2 ≡ files.content mata_fd w ++ rec =
        files.write-end mata_fd e.mata_offset rec w1 (s.mata_end ∙ ap length (sym same)) noted
        ∙ ap (λ c. c ++ rec) same in
      record {
        data_end = omega (
          arith,
          s.data_end,
          ap length data2,
          ap length data1,
          length-append (files.content data_fd w) (take len text),
          length-take len text,
          fits,
        );
        mata_end = omega (
          arith,
          s.mata_end,
          ap length mata2,
          length-append (files.content mata_fd w) rec,
          length-mata_record key e.raw_data_offset len,
        );
        counted = omega (arith, s.counted);
        mapped =
            ap (λ m. put m key (e.raw_data_offset, len)) s.mapped
            ∙ sym (
                map_of-record e.data_size (files.content mata_fd w) key e.raw_data_offset len
                  (omega (arith, s.mata_end, s.counted)) k o l)
            ∙ ap (map_of (suc e.data_size)) (sym mata2)
            ∙ ap (λ n. map_of n (files.content mata_fd w2)) (omega arith);
      }

  pub data_failed-ne : (off len : ℕ) → data_failed off len ≢ []
  unfolding data_failed
  data_failed-ne off len h = cc

  pub mata_failed-ne : (off : ℕ) → mata_failed off ≢ []
  unfolding mata_failed
  mata_failed-ne off h = cc

  -- A batch that reports no error keeps the files and the map in agreement.
  add_all-IsConsistent :
      (e : Engine) (kv_list : List (ℕ × ℕ)) (text : Str) (w : W)
      → (data_fd == mata_fd) ≡ false
      → IsConsistent e w
      → Fits e.raw_data_offset kv_list text
      → (add_all files data_fd mata_fd e kv_list text w).0 ≡ []
      → IsConsistent
          (add_all files data_fd mata_fd e kv_list text w).1
          (add_all files data_fd mata_fd e kv_list text w).2
  unfolding add_all
  add_all-IsConsistent e [] text w ne s fit h = s
  add_all-IsConsistent e ((key, len) ∷ kv_list) text w ne s (k, l, o, fits, fit) h =
      let (w1, wrote) = files.write_at data_fd e.raw_data_offset (take len text) w in
      let (w2, noted) =
        files.write_at mata_fd e.mata_offset (mata_record key e.raw_data_offset len) w1 in
      elim (Bool-cases wrote) [
        | inr p ↦ absurd (data_failed-ne e.raw_data_offset len (rw (p, add_all) at h))
        | inl p ↦ elim (Bool-cases noted) [
          | inr q ↦ absurd (mata_failed-ne e.mata_offset (rw (p, q, add_all) at h))
          | inl q ↦
              rw (p, q, add_all)
                (add_all-IsConsistent (added e key len) kv_list (drop len text) w2 ne
                  (added-IsConsistent e key len text w ne s (omega (arith, k)) (omega (arith, l))
                    (omega (arith, o)) fits p q)
                  fit (rw (p, q, add_all) at h))
        ]
      ]

  -- After a batch that reports no error, on an engine whose two files, of different descriptors,
  -- agree with its map, and whose keys, lengths and positions fit the record's widths, where the
  -- file of metadata is left with less than 2^31 bytes: an engine that starts afresh on the two files
  -- loads without an error, and has then the map, the number of records and the offsets that the
  -- engine has in memory.
  pub load-add_all :
      (e : Engine) (kv_list : List (ℕ × ℕ)) (text : Str) (w : W)
      → (data_fd == mata_fd) ≡ false
      → IsConsistent e w
      → Fits e.raw_data_offset kv_list text
      → let (msg, e', w') = add_all files data_fd mata_fd e kv_list text w in
        msg ≡ []
        → length (files.content mata_fd w') < int_limit
        → load files new_engine data_fd mata_fd w'
          ≡ some ([], record e' { path = []; data_fd = some data_fd; mata_fd = some mata_fd })
  load-add_all e kv_list text w ne s fit h small =
      load-IsConsistent (add_all files data_fd mata_fd e kv_list text w).1
        (add_all files data_fd mata_fd e kv_list text w).2
        (add_all-IsConsistent e kv_list text w ne s fit h) small
