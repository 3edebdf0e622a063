-- ===== src/Examples/Engine.antt =====
-- The examples of engine/engine.cc, on files that take every write at their end.
use sim_search.Prelude.{
  ℕ, ◌+◌, ◌≤◌, ◌≡◌, refl, Bool, true, false, List, [], ◌∷◌, ◌++◌, Option, none, some, arith,
  Bool-cases, inl, inr, if◌then◌else◌, ◌==◌, leb, length, take, drop, Str, nat_key,
}
use sim_search.External.Files.{Files}
use sim_search.Engine.{Engine, new_engine, load, add_all, get}
use sim_search.Engine.Mget.{mget, mget-one}
use sim_search.Engine.Reads.{IsWithin, read_after, get-add_all}
use sim_search.Prelude.Assoc.{get?}
use sim_search.Examples.Values.{none-some}
use sim_search.Engine.Records.{map_of, mata_record}
use sim_search.Engine.Recovery.{IsConsistent, load-add_all}

-- What each descriptor's file holds.
abbrev Shelf : Type 0
Shelf = ℕ → Str

abbrev grown : ℕ → Str → Shelf → Shelf
grown fd s w f = if fd == f then w f ++ s else w f

abbrev write_end : ℕ → ℕ → Str → Shelf → Shelf × Bool
write_end fd off s w = if off == length (w fd) then (grown fd s w, true) else (w, false)

abbrev read_within : ℕ → ℕ → ℕ → Shelf → Option Str
read_within fd off n w =
    if leb (off + n) (length (w fd)) then some (take n (drop off (w fd))) else none

le-leb : (a b : ℕ) → a ≤ b → leb a b ≡ true
le-leb a b h = ground arith

read_within-le :
    (fd off n : ℕ) (w : Shelf)
    → off + n ≤ length (w fd)
    → read_within fd off n w ≡ some (take n (drop off (w fd)))
read_within-le fd off n w h = rw (le-leb (off + n) (length (w fd)) h) refl

same : (a b : ℕ) → a ≡ b → (a == b) ≡ true
same a b h = ground arith

write_end-content :
    (fd off : ℕ) (s : Str) (w : Shelf)
    → off ≡ length (w fd)
    → (write_end fd off s w).1 ≡ true
    → (write_end fd off s w).0 fd ≡ w fd ++ s
write_end-content fd off s w h done = rw (same off (length (w fd)) h, same fd fd refl) refl

write_end-other :
    (fd other off : ℕ) (s : Str) (w : Shelf)
    → (fd == other) ≡ false
    → (write_end fd off s w).0 other ≡ w other
write_end-other fd other off s w h = elim (Bool-cases (off == length (w fd))) [
  | inl e ↦ rw (e, h) refl
  | inr e ↦ rw (e) refl
]

abbrev shelf_files : Files Shelf
shelf_files = record {
  path_exists = λ p w. false;
  directory_exists = λ p w. false;
  copy_file = λ p q w. w;
  rename = λ p q w. (w, false);
  delete_file = λ p w. w;
  close = λ fd w. w;
  open_file = λ p w. (w, none);
  size = λ fd w. length (w fd);
  write_at = write_end;
  read_at = read_within;
  content = λ fd w. w fd;
  size-content = λ fd w. refl;
  read-content = read_within-le;
  write-end = write_end-content;
  write-other = write_end-other;
}

abbrev empty_shelf : Shelf
empty_shelf fd = []

-- An engine whose files, 3 and 4, are open and empty.
abbrev opened : Engine
opened = record new_engine { data_fd = some 3; mata_fd = some 4 }

opened-IsConsistent : IsConsistent shelf_files 3 4 opened empty_shelf
unfolding new_engine map_of
opened-IsConsistent = record {
  data_end = refl;
  mata_end = refl;
  counted = omega arith;
  mapped = refl;
}

abbrev batch : List (ℕ × ℕ)
batch = (7, 2) ∷ (8, 1) ∷ []

abbrev text : Str
text = 65 ∷ 66 ∷ 67 ∷ []

added : (add_all shelf_files 3 4 opened batch text empty_shelf).0 ≡ []
unfolding add_all new_engine mata_record
added = refl

few_records :
    length (shelf_files.content 4 (add_all shelf_files 3 4 opened batch text empty_shelf).2) ≡ 28
unfolding add_all new_engine mata_record
few_records = refl

load-add_all_example :
    let (msg, e', w') = add_all shelf_files 3 4 opened batch text empty_shelf in
    load shelf_files new_engine 3 4 w'
    ≡ some ([], record e' { path = []; data_fd = some 3; mata_fd = some 4 })
unfolding new_engine
load-add_all_example =
    load-add_all shelf_files 3 4 opened batch text empty_shelf refl opened-IsConsistent
      (
        omega arith,
        omega arith,
        omega arith,
        omega arith,
        (omega arith, omega arith, omega arith, omega arith, tt),
      )
      added (omega (arith, few_records))

opened-IsWithin : IsWithin opened
unfolding new_engine get?
opened-IsWithin = λ key off len found. none-some found

get-add_all_example :
    get shelf_files
      (add_all shelf_files 3 4 opened batch text empty_shelf).1
      8
      (add_all shelf_files 3 4 opened batch text empty_shelf).2
    ≡ read_after batch text 8 (get shelf_files opened 8 empty_shelf)
unfolding new_engine
get-add_all_example =
    get-add_all shelf_files 3 4 opened batch text empty_shelf 8 refl refl opened-IsConsistent
      opened-IsWithin
      (
        omega arith,
        omega arith,
        omega arith,
        omega arith,
        (omega arith, omega arith, omega arith, omega arith, tt),
      )
      added

-- Two documents, of which the second stands after the first.
abbrev two_documents : Engine
two_documents = record new_engine {
  data_fd = some 3;
  key_to_offset = (7, (0, 2)) ∷ (8, (2, 1)) ∷ [];
}

abbrev text_shelf : Shelf
text_shelf fd = text

second_document : get? two_documents.key_to_offset 8 ≡ some (2, 1)
unfolding get?
second_document = refl

mget-one_example :
    mget shelf_files two_documents (8 ∷ []) text_shelf
    ≡ (1 ∷ [], (if leb 2 0 then some (true, take 1 (shelf_files.content 3 text_shelf)) else none))
mget-one_example =
    mget-one shelf_files two_documents 8 3 2 1 text_shelf refl second_document (omega arith)
      (omega arith)
