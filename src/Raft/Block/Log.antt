-- ===== src/Raft/Block/Log.antt =====
-- raft_store/raft_store.cc: the bytes of a log entry, which are the length of the request in network
-- order, the request, and the data of the document.
use sim_search.Prelude.{
  ℕ, ◌^◌, ◌%◌, ◌<◌, ◌≡◌, refl, ap, ◌∙◌, ◌++◌, Option, none, some, arith, length, take, drop, Str,
  if◌then◌else◌,
}
use sim_search.Prelude.Bytes.{
  be_bytes, of_be_bytes, length-be_bytes, of_be_bytes-be_bytes, take-append, drop-append,
}
use sim_search.Common.Messages.{BlockRequest}
use sim_search.External.Codec.{Codec}

-- `ByteSizeLong` of a message is the length of its bytes, which is kept in 32 bits.
unfoldable pub frame : Str → Str → Str
unfolding be_bytes
frame text data_text = be_bytes 4 (length text % 2 ^ 32) ++ (text ++ data_text)

-- What `on_apply` cuts from a log entry: the bytes of the request and the data.
unfoldable pub cut : Str → Str × Str
unfolding of_be_bytes
cut log =
    let meta_size = of_be_bytes 0 (take 4 log) in
    let saved_log = drop 4 log in (take meta_size saved_log, drop meta_size saved_log)

-- none: the request does not parse, where the source stops the process.
unfoldable pub parse_parts : Codec BlockRequest → Str × Str → Option (BlockRequest × Str)
parse_parts codec (meta, data_text) =
    let (request, parsed) = codec.parse meta in if parsed then some (request, data_text) else none

unfoldable pub parse_log : Codec BlockRequest → Str → Option (BlockRequest × Str)
unfolding parse_parts cut
parse_log codec log = parse_parts codec (cut log)

cut-parts :
    (head text data_text : Str) (size : ℕ)
    → length head ≡ 4
    → of_be_bytes 0 head ≡ size
    → length text ≡ size
    → cut (head ++ (text ++ data_text)) ≡ (text, data_text)
unfolding cut
cut-parts head text data_text size four n len =
    let a = take-append head (text ++ data_text) 4 four in
    let b = drop-append head (text ++ data_text) 4 four in
    let meta_size : of_be_bytes 0 (take 4 (head ++ (text ++ data_text))) ≡ size =
      ap (of_be_bytes 0) a ∙ n in
    rw (meta_size, b, take-append text data_text size len, drop-append text data_text size len) refl

pub cut-frame :
    (text data_text : Str) → length text < 2 ^ 32 → cut (frame text data_text) ≡ (text, data_text)
unfolding frame
cut-frame text data_text h =
    cut-parts (be_bytes 4 (length text % 2 ^ 32)) text data_text (length text)
      (length-be_bytes 4 (length text % 2 ^ 32))
      (of_be_bytes-be_bytes 4 (length text % 2 ^ 32) (omega arith) ∙ omega (arith, h)) refl

parse_parts-printed :
    (codec : Codec BlockRequest) (request : BlockRequest) (text data_text : Str)
    → codec.print request ≡ some text
    → parse_parts codec (text, data_text) ≡ some (request, data_text)
unfolding parse_parts
parse_parts-printed codec request text data_text printed =
    rw (codec.parse-print request text printed) refl

-- A log entry that was made from a request of less than 2^32 bytes gives back the request and the data.
pub parse_log-frame :
    (codec : Codec BlockRequest) (request : BlockRequest) (text data_text : Str)
    → codec.print request ≡ some text
    → length text < 2 ^ 32
    → parse_log codec (frame text data_text) ≡ some (request, data_text)
unfolding parse_log
parse_log-frame codec request text data_text printed h =
    ap (parse_parts codec) (cut-frame text data_text h)
    ∙ parse_parts-printed codec request text data_text printed
