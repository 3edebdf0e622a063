-- ===== src/Raft/Block/Apply.antt =====
-- raft_store/raft_store.cc, on_apply: the committed entries of the log, in their order.
use sim_search.Prelude.{
  ℕ, true, false, not, List, [], ◌∷◌, ◌++◌, Option, none, some, if◌then◌else◌, ◌==◌, is_empty, Str,
  codes, to_string,
}
use sim_search.Common.Messages.{Space, Document, BlockRequest, BlockResponse}
use sim_search.Dto.Gamma.{pb_doc_to_gamma_doc}
use sim_search.External.Codec.{Codec}
use sim_search.External.Gamma.{Gamma}
use sim_search.Raft.Block.{BlockClosure, with_success, failed_with}
use sim_search.Raft.Block.Log.{parse_log}

-- `done` is there where this node wrote the entry.
pub record Entry : Type 0 where
  pub log : Str
  pub done : Option BlockClosure

-- How the loop ends: after the last entry, with the rest rolled back, or with the process stopped.
pub data Halt : Type 0 where
  finished rolled_back stopped : Halt

pub record Applied (W : Type 0) : Type 0 where
  -- The responses of the entries that were reached and have one.
  pub responses : List BlockResponse
  pub halt : Halt
  pub world : W

unfoldable pub parse_failed : Str
unfolding codes
parse_failed = codes "Fail to parse UpsertRequest from request stream"

unfoldable pub write_failed : ℕ → Str
unfolding codes to_string
write_failed code = codes "Fail to write doc to gamma, code: " ++ to_string code

-- The bytes of the document; none where the process stops.
unfoldable pub data_of : Codec BlockRequest → Entry → Option Str
unfolding parse_log
data_of requests entry = elim entry.done [
  | some c ↦ some c.data_text
  | none ↦ elim (parse_log requests entry.log) [
    | none ↦ none
    | some (request, data_text) ↦ some data_text
  ]
]

-- The response of an entry, if it has one, with what the loop sets in it.
abbrev pub answer : Option BlockClosure → Str → List BlockResponse → List BlockResponse
answer none msg rest = rest
answer (some c) msg rest =
    (if is_empty msg then with_success c.response true else failed_with c.response msg) ∷ rest

module _ {W : Type 0} (gamma : Gamma W) (docs : Codec Document) (space : Space) where
  -- The document of the bytes goes to the engine. The message of CheckPbDoc is not read in the source,
  -- and neither is that of PbDocToGammaDoc.
  unfoldable pub apply_data : Str → W → W × Str
  unfolding pb_doc_to_gamma_doc parse_failed write_failed
  apply_data data_buf w =
      let (pb_doc, parsed) = docs.parse data_buf in
      let (w', code) = gamma.add_or_update_doc (pb_doc_to_gamma_doc pb_doc space).1 w in
      if not parsed
      then (w, parse_failed)
      else if code == 0
      then (w', [])
      else (w', write_failed code)

  unfoldable pub apply_all : Codec BlockRequest → List Entry → W → Applied W
  unfolding data_of apply_data
  apply_all requests [] w = record { responses = []; halt = finished; world = w }
  apply_all requests (entry ∷ entries) w = elim (data_of requests entry) [
    | none ↦ record { responses = []; halt = stopped; world = w }
    | some data_buf ↦
        let (w', msg) = apply_data data_buf w in
        elim (is_empty msg) [
          | false ↦ record { responses = answer entry.done msg []; halt = rolled_back; world = w' }
          | true ↦
              let rest = apply_all requests entries w' in
              record rest { responses = answer entry.done [] rest.responses }
        ]
  ]
