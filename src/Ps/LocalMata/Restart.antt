-- ===== src/Ps/LocalMata/Restart.antt =====
-- service/ps/local_mata.cc: what `Init` finds of what the dumps and `DeleteSpace` left on disk.
use sim_search.Prelude.{
  ◌≡◌, ap, inl, inr, refl, true, none, some, Option-cases, Bool-cases, is_empty, arith, Str, codes,
}
use sim_search.Common.Messages.{PsNodeInfo, CreateSpaceRequest}
use sim_search.External.Codec.{Codec}
use sim_search.External.FileSystem.{FileSystem, IsWritable}
use sim_search.Ps.LocalMata.{
  LocalMata, with_dir, load, load_space, init, dump_create_space_req, dump_node_info, is_positive,
  not_json, no_space_file, no_node_file, space_not_set, id_not_set,
}

module _ {W : Type 0} (fs : FileSystem W) (node_json : Codec PsNodeInfo)
    (space_json : Codec CreateSpaceRequest) where
  -- A dump of the space that is done wrote the converted request, if the file could be written.
  pub dump_create_space_req-read :
      (m : LocalMata) (w : W)
      → IsWritable fs m.space_schema_file
      → is_empty (dump_create_space_req fs node_json space_json m w).0 ≡ true
      → (text : Str) × (space_json.print m.space_req ≡ some text)
        × (fs.read_file m.space_schema_file (dump_create_space_req fs node_json space_json m w).1
            ≡ some text)
  unfolding dump_create_space_req not_json no_space_file space_not_set codes
  dump_create_space_req-read m w good h = elim (Bool-cases (is_empty m.space_req.space.db_name)) [
    | inl e ↦ ground arith
    | inr e ↦ elim (Option-cases (space_json.print m.space_req)) [
      | inl p ↦ ground arith
      | inr (text, p) ↦ elim (Option-cases (fs.open_file m.space_schema_file w)) [
        | inl o ↦ ground arith
        | inr (w', o) ↦ (
          text,
          p,
          rw (e, p, o, dump_create_space_req)
              (fs.read-write m.space_schema_file text w w' o (good text w')),
        )
      ]
    ]
  ]

  -- A dump of the identity that is done wrote the converted identity, whose id is above zero.
  pub dump_node_info-read :
      (m : LocalMata) (w : W)
      → is_empty (dump_node_info fs node_json space_json m w).0 ≡ true
      → (is_positive m.ps_node_info.ps_id ≡ true)
        × ((text : Str) × (node_json.print m.ps_node_info ≡ some text)
            × ((w' : W) × (fs.open_file m.node_info_file w ≡ some w')
                × ((dump_node_info fs node_json space_json m w).1
                    ≡ (fs.write_file m.node_info_file text w').0)))
  unfolding dump_node_info not_json no_node_file id_not_set codes
  dump_node_info-read m w h = elim (Bool-cases (is_positive m.ps_node_info.ps_id)) [
    | inr e ↦ ground arith
    | inl e ↦ (
      e,
      elim (Option-cases (node_json.print m.ps_node_info)) [
        | inl p ↦ ground arith
        | inr (text, p) ↦ (
          text,
          p,
          elim (Option-cases (fs.open_file m.node_info_file w)) [
            | inl o ↦ ground arith
            | inr (w', o) ↦ (w', o, rw (e, p, o, dump_node_info) refl)
          ],
        )
      ],
    )
  ]

  pub init-loaded :
      (m : LocalMata) (dir t u : Str) (w : W) (info : PsNodeInfo) (req : CreateSpaceRequest)
      → fs.path_exists dir w ≡ true
      → fs.read_file (with_dir m dir).node_info_file w ≡ some t
      → node_json.parse t ≡ (info, true)
      → fs.read_file (with_dir m dir).space_schema_file w ≡ some u
      → space_json.parse u ≡ (req, true)
      → init fs node_json space_json m dir w ≡ (
        record (with_dir m dir) { ps_node_info = info; space_req = req; has_space = true },
        true,
        w,
      )
  unfolding init load load_space
  init-loaded m dir t u w info req there read parsed read_space parsed_space =
      rw (there, load, read, parsed, load_space, read_space, parsed_space, ap (λ p. p.0) parsed)
        refl

  pub init-no_file :
      (m : LocalMata) (dir t : Str) (w : W) (info : PsNodeInfo)
      → fs.path_exists dir w ≡ true
      → fs.read_file (with_dir m dir).node_info_file w ≡ some t
      → node_json.parse t ≡ (info, true)
      → fs.read_file (with_dir m dir).space_schema_file w ≡ none
      → init fs node_json space_json m dir w
        ≡ (record (with_dir m dir) { ps_node_info = info }, true, w)
  unfolding init load load_space
  init-no_file m dir t w info there read parsed gone =
      rw (there, load, read, parsed, load_space, gone, ap (λ p. p.0) parsed) refl
