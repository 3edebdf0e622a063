-- ===== src/Router/Partition/Writes.antt =====
-- service/router/partition_connection.cc, UpsertDocs: the documents with no error were acknowledged.
use sim_search.Prelude.{
  ◌≡◌, refl, ◌⊎◌, true, not, ◌||◌, List, [], ◌∷◌, Option, none, some, arith, Bool-cases,
  Option-cases, inl, inr, if◌then◌else◌, is_empty, Str, str_eq_iff, str_key,
}
use sim_search.Prelude.Assoc.{put, has, has-put}
use sim_search.Common.Messages.{Document, BlockRequest, BlockResponse}
use sim_search.External.Network.{Network}
use sim_search.Raft.Client
use sim_search.Raft.Client.{RaftClient}
use sim_search.Raft.Client.Acknowledged.{WasAcknowledged, write-WasAcknowledged}
use sim_search.Router.Hashing.{PbDocInfo, DocsGroup}
use sim_search.Router.Partition.{
  PartitionConnetion, upsert_infos, upsert_docs, not_serialized, write_failed,
}

module _ {W : Type 0} (net : Network W) (serialize : Document → Option Str) where
  -- Some leader acknowledged a request with the document's key and the document's bytes.
  abbrev pub IsStored : PbDocInfo → Type 0
  IsStored one =
      (binary : Str) × (req : BlockRequest) × (resp : BlockResponse) × (serialize one.pb_doc
        ≡ some binary)
      × (req.key ≡ one.key)
      × WasAcknowledged net req binary resp

  -- Each document is stored, or its key is in the map of errors.
  unfoldable pub StoredOrReported : List (Str × Str) → List PbDocInfo → Type 0
  StoredOrReported err_docs [] = Unit
  StoredOrReported err_docs (one ∷ infos) =
      ((has err_docs one.key ≡ true) ⊎ IsStored one) × StoredOrReported err_docs infos

  -- A key that is in the map stays in it.
  upsert_infos-keeps :
      (req : BlockRequest) (infos : List PbDocInfo) (client : RaftClient)
      (err_docs : List (Str × Str)) (w : W) (j : Str)
      → has err_docs j ≡ true
      → has (upsert_infos net serialize req infos client err_docs w).2 j ≡ true
  unfolding upsert_infos
  upsert_infos-keeps req [] client err_docs w j h = h
  upsert_infos-keeps req (one ∷ infos) client err_docs w j h =
      elim (Option-cases (serialize one.pb_doc)) [
        | inl e ↦
            rw (e, upsert_infos)
              (upsert_infos-keeps req infos client (put err_docs one.key not_serialized) w j
                (ground (arith, h, has-put err_docs one.key not_serialized j)))
        | inr (binary, e) ↦
            let req' : BlockRequest = record req { key = one.key } in
            let (one_msg, resp, client', w') = Client.write net client req' binary w in
            elim (Bool-cases (not (is_empty one_msg) || not resp.success)) [
              | inl f ↦
                  rw (e, f, upsert_infos)
                    (upsert_infos-keeps req' infos client'
                      (put err_docs one.key (write_failed one_msg resp.msg)) w' j
                      (ground
                        (arith, h, has-put err_docs one.key (write_failed one_msg resp.msg) j)))
              | inr f ↦
                  rw (e, f, upsert_infos) (upsert_infos-keeps req' infos client' err_docs w' j h)
            ]
      ]

  -- One round of the loop, by its outcome.
  pub round_unserialized :
      (req : BlockRequest) (one : PbDocInfo) (infos : List PbDocInfo) (client : RaftClient)
      (err_docs : List (Str × Str)) (w : W)
      → serialize one.pb_doc ≡ none
      → upsert_infos net serialize req (one ∷ infos) client err_docs w
        ≡ upsert_infos net serialize req infos client (put err_docs one.key not_serialized) w
  unfolding upsert_infos
  round_unserialized req one infos client err_docs w e = rw (e, upsert_infos)

  pub round_written :
      (req : BlockRequest) (one : PbDocInfo) (infos : List PbDocInfo) (client : RaftClient)
      (err_docs : List (Str × Str)) (w : W) (binary : Str)
      → serialize one.pb_doc ≡ some binary
      → upsert_infos net serialize req (one ∷ infos) client err_docs w ≡ (
          let req' : BlockRequest = record req { key = one.key } in
          let (one_msg, resp, client', w') = Client.write net client req' binary w in
          upsert_infos net serialize req' infos client'
            (if not (is_empty one_msg) || not resp.success
              then put err_docs one.key (write_failed one_msg resp.msg)
              else err_docs)
            w')
  unfolding upsert_infos
  round_written req one infos client err_docs w binary e = rw (e, upsert_infos)

  -- The new error stays to the end.
  pub reported :
      (req : BlockRequest) (infos : List PbDocInfo) (client : RaftClient)
      (err_docs : List (Str × Str)) (w : W) (key msg : Str)
      → has (upsert_infos net serialize req infos client (put err_docs key msg) w).2 key ≡ true
  reported req infos client err_docs w key msg =
      upsert_infos-keeps req infos client (put err_docs key msg) w key
        (ground (arith, has-put err_docs key msg key, str_eq_iff key key))

  none-StoredOrReported : (err_docs : List (Str × Str)) → StoredOrReported err_docs []
  unfolding StoredOrReported
  none-StoredOrReported err_docs = tt

  cons-StoredOrReported :
      (err_docs : List (Str × Str)) (one : PbDocInfo) (infos : List PbDocInfo)
      → (has err_docs one.key ≡ true) ⊎ IsStored one
      → StoredOrReported err_docs infos
      → StoredOrReported err_docs (one ∷ infos)
  unfolding StoredOrReported
  cons-StoredOrReported err_docs one infos h rest = (h, rest)

  upsert_infos-StoredOrReported :
      (req : BlockRequest) (infos : List PbDocInfo) (client : RaftClient)
      (err_docs : List (Str × Str)) (w : W)
      → StoredOrReported (upsert_infos net serialize req infos client err_docs w).2 infos
  upsert_infos-StoredOrReported req [] client err_docs w = none-StoredOrReported _
  upsert_infos-StoredOrReported req (one ∷ infos) client err_docs w =
      elim (Option-cases (serialize one.pb_doc)) [
        | inl e ↦ rw (round_unserialized req one infos client err_docs w e) (
            cons-StoredOrReported _ one infos
              (inl (reported req infos client err_docs w one.key not_serialized))
              (upsert_infos-StoredOrReported req infos client (put err_docs one.key not_serialized)
                w))
        | inr (binary, e) ↦
            let req' : BlockRequest = record req { key = one.key } in
            let (one_msg, resp, client', w') = Client.write net client req' binary w in
            elim (Bool-cases (not (is_empty one_msg) || not resp.success)) [
              | inl f ↦
                  rw (round_written req one infos client err_docs w binary e, f)
                    (cons-StoredOrReported _ one infos
                      (inl (
                        reported req' infos client' err_docs w' one.key
                          (write_failed one_msg resp.msg)))
                      (upsert_infos-StoredOrReported req' infos client'
                        (put err_docs one.key (write_failed one_msg resp.msg)) w'))
              | inr f ↦
                  rw (round_written req one infos client err_docs w binary e, f)
                    (cons-StoredOrReported _ one infos
                      (inr (
                        binary,
                        req',
                        resp,
                        e,
                        refl,
                        (write-WasAcknowledged net client req' binary w (ground (arith, f))).1,
                      ))
                      (upsert_infos-StoredOrReported req' infos client' err_docs w'))
            ]
      ]

  -- After `UpsertDocs` each document of the group has its key in the map of errors, or its bytes were
  -- acknowledged under its key by a leader.
  pub upsert_docs-StoredOrReported :
      (p : PartitionConnetion) (docs_grp : DocsGroup) (w : W)
      → StoredOrReported (upsert_docs net serialize p docs_grp w).2 docs_grp.pb_doc_infos
  unfolding upsert_docs
  upsert_docs-StoredOrReported p docs_grp w =
      upsert_infos-StoredOrReported _ docs_grp.pb_doc_infos p.raft_client [] w
