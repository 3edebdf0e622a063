-- ===== src/Router/Partition/Stored.antt =====
-- service/router/partition_connection.cc, UpsertDocs, over a network whose acknowledged writes stay
-- stored: what is stored once the loop has ended.
use sim_search.Prelude.{
  ◌≡◌, ◌⊎◌, true, not, ◌||◌, List, [], ◌∷◌, Option, some, arith, Bool-cases, Option-cases, inl, inr,
  is_empty, All, Str, str_key,
}
use sim_search.Prelude.Assoc.{put, has}
use sim_search.Common.Messages.{Document, BlockRequest}
use sim_search.External.Network.{Network}
use sim_search.Raft.Client
use sim_search.Raft.Client.{RaftClient}
use sim_search.Raft.Client.Keeps.{Keeps, Stores, write-keeps, write-IsStored}
use sim_search.Router.Hashing.{PbDocInfo, DocsGroup}
use sim_search.Router.Partition.{
  PartitionConnetion, upsert_infos, upsert_docs, not_serialized, write_failed,
}
use sim_search.Router.Partition.Writes.{round_unserialized, round_written, reported}

module _ {W : Type 0} (serialize : Document → Option Str) (IsStored : Str → W → Type 0) where
  -- The document's key is in the map of errors, or its bytes are stored.
  abbrev pub IsSettled : List (Str × Str) → W → PbDocInfo → Type 0
  IsSettled err_docs w one =
      (has err_docs one.key ≡ true)
      ⊎ ((binary : Str) × (serialize one.pb_doc ≡ some binary) × IsStored binary w)

module _ {W : Type 0} (net : Network W) (serialize : Document → Option Str) where
  module _ (P : W → Type 0) (k : Keeps net P) where
    upsert_none :
        (req : BlockRequest) (client : RaftClient) (err_docs : List (Str × Str)) (w : W)
        → P w
        → P (upsert_infos net serialize req [] client err_docs w).0
    unfolding upsert_infos
    upsert_none req client err_docs w h = h

    upsert_infos-keeps_world :
        (req : BlockRequest) (infos : List PbDocInfo) (client : RaftClient)
        (err_docs : List (Str × Str)) (w : W)
        → P w
        → P (upsert_infos net serialize req infos client err_docs w).0
    upsert_infos-keeps_world req [] client err_docs w h = upsert_none req client err_docs w h
    upsert_infos-keeps_world req (one ∷ infos) client err_docs w h =
        elim (Option-cases (serialize one.pb_doc)) [
          | inl e ↦
              rw (round_unserialized net serialize req one infos client err_docs w e)
                (upsert_infos-keeps_world req infos client _ w h)
          | inr (binary, e) ↦
              let req' : BlockRequest = record req { key = one.key } in
              rw (round_written net serialize req one infos client err_docs w binary e) (
                upsert_infos-keeps_world req' infos _ _ _
                  (write-keeps net P k client req' binary w h))
        ]

    -- Whatever the network's calls keep, `UpsertDocs` keeps.
    pub upsert_docs-keeps :
        (p : PartitionConnetion) (docs_grp : DocsGroup) (w : W)
        → P w
        → P (upsert_docs net serialize p docs_grp w).0
    unfolding upsert_docs
    upsert_docs-keeps p docs_grp w h =
        upsert_infos-keeps_world _ docs_grp.pb_doc_infos p.raft_client [] w h

  module _ (IsStored : Str → W → Type 0) (s : Stores net IsStored) where
    -- So for each document, given the loop's result.
    unfoldable AreSettled : W × RaftClient × List (Str × Str) → List PbDocInfo → Type 0
    AreSettled r infos = All (IsSettled serialize IsStored r.2 r.0) infos

    none-AreSettled : (r : W × RaftClient × List (Str × Str)) → AreSettled r []
    unfolding AreSettled
    none-AreSettled r = tt

    cons-AreSettled :
        (r : W × RaftClient × List (Str × Str)) (one : PbDocInfo) (infos : List PbDocInfo)
        → IsSettled serialize IsStored r.2 r.0 one
        → AreSettled r infos
        → AreSettled r (one ∷ infos)
    unfolding AreSettled
    cons-AreSettled r one infos h rest = (h, rest)

    upsert_infos-AreSettled :
        (req : BlockRequest) (infos : List PbDocInfo) (client : RaftClient)
        (err_docs : List (Str × Str)) (w : W)
        → AreSettled (upsert_infos net serialize req infos client err_docs w) infos
    upsert_infos-AreSettled req [] client err_docs w = none-AreSettled _
    upsert_infos-AreSettled req (one ∷ infos) client err_docs w =
        elim (Option-cases (serialize one.pb_doc)) [
          | inl e ↦ rw (round_unserialized net serialize req one infos client err_docs w e) (
              cons-AreSettled _ one infos
                (inl (reported net serialize req infos client err_docs w one.key not_serialized))
                (upsert_infos-AreSettled req infos client (put err_docs one.key not_serialized) w))
          | inr (binary, e) ↦
              let req' : BlockRequest = record req { key = one.key } in
              let (one_msg, resp, client', w') = Client.write net client req' binary w in
              let msg = write_failed one_msg resp.msg in
              elim (Bool-cases (not (is_empty one_msg) || not resp.success)) [
                | inl f ↦
                    rw (round_written net serialize req one infos client err_docs w binary e, f)
                      (cons-AreSettled _ one infos
                        (inl (reported net serialize req' infos client' err_docs w' one.key msg))
                        (upsert_infos-AreSettled req' infos client' (put err_docs one.key msg) w'))
                | inr f ↦
                    let ok : resp.success ≡ true = ground (arith, f) in
                    let stored : IsStored binary w' =
                      write-IsStored net IsStored s client req' binary w ok in
                    rw (round_written net serialize req one infos client err_docs w binary e, f)
                      (cons-AreSettled _ one infos
                        (inr (
                          binary,
                          e,
                          upsert_infos-keeps_world (IsStored binary) (s.keeps binary) req' infos
                              client' err_docs w' stored,
                        ))
                        (upsert_infos-AreSettled req' infos client' err_docs w'))
              ]
        ]

    -- After `UpsertDocs` the key of each document of the group is in the map of errors, or its bytes are
    -- stored.
    pub upsert_docs-AreSettled :
        (p : PartitionConnetion) (docs_grp : DocsGroup) (w : W)
        → All
            (IsSettled serialize IsStored
              (upsert_docs net serialize p docs_grp w).2
              (upsert_docs net serialize p docs_grp w).0)
            docs_grp.pb_doc_infos
    unfolding upsert_docs AreSettled
    upsert_docs-AreSettled p docs_grp w =
        upsert_infos-AreSettled _ docs_grp.pb_doc_infos p.raft_client [] w
