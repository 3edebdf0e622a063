-- ===== src/Router/Space/Stored.antt =====
-- service/router/space_connection.cc, UpsertDocs over the groups of documents: what is stored once each
-- partition has had its group.
use sim_search.Prelude.{
  ℕ, ◌≡◌, true, List, [], ◌∷◌, Option, arith, inl, inr, All, Str, str_key, set,
}
use sim_search.Prelude.Assoc.{has}
use sim_search.Common.Messages.{Document}
use sim_search.External.Network.{Network}
use sim_search.Raft.Client.Keeps.{Keeps, Stores}
use sim_search.Router.Hashing.{PbDocInfo, DocsGroup}
use sim_search.Router.Partition
use sim_search.Router.Partition.Stored.{IsSettled, upsert_docs-keeps, upsert_docs-AreSettled}
use sim_search.Router.Space.{SpaceConnection, put_all, partition_at, upsert_docs}
use sim_search.Router.Space.Answers.{has-put_all}

module _ {W : Type 0} (net : Network W) (serialize : Document → Option Str) where
  -- Whatever the network's calls keep, `UpsertDocs` keeps.
  pub keeps_world :
      (P : W → Type 0) (k : Keeps net P) (conn : SpaceConnection) (groups : List (ℕ × DocsGroup))
      (err_mp : List (Str × Str)) (w : W)
      → P w
      → P (upsert_docs net serialize conn groups err_mp w).0
  unfolding upsert_docs
  keeps_world P k conn [] err_mp w h = h
  keeps_world P k conn ((idx, docs_grp) ∷ groups) err_mp w h =
      let (w', p, one_grp_res) =
        Partition.upsert_docs net serialize (partition_at conn idx) docs_grp w in
      let conn' : SpaceConnection = record conn {
        partition_list = set conn.partition_list idx p;
      } in
      keeps_world P k conn' groups (put_all err_mp one_grp_res) w'
        (upsert_docs-keeps net serialize P k (partition_at conn idx) docs_grp w h)

  keeps_errors :
      (conn : SpaceConnection) (groups : List (ℕ × DocsGroup)) (err_mp : List (Str × Str)) (w : W)
      (j : Str)
      → has err_mp j ≡ true
      → has (upsert_docs net serialize conn groups err_mp w).2 j ≡ true
  unfolding upsert_docs
  keeps_errors conn [] err_mp w j h = h
  keeps_errors conn ((idx, docs_grp) ∷ groups) err_mp w j h =
      let (w', p, one_grp_res) =
        Partition.upsert_docs net serialize (partition_at conn idx) docs_grp w in
      let conn' : SpaceConnection = record conn {
        partition_list = set conn.partition_list idx p;
      } in
      keeps_errors conn' groups (put_all err_mp one_grp_res) w' j
        (ground (arith, h, has-put_all err_mp one_grp_res j))

  module _ (IsStored : Str → W → Type 0) (s : Stores net IsStored) where
    keeps-IsSettled :
        (conn : SpaceConnection) (groups : List (ℕ × DocsGroup)) (err_mp : List (Str × Str)) (w : W)
        (one : PbDocInfo)
        → IsSettled serialize IsStored err_mp w one
        → IsSettled serialize IsStored
            (upsert_docs net serialize conn groups err_mp w).2
            (upsert_docs net serialize conn groups err_mp w).0
            one
    keeps-IsSettled conn groups err_mp w one (inl h) =
        inl (keeps_errors conn groups err_mp w one.key h)
    keeps-IsSettled conn groups err_mp w one (inr (binary, e, h)) =
        inr (binary, e, keeps_world (IsStored binary) (s.keeps binary) conn groups err_mp w h)

    joins-IsSettled :
        (err_mp one_grp_res : List (Str × Str)) (w : W) (one : PbDocInfo)
        → IsSettled serialize IsStored one_grp_res w one
        → IsSettled serialize IsStored (put_all err_mp one_grp_res) w one
    joins-IsSettled err_mp one_grp_res w one (inl h) =
        inl (ground (arith, h, has-put_all err_mp one_grp_res one.key))
    joins-IsSettled err_mp one_grp_res w one (inr h) = inr h

    AreSettled-rest :
        (conn : SpaceConnection) (groups : List (ℕ × DocsGroup))
        (err_mp one_grp_res : List (Str × Str)) (w : W) (infos : List PbDocInfo)
        → All (IsSettled serialize IsStored one_grp_res w) infos
        → All
            (IsSettled serialize IsStored
              (upsert_docs net serialize conn groups (put_all err_mp one_grp_res) w).2
              (upsert_docs net serialize conn groups (put_all err_mp one_grp_res) w).0)
            infos
    AreSettled-rest conn groups err_mp one_grp_res w [] h = tt
    AreSettled-rest conn groups err_mp one_grp_res w (one ∷ infos) (h, hs) = (
      keeps-IsSettled conn groups (put_all err_mp one_grp_res) w one
          (joins-IsSettled err_mp one_grp_res w one h),
      AreSettled-rest conn groups err_mp one_grp_res w infos hs,
    )

    -- After `UpsertDocs` of a space the key of each document of each group is in the map of errors, or
    -- its bytes are stored.
    pub upsert_docs-AllSettled :
        (conn : SpaceConnection) (groups : List (ℕ × DocsGroup)) (err_mp : List (Str × Str)) (w : W)
        → All
            (λ g.
              All
                (IsSettled serialize IsStored
                  (upsert_docs net serialize conn groups err_mp w).2
                  (upsert_docs net serialize conn groups err_mp w).0)
                g.1.pb_doc_infos)
            groups
    unfolding upsert_docs
    upsert_docs-AllSettled conn [] err_mp w = tt
    upsert_docs-AllSettled conn ((idx, docs_grp) ∷ groups) err_mp w =
        let (w', p, one_grp_res) =
          Partition.upsert_docs net serialize (partition_at conn idx) docs_grp w in
        let conn' : SpaceConnection = record conn {
          partition_list = set conn.partition_list idx p;
        } in
        (
          AreSettled-rest conn' groups err_mp one_grp_res w' docs_grp.pb_doc_infos
              (upsert_docs-AreSettled net serialize IsStored s (partition_at conn idx) docs_grp w),
          upsert_docs-AllSettled conn' groups (put_all err_mp one_grp_res) w',
        )
