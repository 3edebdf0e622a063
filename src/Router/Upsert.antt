-- ===== src/Router/Upsert.antt =====
-- service/router/space_manager.cc: `UpsertDocsToPs`, which finds the space before it writes. `msg` is the
-- text that the caller gives; what the call leaves in it is left out.
use sim_search.Prelude.{
  ℕ, List, [], ◌∷◌, ◌++◌, Option, none, some, if◌then◌else◌, is_empty, Str, str_key, codes,
}
use sim_search.Prelude.Assoc.{put}
use sim_search.Common.Messages.{Document}
use sim_search.External.Network.{Network}
use sim_search.Router.Hashing.{DocsGroup, PbDocInfo}
use sim_search.Router.Manager.{Router, get_space_conn}
use sim_search.Router.Rpc.Writes.{store_conn}
use sim_search.Router.Space
use sim_search.Router.Space.{SpaceConnection}

unfoldable pub space_not_exist : Str → Str
unfolding codes
space_not_exist space_key = codes "space_key:" ++ space_key ++ codes " is not exist"

-- `res_mp[key] = msg` for the documents of a group.
unfoldable pub put_infos : Str → List (Str × Str) → List PbDocInfo → List (Str × Str)
put_infos msg res_mp [] = res_mp
put_infos msg res_mp (info ∷ infos) = put_infos msg (put res_mp info.key msg) infos

unfoldable pub put_groups : Str → List (Str × Str) → List (ℕ × DocsGroup) → List (Str × Str)
unfolding put_infos
put_groups msg res_mp [] = res_mp
put_groups msg res_mp ((grp_idx, docs_grp) ∷ groups) =
    put_groups msg (put_infos msg res_mp docs_grp.pb_doc_infos) groups

module _ {W : Type 0} (hash : Str → ℕ) (net : Network W) (serialize : Document → Option Str) where
  unfoldable pub upsert_docs_to_ps :
      Router SpaceConnection W
      → Str
      → List (ℕ × DocsGroup)
      → Str
      → List (Str × Str) × Router SpaceConnection W
  unfolding get_space_conn put_groups space_not_exist Space.upsert_docs store_conn
  upsert_docs_to_ps r space_key docs_groups msg =
      let (space_conn, found_msg) = get_space_conn hash r space_key in
      let not_found = put_groups (space_not_exist space_key) [] docs_groups in
      elim space_conn [
        | none ↦ (not_found, r)
        | some conn ↦
            let (w, conn', err_mp) = Space.upsert_docs net serialize conn docs_groups [] r.world in
            if is_empty msg
            then (err_mp, store_conn hash net r space_key conn' w)
            else (not_found, r)
      ]
