-- ===== src/Router/Rpc/Writes.antt =====
-- service/router/router_rpc.cc: the handlers Upsert and Delete.
use sim_search.Prelude.{
  ℕ, not, List, [], Option, none, some, if◌then◌else◌, is_empty, length, set, replicate, Str,
  str_key,
}
use sim_search.Prelude.Int.{to_index}
use sim_search.Utils.IndexMap
use sim_search.Common.Messages.{Document, WriteResponse}
use sim_search.Common.Names.{gen_space_key}
use sim_search.Dto.Checks.{check_pb_ids}
use sim_search.External.Network.{Network}
use sim_search.Router.Hashing.{hash_keys, hash_docs}
use sim_search.Router.Manager
use sim_search.Router.Manager.{Router}
use sim_search.Router.Space
use sim_search.Router.Space.{SpaceConnection, connector}
use sim_search.Router.Rpc.{
  IdsRequest, UpsertRequest, add_same_msg, ids_of, some_delete_failed, upsert_failed, format_error,
  failed_ids, check_documents,
}

module _ {W : Type 0} (hash : Str → ℕ) (net : Network W) where
  unfoldable pub delete :
      Router SpaceConnection W → IdsRequest → WriteResponse × Router SpaceConnection W
  unfolding Manager.get_space_conn hash_keys Space.delete_docs failed_ids some_delete_failed
      add_same_msg check_pb_ids
  delete r req =
      let (space_conn, msg) =
        Manager.get_space_conn hash r (gen_space_key req.db_name req.space_name) in
      elim space_conn [
        | none ↦ (record { code = 101; msg = msg; failed_docs = add_same_msg req.ids msg }, r)
        | some conn ↦
            let bad = check_pb_ids req.ids conn.pb_space in
            let err_ids =
              Space.delete_docs net conn (hash_keys hash conn.pb_space.partition_num req.ids) bad
                [] in
            if not (is_empty bad)
            then (record { code = 102; msg = bad; failed_docs = add_same_msg req.ids bad }, r)
            else if not (is_empty err_ids)
            then (
              record {
                code = 103;
                msg = some_delete_failed;
                failed_docs = failed_ids err_ids req.ids;
              },
              r,
            )
            else (record { code = 0; msg = []; failed_docs = failed_ids err_ids req.ids }, r)
      ]

  -- The connection is shared with the manager, which sees what its writes left in it.
  unfoldable pub store_conn :
      Router SpaceConnection W → Str → SpaceConnection → W → Router SpaceConnection W
  unfolding IndexMap.get
  store_conn r key conn w = record r {
    manager = record r.manager {
      spaces_conn = set r.spaces_conn (to_index (IndexMap.get hash r.space_idx_mp key)) (some conn);
    };
    world = w;
  }

  module _ (serialize : Document → Option Str) where
    -- `doc_keys` has a place for each document, and all of them stay empty.
    unfoldable pub upsert :
        Router SpaceConnection W → UpsertRequest → WriteResponse × Router SpaceConnection W
    unfolding Manager.get_space_conn hash_docs Space.upsert_docs failed_ids upsert_failed
        format_error add_same_msg ids_of check_documents store_conn
    upsert r req =
        let space_key = gen_space_key req.db_name req.space_name in
        let (space_conn, msg) = Manager.get_space_conn hash r space_key in
        let doc_keys : List Str = replicate (length req.documents) [] in
        elim space_conn [
          | none ↦ (
            record { code = 101; msg = msg; failed_docs = add_same_msg (ids_of req.documents) msg },
            r,
          )
          | some conn ↦
              let bad = check_documents conn.pb_space req.documents in
              let docs_grps = hash_docs hash conn.pb_space.partition_num req.documents doc_keys in
              let (w, conn', err_mp) = Space.upsert_docs net serialize conn docs_grps [] r.world in
              let r' = store_conn r space_key conn' w in
              if not (is_empty bad)
              then (
                record {
                  code = 102;
                  msg = bad;
                  failed_docs = add_same_msg (ids_of req.documents) format_error;
                },
                r,
              )
              else if not (is_empty doc_keys)
              then (
                record {
                  code = 103;
                  msg = upsert_failed;
                  failed_docs = failed_ids err_mp doc_keys;
                },
                r',
              )
              else (record { code = 0; msg = []; failed_docs = failed_ids err_mp doc_keys }, r')
        ]
