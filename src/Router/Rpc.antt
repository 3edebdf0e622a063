-- ===== src/Router/Rpc.antt =====
-- service/router/router_rpc.cc: the handlers of the router's two services, which fill a response from
-- a request. A document that is moved out of `docs_res` is read once, since CheckPbIds lets no id come
-- twice.
pub mod Complete
pub mod Writes
use sim_search.Prelude.{
  ℕ, not, List, [], ◌∷◌, Option, none, some, if◌then◌else◌, is_empty, Str, str_key, codes,
}
use sim_search.Prelude.Assoc.{get?, has}
use sim_search.Common.Messages.{empty_document, Space, Document, DocStatus, RespStatus, GetResponse}
use sim_search.Common.Names.{gen_space_key}
use sim_search.Dto.Checks.{check_pb_doc, check_pb_ids}
use sim_search.External.Codec.{Codec}
use sim_search.External.FileSystem.{FileSystem}
use sim_search.External.Network.{Network}
use sim_search.Router.Hashing.{hash_keys}
use sim_search.Router.LocalSpaces
use sim_search.Router.Manager
use sim_search.Router.Manager.{Router}
use sim_search.Router.Space
use sim_search.Router.Space.{SpaceConnection, connector}

-- GetRequest and DeleteRequest.
pub record IdsRequest : Type 0 where
  pub db_name : Str
  pub space_name : Str
  pub ids : List Str

pub record UpsertRequest : Type 0 where
  pub db_name : Str
  pub space_name : Str
  pub documents : List Document

-- `add_same_msg` of the handlers.
unfoldable pub add_same_msg : List Str → Str → List DocStatus
add_same_msg [] msg = []
add_same_msg (key ∷ keys) msg = record { id = key; msg = msg } ∷ add_same_msg keys msg

unfoldable pub ids_of : List Document → List Str
ids_of [] = []
ids_of (doc ∷ docs) = doc.id ∷ ids_of docs

unfoldable pub no_result : Str
unfolding codes
no_result = codes "get doc fail, engine not has result."

unfoldable pub some_get_failed : Str
unfolding codes
some_get_failed = codes "There is some id that failed to get. failed ids :"

unfoldable pub some_delete_failed : Str
unfolding codes
some_delete_failed = codes "There is some id that failed to be deleted. failed ids :"

unfoldable pub upsert_failed : Str
unfolding codes
upsert_failed = codes "upsert exist fail, failed id:"

unfoldable pub format_error : Str
unfolding codes
format_error = codes "has doc format error"

unfoldable pub success : Str
unfolding codes
success = codes "success"

abbrev text_of : Option Str → Str
text_of none = []
text_of (some text) = text

abbrev document_of : Option Document → Document
document_of none = empty_document
document_of (some doc) = doc

abbrev pub status : Str → Str → RespStatus
status msg done =
    if is_empty msg then record { code = 0; msg = done } else record { code = 101; msg = msg }

-- The loop of `Get` over the ids: the documents and the failed ids of the response.
unfoldable pub answer_ids :
    List (Str × Str) → List (Str × Document) → List Str → List Document × List DocStatus
unfolding no_result
answer_ids err_ids docs_res [] = ([], [])
answer_ids err_ids docs_res (key ∷ keys) =
    let (docs, failed_docs) = answer_ids err_ids docs_res keys in
    if has err_ids key
    then (docs, record { id = key; msg = text_of (get? err_ids key) } ∷ failed_docs)
    else if has docs_res key
    then (document_of (get? docs_res key) ∷ docs, failed_docs)
    else (docs, record { id = key; msg = no_result } ∷ failed_docs)

-- The loops of `Upsert` and `Delete` over the ids.
unfoldable pub failed_ids : List (Str × Str) → List Str → List DocStatus
failed_ids err_ids [] = []
failed_ids err_ids (key ∷ keys) =
    let rest = failed_ids err_ids keys in
    if has err_ids key then record { id = key; msg = text_of (get? err_ids key) } ∷ rest else rest

-- The loop of `Upsert` that checks the documents: the message of the first that is refused.
unfoldable pub check_documents : Space → List Document → Str
unfolding check_pb_doc
check_documents space [] = []
check_documents space (doc ∷ docs) =
    let rest = check_documents space docs in
    if is_empty (check_pb_doc doc space) then rest else check_pb_doc doc space

module _ {W : Type 0} (hash : Str → ℕ) (fs : FileSystem W) (json : Codec (List Space))
    (net : Network W) where
  unfoldable pub add_space :
      Router SpaceConnection W → Space → RespStatus × Router SpaceConnection W
  unfolding Manager.add_space connector
  add_space r space =
      let (msg, r') = Manager.add_space hash fs json (connector net) r space in (status msg [], r')

  unfoldable pub delete_space :
      Router SpaceConnection W → Str → Str → RespStatus × Router SpaceConnection W
  unfolding Manager.delete_space LocalSpaces.delete_space LocalSpaces.save success
  delete_space r db_name space_name =
      let local' = (LocalSpaces.delete_space r.local db_name space_name).0 in
      let saved = record r {
        local = local';
        world = (LocalSpaces.save fs json local' r.world).1;
      } in
      let (msg, r') = Manager.delete_space hash saved (gen_space_key db_name space_name) in
      (status msg success, r')

-- `SpaceList` and `Search`, which send the response back as it came.
unfoldable pub space_list : List Space → List Space
space_list response = response

unfoldable pub search : {Response : Type 0} → Response → Response
search response = response

module _ {W : Type 0} (hash : Str → ℕ) (net : Network W) where
  -- `Get` from the connection that it found.
  unfoldable pub get_from : SpaceConnection → List Str → W → GetResponse × W
  unfolding hash_keys Space.get_docs answer_ids some_get_failed add_same_msg check_pb_ids
  get_from conn ids w =
      let msg = check_pb_ids ids conn.pb_space in
      let (w', err_ids, docs_res) =
        Space.get_docs net conn (hash_keys hash conn.pb_space.partition_num ids) [] [] w in
      let (docs, failed_docs) = answer_ids err_ids docs_res ids in
      if not (is_empty msg)
      then (record { code = 102; msg = msg; documents = []; failed_docs = add_same_msg ids msg }, w)
      else if not (is_empty err_ids)
      then (
        record { code = 103; msg = some_get_failed; documents = docs; failed_docs = failed_docs },
        w',
      )
      else (record { code = 0; msg = []; documents = docs; failed_docs = failed_docs }, w')

  unfoldable pub get :
      Router SpaceConnection W → IdsRequest → GetResponse × Router SpaceConnection W
  unfolding Manager.get_space_conn get_from
  get r req =
      let (space_conn, msg) =
        Manager.get_space_conn hash r (gen_space_key req.db_name req.space_name) in
      elim space_conn [
        | none ↦ (
          record { code = 101; msg = msg; documents = []; failed_docs = add_same_msg req.ids msg },
          r,
        )
        | some conn ↦
            let (resp, w) = get_from conn req.ids r.world in (resp, record r { world = w })
      ]
