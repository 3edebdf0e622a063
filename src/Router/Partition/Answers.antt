-- ===== src/Router/Partition/Answers.antt =====
-- service/router/partition_connection.cc, GetDocs: each key of the request gets one answer.
use sim_search.Prelude.{
  ℕ, zero, suc, ◌≡◌, refl, Bool, false, not, ◌&&◌, ◌||◌, List, [], ◌∷◌, Option, none, some, arith,
  Bool-cases, Option-cases, inl, inr, is_empty, get_or, Str, str_eq, str_eq_iff, str_key,
}
use sim_search.Prelude.Assoc.{get?, put, has, has-put, has-get?}
use sim_search.Common.Messages.{empty_document, Document, DocStatus, GetResponse}
use sim_search.Clients.PsRpc
use sim_search.Clients.PsRpc.{new_client, empty_response}
use sim_search.External.Network.{Network}
use sim_search.Router.Partition.{
  PartitionOpt, PartitionConnetion, add_err_msg, index_by, collect, read_response, next_replica,
  get_rounds, get_docs, get_failed, no_buffer, not_found, empty_status,
}

-- Whether a key is one of a request's.
unfoldable pub asks : List Str → Str → Bool
asks [] j = false
asks (key ∷ keys) j = str_eq key j || asks keys j

pub has-add_err_msg :
    (err_docs : List (Str × Str)) (keys : List Str) (msg j : Str)
    → has (add_err_msg err_docs keys msg) j ≡ (asks keys j || has err_docs j)
unfolding add_err_msg asks
has-add_err_msg err_docs [] msg j = refl
has-add_err_msg err_docs (key ∷ keys) msg j =
    ground (arith, has-add_err_msg (put err_docs key msg) keys msg j, has-put err_docs key msg j)

module _ (resp : GetResponse) (succ_idx failed_idx : List (Str × ℕ)) where
  -- A key with a document in the response gets it, and any other key gets an error.
  has-collect :
      (keys : List Str) (err_docs : List (Str × Str)) (docs_mp : List (Str × Document)) (j : Str)
      → (has (collect resp succ_idx failed_idx keys (err_docs, docs_mp)).0 j
          ≡ (has err_docs j || (asks keys j && not (has succ_idx j))))
        × (has (collect resp succ_idx failed_idx keys (err_docs, docs_mp)).1 j
            ≡ (has docs_mp j || (asks keys j && has succ_idx j)))
  unfolding collect asks
  has-collect [] err_docs docs_mp j = ground arith
  has-collect (key ∷ keys) err_docs docs_mp j = elim (Option-cases (get? succ_idx key)) [
    | inr (i, p) ↦
        let doc : Document = get_or resp.documents i empty_document in
        rw (p, collect)
          (ground (
            arith,
            p,
            has-collect keys err_docs (put docs_mp key doc) j,
            has-put docs_mp key doc j,
            has-get? succ_idx key,
            str_eq_iff key j,
          ))
    | inl p ↦ elim (Option-cases (get? failed_idx key)) [
      | inr (i, q) ↦
          let msg : Str = (get_or resp.failed_docs i empty_status).msg in
          rw (p, q, collect)
            (ground (
              arith,
              p,
              has-collect keys (put err_docs key msg) docs_mp j,
              has-put err_docs key msg j,
              has-get? succ_idx key,
              str_eq_iff key j,
            ))
      | inl q ↦
          rw (p, q, collect)
            (ground (
              arith,
              p,
              has-collect keys (put err_docs key not_found) docs_mp j,
              has-put err_docs key not_found j,
              has-get? succ_idx key,
              str_eq_iff key j,
            ))
    ]
  ]

-- What `GetDocs` gives a key: an error or a document exactly where the request asks for the key or
-- the caller had a document, and not both where the caller had none.
pub record IsAnswer (doc_keys : List Str) (docs_mp : List (Str × Document))
    (err_docs : List (Str × Str)) (docs : List (Str × Document)) (j : Str) : Type 0 where
  pub covered : (has err_docs j || has docs j) ≡ (asks doc_keys j || has docs_mp j)
  pub single : (not (has docs_mp j) && has err_docs j && has docs j) ≡ false

module _ {W : Type 0} (net : Network W) where
  read_response-IsAnswer :
      (resp : GetResponse) (doc_keys : List Str) (docs_mp : List (Str × Document)) (j : Str)
      → IsAnswer doc_keys docs_mp
          (read_response resp doc_keys docs_mp).0
          (read_response resp doc_keys docs_mp).1
          j
  unfolding read_response has
  read_response-IsAnswer resp doc_keys docs_mp j =
      let (e, d) =
        has-collect resp (index_by Document.id 0 resp.documents [])
          (index_by DocStatus.id 0 resp.failed_docs []) doc_keys [] docs_mp j in
      record { covered = rw (e, d) (ground arith); single = rw (e, d) (ground arith) }

  failed-IsAnswer :
      (doc_keys : List Str) (docs_mp : List (Str × Document)) (msg j : Str)
      → IsAnswer doc_keys docs_mp (add_err_msg [] doc_keys msg) docs_mp j
  unfolding has
  failed-IsAnswer doc_keys docs_mp msg j = record {
    covered = ground (arith, has-add_err_msg [] doc_keys msg j);
    single = ground arith;
  }

  get_rounds-IsAnswer :
      (rounds : ℕ) (opt : PartitionOpt) (last : Option ℕ) (one_msg : Str) (doc_keys : List Str)
      (docs_mp : List (Str × Document)) (w : W) (j : Str)
      → IsAnswer doc_keys docs_mp
          (get_rounds net rounds opt last one_msg doc_keys docs_mp w).1
          (get_rounds net rounds opt last one_msg doc_keys docs_mp w).2
          j
  unfolding get_rounds
  get_rounds-IsAnswer zero opt last one_msg doc_keys docs_mp w j =
      failed-IsAnswer doc_keys docs_mp (get_failed one_msg) j
  get_rounds-IsAnswer (suc rounds) opt last one_msg doc_keys docs_mp w j =
      let (w1, i) = next_replica net last opt.replicas_num w in
      let (w2, msg, resp) =
        PsRpc.get net (get_or opt.ps_list i new_client) doc_keys empty_response w1 in
      elim (Bool-cases (is_empty msg)) [
        | inl e ↦ rw (e, get_rounds) (read_response-IsAnswer resp doc_keys docs_mp j)
        | inr e ↦
            rw (e, get_rounds) (get_rounds-IsAnswer rounds opt (some i) msg doc_keys docs_mp w2 j)
      ]

  -- Whatever the replicas answer, `GetDocs` gives an error or a document to exactly the keys of the
  -- request, and those that the caller had documents for, and never both to a key that the caller had
  -- no document for.
  pub get_docs-IsAnswer :
      (p : PartitionConnetion) (doc_keys : List Str) (docs_mp : List (Str × Document)) (w : W)
      (j : Str)
      → IsAnswer doc_keys docs_mp
          (get_docs net p doc_keys docs_mp w).1
          (get_docs net p doc_keys docs_mp w).2
          j
  unfolding get_docs
  get_docs-IsAnswer p doc_keys docs_mp w j =
      elim (Option-cases (get_or p.partition_opt p.idx none)) [
        | inl e ↦ rw (e, get_docs) (failed-IsAnswer doc_keys docs_mp no_buffer j)
        | inr (opt, e) ↦ rw (e, get_docs) (get_rounds-IsAnswer 3 opt none [] doc_keys docs_mp w j)
      ]
