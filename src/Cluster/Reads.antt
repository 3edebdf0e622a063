-- ===== src/Cluster/Reads.antt =====
-- service/router/partition_connection.cc, GetDocs, against service/ps/ps_rpc.cc, Get: the router's reads from
-- partition servers as they are.
use sim_search.Prelude.{
  ℕ, zero, suc, ◌≡◌, refl, ap, ◌∙◌, ◌⊎◌, List, [], ◌∷◌, Option, none, some, Bool-cases,
  Option-cases, inl, inr, is_empty, get_or, Str, str_key,
}
use sim_search.Prelude.Assoc.{get?}
use sim_search.Common.Messages.{Document, GetResponse}
use sim_search.External.Network.{Network, failed, reply}
use sim_search.Clients.PsRpc
use sim_search.Clients.PsRpc.{PsRpcClient, new_client, empty_response, no_stub, query_ps_rpc_imp}
use sim_search.Ps.Rpc
use sim_search.Router.Partition.{
  PartitionConnetion, PartitionOpt, collect, read_response, index_by, next_replica, get_rounds,
  get_docs,
}

collect-nothing :
    (doc_keys : List Str) (resp : GetResponse) (err_docs : List (Str × Str))
    (docs_mp : List (Str × Document))
    → (collect resp [] [] doc_keys (err_docs, docs_mp)).1 ≡ docs_mp
unfolding collect get?
collect-nothing [] resp err_docs docs_mp = refl
collect-nothing (key ∷ doc_keys) resp err_docs docs_mp = collect-nothing doc_keys resp _ docs_mp

read_response-nothing :
    (doc_keys : List Str) (docs_mp : List (Str × Document))
    → (read_response (Rpc.get doc_keys empty_response) doc_keys docs_mp).1 ≡ docs_mp
unfolding read_response index_by Rpc.get
read_response-nothing doc_keys docs_mp = collect-nothing doc_keys empty_response [] docs_mp

module _ {W : Type 0} (net : Network W) where
  -- Each call fails, or is answered by the handler of a partition server.
  abbrev pub AnswersAsServed : Type 0
  AnswersAsServed =
      (addr : Str) (keys : List Str) (w : W)
      → ((error : Str) × ((net.ps_get addr keys w).1 ≡ failed error))
        ⊎ ((net.ps_get addr keys w).1 ≡ reply (Rpc.get keys empty_response))

  get-empty :
      (c : PsRpcClient) (keys : List Str) (w : W)
      → AnswersAsServed
      → (PsRpc.get net c keys empty_response w).2 ≡ empty_response
  unfolding PsRpc.get query_ps_rpc_imp Rpc.get
  get-empty c keys w served = elim (Bool-cases c.stub) [
    | inr p ↦ rw (p, PsRpc.get) refl
    | inl p ↦ elim (served c.addr_port keys w) [
      | inl (error, e) ↦ rw (p, e, PsRpc.get, query_ps_rpc_imp) refl
      | inr e ↦ rw (p, e, PsRpc.get, query_ps_rpc_imp) refl
    ]
  ]

  get_rounds-nothing :
      (rounds : ℕ) (opt : PartitionOpt) (last : Option ℕ) (one_msg : Str) (doc_keys : List Str)
      (docs_mp : List (Str × Document)) (w : W)
      → AnswersAsServed
      → (get_rounds net rounds opt last one_msg doc_keys docs_mp w).2 ≡ docs_mp
  unfolding get_rounds Rpc.get
  get_rounds-nothing zero opt last one_msg doc_keys docs_mp w served = refl
  get_rounds-nothing (suc rounds) opt last one_msg doc_keys docs_mp w served =
      let (w1, i) = next_replica net last opt.replicas_num w in
      let client : PsRpcClient = get_or opt.ps_list i new_client in
      let (w2, msg, resp) = PsRpc.get net client doc_keys empty_response w1 in
      elim (Bool-cases (is_empty msg)) [
        | inl p ↦
            rw (p, get_rounds)
              (ap (λ r. (read_response r doc_keys docs_mp).1) (get-empty client doc_keys w1 served)
                ∙ read_response-nothing doc_keys docs_mp)
        | inr p ↦
            rw (p, get_rounds)
              (get_rounds-nothing rounds opt (some i) msg doc_keys docs_mp w2 served)
      ]

  -- If each call of Get fails or is answered by the handler of a partition server, then GetDocs finds no
  -- document, since that handler fills nothing.
  pub get_docs-nothing :
      (p : PartitionConnetion) (doc_keys : List Str) (docs_mp : List (Str × Document)) (w : W)
      → AnswersAsServed
      → (get_docs net p doc_keys docs_mp w).2 ≡ docs_mp
  unfolding get_docs
  get_docs-nothing p doc_keys docs_mp w served =
      elim (Option-cases (get_or p.partition_opt p.idx none)) [
        | inl e ↦ rw (e, get_docs) refl
        | inr (opt, e) ↦
            rw (e, get_docs) (get_rounds-nothing 3 opt none [] doc_keys docs_mp w served)
      ]
