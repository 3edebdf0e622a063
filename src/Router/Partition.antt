-- ===== src/Router/Partition.antt =====
-- service/router/partition_connection.{h,cc}: the connections of the router to one partition, of which
-- there are two sets, `_idx` being the one in use. A partition has at most 127 replicas, the range of
-- the int8_t that counts them.
pub mod Answers
pub mod Writes
pub mod Stored
use sim_search.Prelude.{
  ℕ, zero, suc, ◌+◌, ◌-◌, ◌%◌, Bool, true, false, not, ◌||◌, List, [], ◌∷◌, ◌++◌, Option, none,
  some, if◌then◌else◌, ltb, is_empty, length, get_or, set, replicate, Str, str_key, codes,
  to_string,
}
use sim_search.Prelude.Assoc.{get?, put, has}
use sim_search.Common.Messages.{
  Partition, Replica, Document, empty_document, DocStatus, GetResponse, BlockRequest, BlockResponse,
  upsert, string,
}
use sim_search.Common.Names.{get_raft_conf}
use sim_search.Clients.PsRpc
use sim_search.Clients.PsRpc.{PsRpcClient, new_client, empty_response}
use sim_search.External.Network.{Network}
use sim_search.Raft.Client
use sim_search.Raft.Client.{RaftClient, cleared}
use sim_search.Router.Hashing.{PbDocInfo, DocsGroup}

pub record PartitionOpt : Type 0 where
  pub pb_partition : Partition
  pub ps_list : List PsRpcClient
  pub replicas_num : ℕ

pub record PartitionConnetion : Type 0 where
  pub partition_opt : List (Option PartitionOpt)
  pub idx : ℕ
  pub raft_client : RaftClient
  pub db_name : Str
  pub space_name : Str

unfoldable pub new_partition : Str → Str → PartitionConnetion
new_partition db_name space_name = record {
  partition_opt = [];
  idx = 0;
  raft_client = Client.new_client;
  db_name = db_name;
  space_name = space_name;
}

-- The constructor of `PartitionOpt`.
unfoldable pub new_opt : Partition → PartitionOpt
new_opt pb_partition = record {
  pb_partition = pb_partition;
  ps_list = replicate (length pb_partition.replicas) new_client;
  replicas_num = length pb_partition.replicas;
}

unfoldable pub no_replicas : Str → Str
unfolding codes
no_replicas group_name = codes "partition group_name:" ++ group_name ++ codes "replicas num is 0"

unfoldable pub replica_error : ℕ → Str → Str
unfolding codes to_string
replica_error i one_msg = codes "replica_id:" ++ to_string i ++ codes ", " ++ one_msg ++ codes "; "

unfoldable pub no_buffer : Str
unfolding codes
no_buffer = codes "***** two buffer partion_opt is null *****"

unfoldable pub not_found : Str
unfolding codes
not_found = codes "Key not found in response"

unfoldable pub get_failed : Str → Str
unfolding codes
get_failed one_msg = codes "GetDocs from Ps error, msg:" ++ one_msg

unfoldable pub not_serialized : Str
unfolding codes
not_serialized = codes "SerializeToString Document failed"

unfoldable pub write_failed : Str → Str → Str
unfolding codes
write_failed one_msg resp_msg = one_msg ++ codes ", ret_msg:" ++ resp_msg

-- `err_docs[key] = msg` for each key.
unfoldable pub add_err_msg : List (Str × Str) → List Str → Str → List (Str × Str)
add_err_msg err_docs [] msg = err_docs
add_err_msg err_docs (key ∷ keys) msg = add_err_msg (put err_docs key msg) keys msg

-- The positions by id, from position `i`; a later document replaces an earlier one with its id.
unfoldable pub index_by : {A : Type 0} → (A → Str) → ℕ → List A → List (Str × ℕ) → List (Str × ℕ)
index_by id_of i [] m = m
index_by id_of i (doc ∷ docs) m = index_by id_of (i + 1) docs (put m (id_of doc) i)

abbrev pub empty_status : DocStatus
empty_status = record { id = []; msg = [] }

-- The last loop over the keys of `GetDocs`.
unfoldable pub collect :
    GetResponse
    → List (Str × ℕ)
    → List (Str × ℕ)
    → List Str
    → List (Str × Str) × List (Str × Document)
    → List (Str × Str) × List (Str × Document)
collect resp succ_idx failed_idx [] (err_docs, docs_mp) = (err_docs, docs_mp)
collect resp succ_idx failed_idx (key ∷ keys) (err_docs, docs_mp) =
    collect resp succ_idx failed_idx keys (elim (get? succ_idx key) [
      | some i ↦ (err_docs, put docs_mp key (get_or resp.documents i empty_document))
      | none ↦ elim (get? failed_idx key) [
        | some i ↦ (put err_docs key (get_or resp.failed_docs i empty_status).msg, docs_mp)
        | none ↦ (put err_docs key not_found, docs_mp)
      ]
    ])

unfoldable pub read_response :
    GetResponse → List Str → List (Str × Document) → List (Str × Str) × List (Str × Document)
unfolding index_by collect
read_response resp doc_keys docs_mp =
    collect resp (index_by Document.id 0 resp.documents [])
      (index_by DocStatus.id 0 resp.failed_docs []) doc_keys ([], docs_mp)

module _ {W : Type 0} (net : Network W) where
  -- The loop of `PartitionOpt::Init`, from replica `i`.
  unfoldable pub init_replicas :
      List Replica → ℕ → List PsRpcClient → Str → W → W × List PsRpcClient × Str
  unfolding codes to_string
  init_replicas [] i ps_list msg w = (w, ps_list, msg)
  init_replicas (rep ∷ replicas) i ps_list msg w =
      let addr_port = rep.ps_ip ++ codes ":" ++ to_string rep.ps_port in
      let (w', client, one_msg) = PsRpc.init net (get_or ps_list i new_client) addr_port w in
      init_replicas replicas (i + 1) (set ps_list i client)
        (if is_empty one_msg then msg else msg ++ replica_error i one_msg) w'

  unfoldable pub init_opt : PartitionOpt → W → W × PartitionOpt × Str
  unfolding init_replicas
  init_opt opt w =
      let (w', ps_list, msg) = init_replicas opt.pb_partition.replicas 0 opt.ps_list [] w in
      (w', record opt { ps_list = ps_list }, msg)

  unfoldable pub get_replica_idx : ℕ → W → W × ℕ
  get_replica_idx replicas_num w =
      let (w', r) = net.random 1 (if ltb replicas_num 1 then 1 else replicas_num) w in (w', r - 1)

  unfoldable pub init : PartitionConnetion → Partition → W → W × PartitionConnetion × Str
  unfolding new_opt init_opt
  init p pb_partition w =
      let (w1, opt1, msg1) = init_opt (new_opt pb_partition) w in
      let (w2, opt2, msg2) = init_opt (new_opt pb_partition) w1 in
      let (w3, client, msg) =
        Client.init net p.raft_client pb_partition.group_name (get_raft_conf pb_partition) w2 in
      if is_empty pb_partition.replicas
      then (w, record p { partition_opt = none ∷ none ∷ [] }, no_replicas pb_partition.group_name)
      else (
        w3,
        record p { partition_opt = some opt1 ∷ some opt2 ∷ []; idx = 0; raft_client = client },
        msg,
      )

  -- The replica of a round: a random one in the first, and then the next one.
  unfoldable pub next_replica : Option ℕ → ℕ → W → W × ℕ
  unfolding get_replica_idx
  next_replica none replicas_num w = get_replica_idx replicas_num w
  next_replica (some i) replicas_num w = (w, (i + 1) % replicas_num)

  -- The rounds of `GetDocs`; `one_msg` is the message of the last one.
  unfoldable pub get_rounds :
      ℕ
      → PartitionOpt
      → Option ℕ
      → Str
      → List Str
      → List (Str × Document)
      → W
      → W × List (Str × Str) × List (Str × Document)
  unfolding next_replica read_response add_err_msg
  get_rounds zero opt last one_msg doc_keys docs_mp w =
      (w, add_err_msg [] doc_keys (get_failed one_msg), docs_mp)
  get_rounds (suc rounds) opt last one_msg doc_keys docs_mp w =
      let (w1, i) = next_replica last opt.replicas_num w in
      let (w2, msg, resp) =
        PsRpc.get net (get_or opt.ps_list i new_client) doc_keys empty_response w1 in
      elim (is_empty msg) [
        | true ↦ let (err_docs, docs) = read_response resp doc_keys docs_mp in (w2, err_docs, docs)
        | false ↦ get_rounds rounds opt (some i) msg doc_keys docs_mp w2
      ]

  unfoldable pub get_docs :
      PartitionConnetion
      → List Str
      → List (Str × Document)
      → W
      → W × List (Str × Str) × List (Str × Document)
  unfolding get_rounds
  get_docs p doc_keys docs_mp w = elim (get_or p.partition_opt p.idx none) [
    | none ↦ (w, add_err_msg [] doc_keys no_buffer, docs_mp)
    | some opt ↦ get_rounds 3 opt none [] doc_keys docs_mp w
  ]

  unfoldable pub update_ps_conn : PartitionConnetion → Partition → W → W × PartitionConnetion × Str
  unfolding new_opt init_opt
  update_ps_conn p pb_partition w =
      let new_ps_idx = (p.idx + 1) % 2 in
      let (w', opt, msg) = init_opt (new_opt pb_partition) w in
      if is_empty pb_partition.replicas
      then (w, p, no_replicas pb_partition.group_name)
      else if is_empty msg
      then (
        w',
        record p { partition_opt = set p.partition_opt new_ps_idx (some opt); idx = new_ps_idx },
        msg,
      )
      else (w', p, msg)

  -- `DeleteDocs`, whose loop does nothing yet.
  unfoldable pub delete_docs : PartitionConnetion → List Str → Str → List (Str × Str)
  delete_docs p doc_keys msg = []

  module _ (serialize : Document → Option Str) where
    -- The loop of `UpsertDocs`.
    unfoldable pub upsert_infos :
        BlockRequest
        → List PbDocInfo
        → RaftClient
        → List (Str × Str)
        → W
        → W × RaftClient × List (Str × Str)
    upsert_infos req [] client err_docs w = (w, client, err_docs)
    upsert_infos req (one ∷ infos) client err_docs w = elim (serialize one.pb_doc) [
      | none ↦ upsert_infos req infos client (put err_docs one.key not_serialized) w
      | some binary ↦
          let req' = record req { key = one.key } in
          let (one_msg, resp, client', w') = Client.write net client req' binary w in
          let err_docs' =
            if not (is_empty one_msg) || not resp.success
            then put err_docs one.key (write_failed one_msg resp.msg)
            else err_docs in
          upsert_infos req' infos client' err_docs' w'
    ]

    unfoldable pub upsert_docs :
        PartitionConnetion → DocsGroup → W → W × PartitionConnetion × List (Str × Str)
    unfolding upsert_infos
    upsert_docs p docs_grp w =
        let req : BlockRequest = record {
          db_name = p.db_name;
          space_name = p.space_name;
          impl_type = upsert;
          key_type = string;
          key = [];
        } in
        let (w', client, err_docs) = upsert_infos req docs_grp.pb_doc_infos p.raft_client [] w in
        (w', record p { raft_client = client }, err_docs)
