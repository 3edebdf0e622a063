-- ===== src/Raft/Block.antt =====
-- raft_store/raft_store.{h,cc}: the state machine of one raft group, and the manager of the one that a
-- partition server runs. braft calls the methods `on_…`; those that only log are left out.
pub mod Log
pub mod Apply
pub mod Replicas
pub mod Leader
pub mod Snapshot
pub mod Disk
use sim_search.Prelude.{
  ℕ, zero, suc, ◌+◌, Bool, true, false, not, List, [], ◌∷◌, ◌++◌, Option, none, some, if◌then◌else◌,
  ltb, is_empty, Str, codes, to_string,
}
use sim_search.Prelude.Int.{ℤ, pos, negsuc, is_negative}
use sim_search.Common.Messages.{Space, empty_space, Document, BlockRequest, BlockResponse}
use sim_search.Dto.Gamma.{gamma_doc_to_pb_doc}
use sim_search.External.Braft.{Braft, NodeOptions}
use sim_search.External.Codec.{Codec}
use sim_search.External.Gamma.{Gamma}
use Log.{frame}

pub record Block : Type 0 where
  pub node : Option NodeOptions
  pub leader_term : ℤ
  pub fd : Option ℕ
  pub root_path : Str
  pub group : Str
  pub conf : Str
  pub port : ℕ
  pub check_term : Bool
  pub space : Space

unfoldable pub new_block : Block
new_block = record {
  node = none;
  leader_term = negsuc 0;
  fd = none;
  root_path = [];
  group = [];
  conf = [];
  port = 0;
  check_term = false;
  space = empty_space;
}

-- What a write leaves with the task that it hands to the group.
pub record BlockClosure : Type 0 where
  pub request : BlockRequest
  pub response : BlockResponse
  pub data_text : Str

pub record Task : Type 0 where
  pub log : Str
  pub expected_term : Option ℤ
  pub done : BlockClosure

abbrev pub with_success : BlockResponse → Bool → BlockResponse
with_success response success = record response { success = success }

abbrev pub failed_with : BlockResponse → Str → BlockResponse
failed_with response msg = record response { success = false; msg = msg }

unfoldable pub get_failed : Str → Str
unfolding codes
get_failed doc_key = codes "gamma engine get failed, key:" ++ doc_key

unfoldable pub serialize_failed : Str → Str
unfolding codes
serialize_failed doc_key = codes "SerializeToString gamma_doc failed, key:" ++ doc_key

unfoldable pub is_leader : Block → Bool
is_leader b = elim b.leader_term [ pos term ↦ ltb 0 term | negsuc n ↦ false ]

unfoldable pub on_leader_start : Block → ℤ → Block
on_leader_start b term = record b { leader_term = term }

unfoldable pub on_leader_stop : Block → Block
on_leader_stop b = record b { leader_term = negsuc 0 }

-- The choice of the file to which `start` gives the paths, and the rest of braft's options.
unfoldable pub node_options : Block → Str → ℕ → ℕ → NodeOptions
unfolding codes
node_options b peer election_timeout_ms snapshot_interval_s =
    let prefix = codes "local://" ++ b.root_path in
    record {
      group = b.group;
      peer = peer;
      initial_conf = b.conf;
      election_timeout_ms = election_timeout_ms;
      snapshot_interval_s = snapshot_interval_s;
      log_uri = prefix ++ codes "/log";
      raft_meta_uri = prefix ++ codes "/raft_meta";
      snapshot_uri = prefix ++ codes "/snapshot";
    }

module _ {W : Type 0} (braft : Braft W) where
  unfoldable pub redirect : Block → BlockResponse → W → BlockResponse
  redirect b response w = elim b.node [
    | none ↦ with_success response false
    | some node ↦
        let leader = braft.leader_id node w in
        if is_empty leader
        then with_success response false
        else record response { success = false; redirect = leader }
  ]

  -- `BlockClosure::Run`, with whether its status is ok.
  unfoldable pub run : Block → BlockClosure → Bool → W → BlockResponse
  unfolding redirect
  run b closure ok w = if ok then closure.response else redirect b closure.response w

  -- The response, and the task where the request goes to the group. `serialize` is that of the request.
  unfoldable pub write :
      (BlockRequest → Option Str)
      → Block
      → BlockRequest
      → BlockResponse
      → Str
      → W
      → BlockResponse × Option Task
  unfolding redirect frame
  write serialize b request response data_text w =
      if is_negative b.leader_term
      then (redirect b response w, none)
      else elim (serialize request) [
        | none ↦ (with_success response false, none)
        | some text ↦ (
          response,
          some (record {
            log = frame text data_text;
            expected_term = if b.check_term then some b.leader_term else none;
            done = record { request = request; response = response; data_text = data_text };
          }),
        )
      ]

  -- The response and its attachment.
  unfoldable pub read :
      Gamma W
      → (Document → Option Str)
      → Block
      → BlockRequest
      → BlockResponse
      → W
      → BlockResponse × Str
  unfolding is_leader redirect gamma_doc_to_pb_doc get_failed serialize_failed
  read gamma serialize b request response w =
      if not (is_leader b)
      then (redirect b response w, [])
      else elim (gamma.get_doc_by_id request.key w) [
        | none ↦ (failed_with response (get_failed request.key), [])
        | some (table_fields, vector_fields) ↦
            elim (serialize (gamma_doc_to_pb_doc table_fields vector_fields)) [
              | none ↦ (failed_with response (serialize_failed request.key), [])
              | some data_buf ↦ (with_success response true, data_buf)
            ]
      ]

  -- `start`: whether it returns 0. The last two numbers before the world are those of the configuration.
  unfoldable pub start : Block → Str → Str → Str → Str → ℕ → Space → ℕ → ℕ → W → Block × Bool × W
  unfolding codes to_string node_options
  start b root_path group conf my_ip port space election_timeout_ms snapshot_interval_s w =
      let b1 = record b {
        root_path = root_path;
        group = group;
        conf = conf;
        port = port;
        check_term = true;
        space = space;
      } in
      let ip_port = my_ip ++ codes ":" ++ to_string port in
      let (w1, made) = braft.create_directory root_path w in
      let (w2, fd) = braft.open_data (root_path ++ codes "/data") w1 in
      let node = node_options b1 ip_port election_timeout_ms snapshot_interval_s in
      let (w3, ready) = braft.node_init node w2 in
      if not made then (b1, false, w1) else elim fd [
        | none ↦ (b1, false, w2)
        | some n ↦
            let b2 = record b1 { fd = some n } in
            if not (braft.is_endpoint ip_port)
            then (b2, false, w2)
            else if not (braft.is_configuration conf)
            then (b2, false, w2)
            else if ready
            then (record b2 { node = some node }, true, w3)
            else (b2, false, w3)
      ]

  unfoldable pub shutdown : Block → W → W
  shutdown b w = elim b.node [ none ↦ w | some node ↦ braft.node_shutdown node w ]

  unfoldable pub join : Block → W → W
  join b w = elim b.node [ none ↦ w | some node ↦ braft.node_join node w ]

  -- `RaftManager::DeleteBlock`.
  unfoldable pub delete_block : Option Block → W → Option Block × W
  delete_block none w = (none, w)
  delete_block (some b) w = (none, (braft.delete_tree b.root_path w).0)

  -- `RaftManager::CreateBlock`.
  unfoldable pub create_block : Option Block → W → Option Block × W
  unfolding delete_block new_block
  create_block block w = (some new_block, (delete_block block w).1)

  unfoldable pub block_is_null : Str
  unfolding codes
  block_is_null = codes "block is nullptr"

  unfoldable pub start_failed : Str
  unfolding codes
  start_failed = codes "Fail to start Block"

  -- `RaftManager::StartRaftServer`.
  unfoldable pub start_raft_server :
      Option Block → Str → Str → Str → Str → ℕ → Space → ℕ → ℕ → W → Option Block × Str × W
  unfolding start block_is_null start_failed
  start_raft_server none root_path group conf my_ip port space election interval w =
      (none, block_is_null, w)
  start_raft_server (some b) root_path group conf my_ip port space election interval w =
      let (b', done, w') = start b root_path group conf my_ip port space election interval w in
      (some b', (if done then [] else start_failed), w')
