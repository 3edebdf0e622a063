-- ===== src/Clients/Etcd.antt =====
-- clients/etcd_client.{h,cc}: the channels to the nodes of etcd, and the calls on them. A channel is its
-- url. The threads are their loops: a round of the one that keeps a node alive is a function here.
pub mod Answers
pub mod Prefix
pub mod Calls
pub mod ReadBody
use sim_search.Prelude.{
  ℕ, zero, suc, ◌+◌, ◌-◌, ◌*◌, ◌%◌, Bool, true, false, not, ◌||◌, List, [], ◌∷◌, ◌++◌, Option, none,
  some, if◌then◌else◌, ==_iff, ◌==◌, leb, is_empty, length, get_or, Str, codes, to_string,
}
use sim_search.External.Http.{Http, Conversion}

pub record EtcdClient : Type 0 where
  pub chan_list : List Str
  pub keep_alive_bt_running : Bool

abbrev pub new_etcd_client : EtcdClient
new_etcd_client = record { chan_list = []; keep_alive_bt_running = false }

-- `RegisterNodeWithKeepAlive` starts the thread that keeps a node alive, and the destructor ends it.
unfoldable pub begin_keep_alive : EtcdClient → EtcdClient
begin_keep_alive c = record c { keep_alive_bt_running = true }

unfoldable pub end_keep_alive : EtcdClient → EtcdClient
end_keep_alive c = record c { keep_alive_bt_running = false }

pub data EtcdOps : Type 0 where
  range put delete_range txn compact lease_grant lease_revoke lease_keepalive lease_ttl
        lease_leases :
      EtcdOps

unfoldable pub op_path : EtcdOps → Str
unfolding codes
op_path range = codes "/v3/kv/range"
op_path put = codes "/v3/kv/put"
op_path delete_range = codes "/v3/kv/deleterange"
op_path txn = codes "/v3/kv/txn"
op_path compact = codes "/v3/kv/compaction"
op_path lease_grant = codes "/v3/lease/grant"
op_path lease_revoke = codes "/v3/lease/revoke"
op_path lease_keepalive = codes "/v3/lease/keepalive"
op_path lease_ttl = codes "/v3/lease/timetolive"
op_path lease_leases = codes "/v3/lease/leases"

unfoldable pub master_url : Str × ℕ → Str
unfolding codes to_string
master_url (ip, port) = codes "http://" ++ ip ++ codes ":" ++ to_string port

-- The requests and responses of registration; a lease is the number of its bits.
pub record PutRequest : Type 0 where
  pub key : Str
  pub value : Str
  pub lease : ℕ

module _ {W : Type 0} (http : Http W) where
  -- The loop of `Init`: the channels, and whether all were made.
  unfoldable pub init_channels : Str → List (Str × ℕ) → W → List Str × Bool × W
  unfolding master_url
  init_channels lb [] w = ([], true, w)
  init_channels lb (ip_port ∷ ip_ports) w =
      let (w', made) = http.channel_init (master_url ip_port) lb w in
      elim made [
        | false ↦ ([], false, w')
        | true ↦
            let (urls, done, w2) = init_channels lb ip_ports w' in
            (master_url ip_port ∷ urls, done, w2)
      ]

  -- The list of a client that fails ends before the channel that could not be made, where the source
  -- leaves null pointers.
  unfoldable pub init : EtcdClient → List (Str × ℕ) → Str → W → EtcdClient × Bool × W
  unfolding init_channels
  init c [] lb w = (c, false, w)
  init c (ip_port ∷ ip_ports) lb w =
      let (urls, done, w') = init_channels lb (ip_port ∷ ip_ports) w in
      (record c { chan_list = urls }, done, w')

  -- The position of the channel; none before the first.
  unfoldable pub get_channel : Option ℕ → ℕ → W → W × ℕ
  get_channel none chan_size w = let (w', r) = http.random 1 chan_size w in (w', r - 1)
  get_channel (some pre_idx) chan_size w = (w, (pre_idx + 1) % chan_size)

  module _ {Req Resp : Type 0} (json : Conversion Req Resp) (path : Str) (chans : List Str) where
    -- One call on a channel, and whether it gave a response.
    unfoldable pub ask : ℕ → Req → Resp → W → Bool × Resp × W
    ask i request response w = elim (json.print request) [
      | none ↦ (false, response, w)
      | some output ↦
          let (w', answer) = http.post (get_or chans i []) path output w in
          elim answer [
            | none ↦ (false, response, w')
            | some text ↦
                let (response', parsed) = json.parse text response in (parsed, response', w')
          ]
    ]

    -- The loop of `EtcdOp`.
    unfoldable pub op_rounds : ℕ → Option ℕ → Req → Resp → W → Bool × Resp × W
    unfolding get_channel ask
    op_rounds zero pre_idx request response w = (false, response, w)
    op_rounds (suc rounds) pre_idx request response w =
        let (w1, i) = get_channel pre_idx (length chans) w in
        let (done, response', w2) = ask i request response w1 in
        elim done [
          | true ↦ (true, response', w2)
          | false ↦ op_rounds rounds (some i) request response' w2
        ]

  unfoldable pub etcd_op :
      {Req Resp : Type 0}
      → Conversion Req Resp
      → List Str
      → EtcdOps
      → Req
      → Resp
      → W
      → Bool × Resp × W
  unfolding op_rounds op_path
  etcd_op json chans op request response w =
      op_rounds json (op_path op) chans (length chans) none request response w

  -- `Watch` returns in the first round of its loop, whatever happens: whether a reader was attached.
  unfoldable pub watch :
      {Req : Type 0} → (Req → Option Str) → EtcdClient → Req → Bool → W → Bool × W
  unfolding get_channel codes
  watch print c request has_watcher w = elim (is_empty c.chan_list) [
    | true ↦ (false, w)
    | false ↦
        let (w1, i) = get_channel none (length c.chan_list) w in
        elim has_watcher [
          | false ↦ (false, w1)
          | true ↦ elim (print request) [
            | none ↦ (false, w1)
            | some output ↦
                let (w2, answer) =
                  http.post (get_or c.chan_list i []) (codes "/v3/watch") output w1 in
                ((elim answer [ none ↦ false | some text ↦ true ]), w2)
          ]
        ]
  ]

  module _ {PutResp : Type 0} (grant_json : Conversion ℕ ℕ)
      (put_json : Conversion PutRequest PutResp) (alive_json : Conversion ℕ ℕ) where
    -- `register_func`: the id of the lease, none for -1. A grant takes a ttl and gives an id.
    unfoldable pub register : EtcdClient → Str → Str → ℕ → W → Option ℕ × W
    unfolding etcd_op
    register c key value ttl w = elim (is_empty key) [
      | true ↦ (none, w)
      | false ↦
          let (granted, id, w1) =
            etcd_op grant_json c.chan_list lease_grant ttl grant_json.empty w in
          let request : PutRequest = record { key = key; value = value; lease = id } in
          let (stored, response, w2) = etcd_op put_json c.chan_list put request put_json.empty w1 in
          (some id, w2)
    ]

    abbrev pub alive_id : Option ℕ → ℕ
    alive_id none = 0xffff_ffff_ffff_ffff
    alive_id (some id) = id

    -- One round of the loop of `KeepNodeAliveThreadFunc`. A keep-alive takes an id and gives a ttl.
    unfoldable pub keep_alive : EtcdClient → Str → Str → ℕ → Option ℕ → W → Option ℕ × W
    unfolding etcd_op register
    keep_alive c key value interval_sec grant_id w =
        let (alive, ttl, w1) =
          etcd_op alive_json c.chan_list lease_keepalive (alive_id grant_id) alive_json.empty w in
        elim (not alive || leb 0x8000_0000_0000_0000 ttl || ttl == 0) [
          | true ↦ register c key value (3 * interval_sec) w1
          | false ↦ (grant_id, w1)
        ]

    -- What the thread does before its loop, which then has the lease.
    unfoldable pub start_keep_alive : EtcdClient → Str → Str → ℕ → W → Option ℕ × W
    unfolding register
    start_keep_alive c key value interval_sec w = register c key value (3 * interval_sec) w

    -- The loop of the thread, for these rounds; the pause in each is left out.
    unfoldable pub keep_node_alive : ℕ → EtcdClient → Str → Str → ℕ → Option ℕ → W → Option ℕ × W
    unfolding keep_alive
    keep_node_alive zero c key value interval_sec grant_id w = (grant_id, w)
    keep_node_alive (suc rounds) c key value interval_sec grant_id w =
        let (grant_id', w') = keep_alive c key value interval_sec grant_id w in
        keep_node_alive rounds c key value interval_sec grant_id' w'

-- `range_end.back() += 1` on a char, which wraps.
unfoldable pub get_range_end : Str → Str
get_range_end [] = []
get_range_end (c ∷ s) = elim s [ [] ↦ ((c + 1) % 256) ∷ [] | d ∷ t ↦ c ∷ get_range_end s ]
