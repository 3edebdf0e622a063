-- ===== src/Raft/Client.antt =====
-- raft_store/raft_client.{h,cc}. Two connections to the leader of a group: `idx` is the one in use, and
-- a new one is made beside it. `_mtx` is held for the whole of `Write` and of `Init`. The sleep between
-- two questions for the leader is left out.
pub mod Acknowledged
pub mod Keeps
use sim_search.Prelude.{
  ℕ, zero, suc, ◌+◌, ◌%◌, Bool, true, false, not, List, [], ◌∷◌, ◌++◌, Option, none, some,
  if◌then◌else◌, is_empty, get_or, set, Str, codes,
}
use sim_search.Common.Messages.{BlockRequest, BlockResponse}
use sim_search.External.Network.{Network, RpcResult, failed, reply}

-- common/brpc_options.h; `stub` is the peer that the stub was built for, if there is one.
pub record RaftOptions : Type 0 where
  pub group : Str
  pub conf : Str
  pub leader : Str
  pub stub : Option Str
  pub ok : Bool

abbrev pub empty_options : RaftOptions
empty_options = record { group = []; conf = []; leader = []; stub = none; ok = false }

pub record RaftClient : Type 0 where
  pub raft_options : List RaftOptions
  pub idx : ℕ

abbrev pub new_client : RaftClient
new_client = record { raft_options = []; idx = 0 }

abbrev pub cleared : BlockResponse
cleared = record { success = false; redirect = []; msg = [] }

unfoldable pub no_leader : Str → Str → Str
unfolding codes
no_leader group conf =
    codes "Fail to select leader of group:[" ++ group ++ codes "] conf:[" ++ conf ++ codes "]"

unfoldable pub no_connection : Str → Str
unfolding codes
no_connection leader = codes "Fail to connet brpc, leader:" ++ leader

unfoldable pub asked_to_quit : Str
unfolding codes
asked_to_quit = codes "Brpc IsAskedToQuit, not update raft connection."

unfoldable pub not_sent : Str → Str → Str
unfolding codes
not_sent leader error = codes "Fail to send request to " ++ leader ++ codes " : " ++ error

unfoldable pub redirecting : Str → Str → Str
unfolding codes
redirecting leader redirect =
    codes "Fail to send request to "
    ++ leader
    ++ codes ", redirecting to "
    ++ (if is_empty redirect then codes "nowhere" else redirect)

unfoldable pub configuration_error : Str → Str
unfolding codes
configuration_error group = codes "group:" ++ group ++ codes "update_configuratione error"

unfoldable pub get_leader_error : Str
unfolding codes
get_leader_error = codes "Fail to get leader"

-- `_raft_options.resize(2)` of a client that has none, or two.
unfoldable pub resize_options : List RaftOptions → List RaftOptions
resize_options [] = empty_options ∷ empty_options ∷ []
resize_options (o ∷ []) = o ∷ empty_options ∷ []
resize_options (o ∷ p ∷ rest) = o ∷ p ∷ []

module _ {W : Type 0} (net : Network W) where
  open net use {
    channel_init, raft_write, update_configuration, select_leader, refresh_leader, update_leader,
    is_asked_to_quit,
  }

  -- The rounds of `GetLeader`: the leader, none if each round failed.
  unfoldable pub ask_leader : ℕ → Str → W → W × Option Str
  ask_leader zero group w = (w, none)
  ask_leader (suc retries) group w =
      let (w', leader) = select_leader group w in
      elim leader [
        | some peer ↦ (w', some peer)
        | none ↦ ask_leader retries group (refresh_leader group w').0
      ]

  unfoldable pub get_leader : Str → Str → ℕ → W → W × Option Str × Str
  unfolding ask_leader
  get_leader group conf retries w =
      let (w', leader) = ask_leader retries group w in
      elim leader [ some peer ↦ (w', some peer, []) | none ↦ (w', none, no_leader group conf) ]

  -- `RaftOptions::Build` of common/brpc_options.cc.
  unfoldable pub build : RaftOptions → W → W × RaftOptions × Bool
  build opt w =
      let (w', connected) = channel_init opt.leader w in
      if connected then (w', record opt { stub = some opt.leader }, true) else (w', opt, false)

  -- `CreateRaftConnection` on the option at `new_idx`; the flag says whether `_idx` moves there.
  unfoldable pub connect_option : RaftOptions → Str → Str → W → W × RaftOptions × Bool × Str
  unfolding get_leader build
  connect_option old group conf w =
      let opt = record old { ok = false; group = group; conf = conf } in
      let (w1, quit) = is_asked_to_quit w in
      let (w2, leader, msg) = get_leader group conf 3 w1 in
      if quit then (w1, opt, false, asked_to_quit) else elim leader [
        | none ↦ (w2, opt, false, msg)
        | some peer ↦
            let (w3, built, done) = build (record opt { leader = peer }) w2 in
            if done
            then (w3, record built { ok = true }, true, [])
            else (w3, built, false, no_connection peer)
      ]

  unfoldable pub create_raft_connection : RaftClient → Str → Str → ℕ → W → W × RaftClient × Str
  unfolding connect_option
  create_raft_connection c group conf new_idx w =
      let (w', opt, moved, msg) =
        connect_option (get_or c.raft_options new_idx empty_options) group conf w in
      (
        w',
        record {
          raft_options = set c.raft_options new_idx opt;
          idx = if moved then new_idx else c.idx;
        },
        msg,
      )

  -- `CreateRaftConnection` beside the connection in use, as `Write` calls it.
  unfoldable pub reconnect : RaftClient → RaftOptions → W → W × RaftClient
  unfolding create_raft_connection
  reconnect c opt w =
      let (w', c', msg) = create_raft_connection c opt.group opt.conf ((c.idx + 1) % 2) w in
      (w', c')

  -- The rounds of `Write`; the message and the response are those of the last round. A client that was
  -- never given to `Init` has no connections, and reading `_raft_options[_idx]` is undefined in the
  -- source; here it reads as a connection that is not up.
  unfoldable pub write_rounds :
      ℕ
      → Str
      → BlockResponse
      → RaftClient
      → BlockRequest
      → Str
      → W
      → Str × BlockResponse × RaftClient × W
  unfolding reconnect
  write_rounds zero msg resp c req data_text w = (msg, resp, c, w)
  write_rounds (suc rounds) msg resp c req data_text w =
      let opt = get_or c.raft_options c.idx empty_options in
      elim opt.ok [
        | false ↦
            let (w', c') = reconnect c opt w in write_rounds rounds msg cleared c' req data_text w'
        | true ↦
            let (w1, result) = raft_write opt.leader req data_text w in
            elim result [
              | failed error ↦
                  let (w', c') = reconnect c opt (update_leader opt.group [] w1) in
                  write_rounds rounds (not_sent opt.leader error) cleared c' req data_text w'
              | reply r ↦ elim r.success [
                | true ↦ ([], r, c, w1)
                | false ↦
                    let (w', c') = reconnect c opt (update_leader opt.group r.redirect w1) in
                    write_rounds rounds (redirecting opt.leader r.redirect) r c' req data_text w'
              ]
            ]
      ]

  unfoldable pub write : RaftClient → BlockRequest → Str → W → Str × BlockResponse × RaftClient × W
  unfolding write_rounds
  write c req data_text w = write_rounds 3 [] cleared c req data_text w

  unfoldable pub init : RaftClient → Str → Str → W → W × RaftClient × Str
  unfolding create_raft_connection resize_options
  init c group conf w =
      let c0 = record c { raft_options = resize_options c.raft_options } in
      let (w0, known) = update_configuration group conf w in
      let (w1, c1, msg1) = create_raft_connection c0 group conf 0 w0 in
      let (w2, c2, msg2) = create_raft_connection c1 group conf 1 w1 in
      if not known
      then (w0, c0, configuration_error group)
      else if not (is_empty msg1)
      then (w1, c1, get_leader_error)
      else if not (is_empty msg2)
      then (w2, c2, get_leader_error)
      else (w2, c2, [])
