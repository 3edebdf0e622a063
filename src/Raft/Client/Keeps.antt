-- ===== src/Raft/Client/Keeps.antt =====
-- raft_store/raft_client.cc: what `Write` asks of the network that it writes through, and what it keeps.
use sim_search.Prelude.{
  ℕ, zero, suc, ◌+◌, ◌%◌, ◌≡◌, refl, Bool, true, false, [], Bool-cases, Option-cases, inl, inr,
  arith, get_or, if-both, Str,
}
use sim_search.Common.Messages.{BlockRequest, BlockResponse}
use sim_search.External.Network.{Network, reply}
use sim_search.Raft.Client.{
  RaftOptions, RaftClient, empty_options, cleared, ask_leader, get_leader, build, connect_option,
  create_raft_connection, reconnect, write_rounds, write,
}
use sim_search.Raft.Client.Acknowledged.{RpcResult-cases}

-- A property of the world that the calls of a client keep.
pub record Keeps {W : Type 0} (net : Network W) (P : W → Type 0) : Type 0 where
  pub is_asked_to_quit : (w : W) → P w → P (net.is_asked_to_quit w).0
  pub select_leader : (group : Str) (w : W) → P w → P (net.select_leader group w).0
  pub refresh_leader : (group : Str) (w : W) → P w → P (net.refresh_leader group w).0
  pub update_leader : (group leader : Str) (w : W) → P w → P (net.update_leader group leader w)
  pub channel_init : (addr : Str) (w : W) → P w → P (net.channel_init addr w).0
  pub raft_write :
      (leader : Str) (req : BlockRequest) (data_text : Str) (w : W)
      → P w
      → P (net.raft_write leader req data_text w).0

-- A network whose acknowledged writes are stored, and stay so.
pub record Stores {W : Type 0} (net : Network W) (IsStored : Str → W → Type 0) : Type 0 where
  pub keeps : (data_text : Str) → Keeps net (IsStored data_text)
  pub stores :
      (leader : Str) (req : BlockRequest) (data_text : Str) (w : W) (resp : BlockResponse)
      → (net.raft_write leader req data_text w).1 ≡ reply resp
      → resp.success ≡ true
      → IsStored data_text (net.raft_write leader req data_text w).0

module _ {W : Type 0} (net : Network W) (P : W → Type 0) (k : Keeps net P) where
  ask_leader-keeps :
      (retries : ℕ) (group : Str) (w : W) → P w → P (ask_leader net retries group w).0
  unfolding ask_leader
  ask_leader-keeps zero group w h = h
  ask_leader-keeps (suc retries) group w h = elim (Option-cases (net.select_leader group w).1) [
    | inr (peer, e) ↦ rw (e, ask_leader) (k.select_leader group w h)
    | inl e ↦
        rw (e, ask_leader)
          (ask_leader-keeps retries group _ (k.refresh_leader group _ (k.select_leader group w h)))
  ]

  get_leader-keeps :
      (group conf : Str) (retries : ℕ) (w : W) → P w → P (get_leader net group conf retries w).0
  unfolding get_leader
  get_leader-keeps group conf retries w h = elim (Option-cases (ask_leader net retries group w).1) [
    | inr (peer, e) ↦ rw (e, get_leader) (ask_leader-keeps retries group w h)
    | inl e ↦ rw (e, get_leader) (ask_leader-keeps retries group w h)
  ]

  build-keeps : (opt : RaftOptions) (w : W) → P w → P (build net opt w).0
  unfolding build
  build-keeps opt w h =
      let kept = k.channel_init opt.leader w h in
      if-both (λ (r : W × RaftOptions × Bool). P r.0) (net.channel_init opt.leader w).1 (λ e. kept)
        (λ e. kept)

  connect_option-keeps :
      (old : RaftOptions) (group conf : Str) (w : W)
      → P w
      → P (connect_option net old group conf w).0
  unfolding connect_option
  connect_option-keeps old group conf w h =
      let quit = k.is_asked_to_quit w h in
      let led = get_leader-keeps group conf 3 (net.is_asked_to_quit w).0 quit in
      elim (Bool-cases (net.is_asked_to_quit w).1) [
        | inl q ↦ rw (q, connect_option) quit
        | inr q ↦ elim (Option-cases (get_leader net group conf 3 (net.is_asked_to_quit w).0).1) [
          | inl e ↦ rw (q, e, connect_option) led
          | inr (peer, e) ↦
              let opt : RaftOptions = record old {
                ok = false;
                group = group;
                conf = conf;
                leader = peer;
              } in
              let w2 : W = (get_leader net group conf 3 (net.is_asked_to_quit w).0).0 in
              elim (Bool-cases (build net opt w2).2) [
                | inl d ↦ rw (q, e, d, connect_option) (build-keeps opt w2 led)
                | inr d ↦ rw (q, e, d, connect_option) (build-keeps opt w2 led)
              ]
        ]
      ]

  reconnect-keeps : (c : RaftClient) (opt : RaftOptions) (w : W) → P w → P (reconnect net c opt w).0
  unfolding reconnect create_raft_connection
  reconnect-keeps c opt w h =
      connect_option-keeps (get_or c.raft_options ((c.idx + 1) % 2) empty_options) opt.group
        opt.conf w h

  write_rounds-keeps :
      (rounds : ℕ) (msg : Str) (resp : BlockResponse) (c : RaftClient) (req : BlockRequest)
      (data_text : Str) (w : W)
      → P w
      → P (write_rounds net rounds msg resp c req data_text w).3
  unfolding write_rounds
  write_rounds-keeps zero msg resp c req data_text w h = h
  write_rounds-keeps (suc rounds) msg resp c req data_text w h =
      let opt : RaftOptions = get_or c.raft_options c.idx empty_options in
      let sent = k.raft_write opt.leader req data_text w h in
      elim (Bool-cases opt.ok) [
        | inr e ↦
            rw (e, write_rounds)
              (write_rounds-keeps rounds _ _ _ req data_text _ (reconnect-keeps c opt w h))
        | inl e ↦ elim (RpcResult-cases net (net.raft_write opt.leader req data_text w).1) [
          | inl (x, f) ↦
              rw (e, f, write_rounds)
                (write_rounds-keeps rounds _ _ _ req data_text _
                  (reconnect-keeps c opt _ (k.update_leader opt.group [] _ sent)))
          | inr (r, f) ↦ elim (Bool-cases r.success) [
            | inl s ↦ rw (e, f, s, write_rounds) sent
            | inr s ↦
                rw (e, f, s, write_rounds)
                  (write_rounds-keeps rounds _ _ _ req data_text _
                    (reconnect-keeps c opt _ (k.update_leader opt.group r.redirect _ sent)))
          ]
        ]
      ]

  -- Whatever the network's calls keep, a `Write` keeps.
  pub write-keeps :
      (c : RaftClient) (req : BlockRequest) (data_text : Str) (w : W)
      → P w
      → P (write net c req data_text w).3
  unfolding write
  write-keeps c req data_text w h = write_rounds-keeps 3 [] cleared c req data_text w h

module _ {W : Type 0} (net : Network W) (IsStored : Str → W → Type 0)
    (s : Stores net IsStored) where
  write_rounds-IsStored :
      (rounds : ℕ) (msg : Str) (resp : BlockResponse) (c : RaftClient) (req : BlockRequest)
      (data_text : Str) (w : W)
      → resp.success ≡ false
      → (write_rounds net rounds msg resp c req data_text w).1.success ≡ true
      → IsStored data_text (write_rounds net rounds msg resp c req data_text w).3
  unfolding write_rounds
  write_rounds-IsStored zero msg resp c req data_text w h =
      λ success. absurd (ground (arith, h, success))
  write_rounds-IsStored (suc rounds) msg resp c req data_text w h =
      let opt : RaftOptions = get_or c.raft_options c.idx empty_options in
      elim (Bool-cases opt.ok) [
        | inr e ↦
            rw (e, write_rounds)
              (write_rounds-IsStored rounds msg cleared (reconnect net c opt w).1 req data_text
                (reconnect net c opt w).0 refl)
        | inl e ↦ elim (RpcResult-cases net (net.raft_write opt.leader req data_text w).1) [
          | inl (x, f) ↦
              rw (e, f, write_rounds)
                (write_rounds-IsStored rounds _ cleared _ req data_text _ refl)
          | inr (r, f) ↦ elim (Bool-cases r.success) [
            | inl ok ↦ rw (e, f, ok, write_rounds) (λ h. s.stores opt.leader req data_text w r f ok)
            | inr ok ↦
                rw (e, f, ok, write_rounds) (write_rounds-IsStored rounds _ r _ req data_text _ ok)
          ]
        ]
      ]

  -- A `Write` whose response says success leaves its data stored.
  pub write-IsStored :
      (c : RaftClient) (req : BlockRequest) (data_text : Str) (w : W)
      → (write net c req data_text w).1.success ≡ true
      → IsStored data_text (write net c req data_text w).3
  unfolding write
  write-IsStored c req data_text w = write_rounds-IsStored 3 [] cleared c req data_text w refl
