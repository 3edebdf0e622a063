-- ===== src/Raft/Client/Acknowledged.antt =====
-- raft_store/raft_client.cc: what the outcome of `Write` says of the group.
use sim_search.Prelude.{
  ℕ, zero, suc, ◌+◌, ◌%◌, ◌<◌, ◌≡◌, refl, ◌⊎◌, Bool, true, false, List, [], ◌∷◌, none, arith,
  Bool-cases, inl, inr, if◌then◌else◌, is_empty, length, length-set, get_or, Str,
}
use sim_search.Common.Messages.{BlockRequest, BlockResponse}
use sim_search.External.Network.{Network, RpcResult, failed, reply}
use sim_search.Raft.Client.{
  RaftOptions, RaftClient, empty_options, cleared, create_raft_connection, reconnect, write_rounds,
  write, resize_options, init,
}

if_lt : (b : Bool) (i j n : ℕ) → i < n → j < n → (if b then i else j) < n
if_lt true i j n h k = h
if_lt false i j n h k = k

length-resize_options : (options : List RaftOptions) → length (resize_options options) ≡ 2
unfolding resize_options
length-resize_options [] = refl
length-resize_options (o ∷ []) = refl
length-resize_options (o ∷ p ∷ rest) = refl

module _ {W : Type 0} (net : Network W) where
  -- Some leader was sent the request and the data, and answered with success and this response.
  abbrev pub WasAcknowledged : BlockRequest → Str → BlockResponse → Type 0
  WasAcknowledged req data_text resp =
      (leader : Str) × (w : W) × ((net.raft_write leader req data_text w).1 ≡ reply resp)
      × (resp.success ≡ true)

  pub RpcResult-cases :
      (x : RpcResult BlockResponse)
      → ((e : Str) × (x ≡ failed e)) ⊎ ((r : BlockResponse) × (x ≡ reply r))
  RpcResult-cases (failed e) = inl (e, refl)
  RpcResult-cases (reply r) = inr (r, refl)

  write_rounds-WasAcknowledged :
      (rounds : ℕ) (msg : Str) (resp : BlockResponse) (c : RaftClient) (req : BlockRequest)
      (data_text : Str) (w : W)
      → resp.success ≡ false
      → (write_rounds net rounds msg resp c req data_text w).1.success ≡ true
      → ((write_rounds net rounds msg resp c req data_text w).0 ≡ [])
        × WasAcknowledged req data_text (write_rounds net rounds msg resp c req data_text w).1
  unfolding write_rounds
  write_rounds-WasAcknowledged zero msg resp c req data_text w h =
      λ success. absurd (ground (arith, h, success))
  write_rounds-WasAcknowledged (suc rounds) msg resp c req data_text w h =
      let opt : RaftOptions = get_or c.raft_options c.idx empty_options in
      elim (Bool-cases opt.ok) [
        | inr e ↦
            rw (e, write_rounds)
              (write_rounds-WasAcknowledged rounds msg cleared (reconnect net c opt w).1 req
                data_text (reconnect net c opt w).0 refl)
        | inl e ↦ elim (RpcResult-cases (net.raft_write opt.leader req data_text w).1) [
          | inl (x, f) ↦
              rw (e, f, write_rounds)
                (write_rounds-WasAcknowledged rounds _ cleared _ req data_text _ refl)
          | inr (r, f) ↦ elim (Bool-cases r.success) [
            | inl s ↦ rw (e, f, s, write_rounds) (λ h. (refl, (opt.leader, w, f, s)))
            | inr s ↦
                rw (e, f, s, write_rounds)
                  (write_rounds-WasAcknowledged rounds _ r _ req data_text _ s)
          ]
        ]
      ]

  -- If the response of `Write` says success, then a leader answered so to this request and data, the
  -- response is that leader's, and `Write` gives no message.
  pub write-WasAcknowledged :
      (c : RaftClient) (req : BlockRequest) (data_text : Str) (w : W)
      → (write net c req data_text w).1.success ≡ true
      → ((write net c req data_text w).0 ≡ [])
        × WasAcknowledged req data_text (write net c req data_text w).1
  unfolding write
  write-WasAcknowledged c req data_text w =
      write_rounds-WasAcknowledged 3 [] cleared c req data_text w refl

  -- Two connections, one of which is in use.
  abbrev pub IsPaired : RaftClient → Type 0
  IsPaired c = (length c.raft_options ≡ 2) × (c.idx < 2)

  create_raft_connection-IsPaired :
      (c : RaftClient) (group conf : Str) (new_idx : ℕ) (w : W)
      → new_idx < 2
      → IsPaired c
      → IsPaired (create_raft_connection net c group conf new_idx w).1
  unfolding create_raft_connection
  create_raft_connection-IsPaired c group conf new_idx w h p =
      (rw length-set p.0, if_lt _ new_idx c.idx 2 h p.1)

  reconnect-IsPaired :
      (c : RaftClient) (opt : RaftOptions) (w : W) → IsPaired c → IsPaired (reconnect net c opt w).1
  unfolding reconnect
  reconnect-IsPaired c opt w p =
      create_raft_connection-IsPaired c opt.group opt.conf ((c.idx + 1) % 2) w (omega arith) p

  write_rounds-IsPaired :
      (rounds : ℕ) (msg : Str) (resp : BlockResponse) (c : RaftClient) (req : BlockRequest)
      (data_text : Str) (w : W)
      → IsPaired c
      → IsPaired (write_rounds net rounds msg resp c req data_text w).2
  unfolding write_rounds
  write_rounds-IsPaired zero msg resp c req data_text w p = p
  write_rounds-IsPaired (suc rounds) msg resp c req data_text w p =
      let opt : RaftOptions = get_or c.raft_options c.idx empty_options in
      elim (Bool-cases opt.ok) [
        | inr e ↦
            rw (e, write_rounds)
              (write_rounds-IsPaired rounds _ _ _ req data_text _ (reconnect-IsPaired c opt w p))
        | inl e ↦ elim (RpcResult-cases (net.raft_write opt.leader req data_text w).1) [
          | inl (x, f) ↦
              rw (e, f, write_rounds)
                (write_rounds-IsPaired rounds _ _ _ req data_text _ (reconnect-IsPaired c opt _ p))
          | inr (r, f) ↦ elim (Bool-cases r.success) [
            | inl s ↦ rw (e, f, s, write_rounds) p
            | inr s ↦
                rw (e, f, s, write_rounds)
                  (write_rounds-IsPaired rounds _ _ _ req data_text _
                    (reconnect-IsPaired c opt _ p))
          ]
        ]
      ]

  init-IsPaired :
      (c : RaftClient) (group conf : Str) (w : W) → c.idx < 2 → IsPaired (init net c group conf w).1
  unfolding init
  init-IsPaired c group conf w h =
      let c0 : RaftClient = record c { raft_options = resize_options c.raft_options } in
      let p0 : IsPaired c0 = (length-resize_options c.raft_options, h) in
      let w0 : W = (net.update_configuration group conf w).0 in
      let p1 : IsPaired (create_raft_connection net c0 group conf 0 w0).1 =
        create_raft_connection-IsPaired c0 group conf 0 w0 (omega arith) p0 in
      let o1 : W × RaftClient × Str = create_raft_connection net c0 group conf 0 w0 in
      let p2 : IsPaired (create_raft_connection net o1.1 group conf 1 o1.0).1 =
        create_raft_connection-IsPaired o1.1 group conf 1 o1.0 (omega arith) p1 in
      elim (Bool-cases (net.update_configuration group conf w).1) [
        | inr e ↦ rw (e, init) p0
        | inl e ↦ elim (Bool-cases (is_empty o1.2)) [
          | inr f ↦ rw (e, f, init) p1
          | inl f ↦
              elim (Bool-cases (is_empty (create_raft_connection net o1.1 group conf 1 o1.0).2)) [
                | inr g ↦ rw (e, f, g, init) p2
                | inl g ↦ rw (e, f, g, init) p2
              ]
        ]
      ]

  -- The client after writes of these requests and data, each in a world of its own.
  unfoldable pub write_all : RaftClient → List (BlockRequest × Str × W) → RaftClient
  write_all c [] = c
  write_all c ((req, data_text, w) ∷ calls) = write_all (write net c req data_text w).2 calls

  write-IsPaired :
      (c : RaftClient) (req : BlockRequest) (data_text : Str) (w : W)
      → IsPaired c
      → IsPaired (write net c req data_text w).2
  unfolding write
  write-IsPaired c req data_text w p = write_rounds-IsPaired 3 [] cleared c req data_text w p

  write_all-IsPaired :
      (c : RaftClient) (calls : List (BlockRequest × Str × W))
      → IsPaired c
      → IsPaired (write_all c calls)
  unfolding write_all
  write_all-IsPaired c [] p = p
  write_all-IsPaired c ((req, data_text, w) ∷ calls) p =
      write_all-IsPaired (write net c req data_text w).2 calls (write-IsPaired c req data_text w p)

  -- Whatever the group answers, a client whose index is below two has, after `Init` and any number of
  -- calls of `Write`, two connections and an index below two.
  pub write_all-init-IsPaired :
      (group conf : Str) (calls : List (BlockRequest × Str × W)) (c : RaftClient) (w : W)
      → c.idx < 2
      → IsPaired (write_all (init net c group conf w).1 calls)
  write_all-init-IsPaired group conf calls c w h =
      write_all-IsPaired (init net c group conf w).1 calls (init-IsPaired c group conf w h)

  -- A client whose connections are both down.
  abbrev pub IsDown : RaftClient → Type 0
  IsDown c = (i : ℕ) → (get_or c.raft_options i empty_options).ok ≡ false

  abbrev pub NoLeader : Str → Type 0
  NoLeader group = (w : W) → (net.select_leader group w).1 ≡ none
