-- ===== src/Raft/Block/Leader.antt =====
-- raft_store/raft_store.cc: the term of the leader, over any calls that braft makes. A term of braft is
-- above zero.
use sim_search.Prelude.{
  ℕ, ◌<◌, ◌≡◌, refl, sym, ◌∙◌, subst, Bool, true, false, not, Option, none, some, Bool-cases, inl,
  inr, arith, ltb, lt→ltb, Str,
}
use sim_search.Prelude.Int.{pos, negsuc, is_negative}
use sim_search.Common.Messages.{Space, BlockRequest, BlockResponse}
use sim_search.External.Braft.{Braft}
use sim_search.Raft.Block.{
  Block, new_block, start, on_leader_start, on_leader_stop, is_leader, write,
}

module _ {W : Type 0} (braft : Braft W) where
  -- The calls that change the block.
  pub data Step : Block → Block → Type 0 where
    starts :
        (b : Block) (root_path group conf my_ip : Str) (port : ℕ) (space : Space)
        (election interval : ℕ) (w : W)
        → Step b (start braft b root_path group conf my_ip port space election interval w).0
    leads : (b : Block) (term : ℕ) → 0 < term → Step b (on_leader_start b (pos term))
    steps_down : (b : Block) → Step b (on_leader_stop b)

  pub data Reached : Block → Type 0 where
    fresh : Reached new_block
    next : {b c : Block} → Reached b → Step b c → Reached c

  -- The term is that of a leader, or below zero.
  abbrev HasTerm : Block → Type 0
  HasTerm b = is_leader b ≡ not (is_negative b.leader_term)

  start-leader_term :
      (b : Block) (root_path group conf my_ip : Str) (port : ℕ) (space : Space)
      (election interval : ℕ) (w : W)
      → (start braft b root_path group conf my_ip port space election interval w).0.leader_term
        ≡ b.leader_term
  unfolding start
  start-leader_term b root_path group conf my_ip port space election interval w = ground arith

  HasTerm-term : (b c : Block) → c.leader_term ≡ b.leader_term → HasTerm b → HasTerm c
  unfolding is_leader
  HasTerm-term b c e h =
      subst (λ t. (elim t [ pos term ↦ ltb 0 term | negsuc n ↦ false ]) ≡ not (is_negative t))
        (sym e) h

  Step-HasTerm : {b c : Block} → Step b c → HasTerm b → HasTerm c
  unfolding is_leader on_leader_start on_leader_stop
  Step-HasTerm (starts b root_path group conf my_ip port space election interval w) h =
      HasTerm-term b (start braft b root_path group conf my_ip port space election interval w).0
        (start-leader_term b root_path group conf my_ip port space election interval w) h
  Step-HasTerm (leads b term p) h = lt→ltb 0 term p
  Step-HasTerm (steps_down b) h = refl

  Reached-HasTerm : {b : Block} → Reached b → HasTerm b
  unfolding is_leader new_block
  Reached-HasTerm fresh = refl
  Reached-HasTerm (next r s) = Step-HasTerm s (Reached-HasTerm r)

abbrev pub is_some : {A : Type 0} → Option A → Bool
is_some none = false
is_some (some a) = true

module _ {W : Type 0} (braft : Braft W) where
  write-leader_term :
      (serialize : BlockRequest → Option Str) (b : Block) (request : BlockRequest)
      (response : BlockResponse) (data_text text : Str) (w : W)
      → serialize request ≡ some text
      → is_some (write braft serialize b request response data_text w).1
        ≡ not (is_negative b.leader_term)
  unfolding write
  write-leader_term serialize b request response data_text text w printed =
      elim (Bool-cases (is_negative b.leader_term)) [
        | inl p ↦ rw (p, write) refl
        | inr p ↦ rw (p, printed, write) refl
      ]

  -- After any calls of `start`, `on_leader_start` with a term above zero, and `on_leader_stop`, a write
  -- whose request is serialized goes to the group exactly where the block is the leader.
  pub write-is_leader :
      (serialize : BlockRequest → Option Str) (b : Block) (request : BlockRequest)
      (response : BlockResponse) (data_text text : Str) (w : W)
      → Reached braft b
      → serialize request ≡ some text
      → is_some (write braft serialize b request response data_text w).1 ≡ is_leader b
  write-is_leader serialize b request response data_text text w r printed =
      write-leader_term serialize b request response data_text text w printed
      ∙ sym (Reached-HasTerm braft r)
