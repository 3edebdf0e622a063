-- ===== src/Raft.antt =====
-- raft_store/: the client of a raft group, and the replicated state machine.
pub mod Block
pub mod Client
