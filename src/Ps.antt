-- ===== src/Ps.antt =====
-- service/ps/: the partition server, its identity and its space on disk, and its handlers.
pub mod LocalMata
pub mod LocalStorager
pub mod Rpc
pub mod Main
pub mod RaftRpc
pub mod Register
pub mod Server
pub mod Mock
