-- ===== src/Router.antt =====
-- service/router/: the router's list of spaces, its connections and its RPC handlers.
pub mod LocalSpaces
pub mod Manager
pub mod Hashing
pub mod Partition
pub mod Space
pub mod Rpc
pub mod Register
pub mod Server
pub mod Upsert
pub mod Main
