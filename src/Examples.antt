-- ===== src/Examples.antt =====
-- Concrete inputs, and the theorems at them.
mod Values
mod Utils
mod Raft
mod Documents
mod Router
mod Engine
mod Ps
mod Block
mod Clients
mod Cluster
