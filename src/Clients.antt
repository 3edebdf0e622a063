-- ===== src/Clients.antt =====
-- clients/: the clients of the partition servers and of etcd.
pub mod DynamicResource
pub mod Etcd
pub mod PsRpc
pub mod RoundRobin
