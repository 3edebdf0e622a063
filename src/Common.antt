-- ===== src/Common.antt =====
-- common/: the messages, the texts that name things in etcd, and the types of fields.
pub mod Messages
pub mod Names
pub mod Types
