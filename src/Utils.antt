-- ===== src/Utils.antt =====
-- utils/: the hash of a text, the parser of 64-bit ids, and the map from keys to positions.
pub mod BrpcHttp
pub mod Hash
pub mod IndexMap
pub mod Net
pub mod Numeric
pub mod FileTool
