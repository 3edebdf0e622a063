-- ===== src/External.antt =====
-- What the program uses and does not implement, as interfaces over the state `W` of the world.
pub mod Braft
pub mod Codec
pub mod FileSystem
pub mod Files
pub mod Gamma
pub mod Http
pub mod Network
pub mod Server
pub mod Toml
