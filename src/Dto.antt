-- ===== src/Dto.antt =====
-- common/dto.cc: the checks of requests, and the conversion of documents for the engine.
pub mod Checks
pub mod Gamma
