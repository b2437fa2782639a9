-- ===== src/Sor.antt =====
-- packages/fde-sor: what adapters fetch becomes observations.
pub mod Errors
pub mod Stdlib
pub mod Mapping
pub mod State
pub mod Hashing
pub mod Ingest
pub mod Stream
pub mod Handlers
pub mod Registry
pub mod Detectors
pub mod Replay
pub mod Tests
