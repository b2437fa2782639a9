-- ===== src/Training.antt =====
-- packages/fde-training: transcripts, the reward terms over them, and the monitor of a training run.
pub mod Episode
pub mod Ratio
pub mod Rewards
pub mod Compose
pub mod Monitor
pub mod Tests
