-- ===== src/Training/Rewards.antt =====
-- packages/fde-training/src/fde_training/rewards: the reward terms, one file of the package to a module.
pub mod Efficiency
pub mod Grounding
pub mod Outcome
pub mod Validity
