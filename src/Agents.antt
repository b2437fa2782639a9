-- ===== src/Agents.antt =====
-- packages/fde-agents: the wait of an agent for a human gate.
pub mod Hitl
mod Tests
