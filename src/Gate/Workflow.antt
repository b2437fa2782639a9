-- ===== src/Gate/Workflow.antt =====
-- db/006 and db/013: the rows of a workflow and of one run of it, and the transitions between its states.
pub mod Tables
pub mod Transitions
pub mod Operations
pub mod Stack
pub mod Consistent
pub mod Reach
pub mod Safety
pub mod Heals
