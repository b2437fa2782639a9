-- ===== src/Gate.antt =====
-- packages/fde-gate: the runner of workflows, over the transitions that db/013 defines.
pub mod Workflow
pub mod Runner
pub mod Tick
mod Tests
pub mod Forms
