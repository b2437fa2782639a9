-- ===== src/Sor/Mapping.antt =====
-- packages/fde-sor/src/fde_sor/mapping.py
pub mod Path
pub mod Numbers
pub mod Spec
pub mod Normalize
