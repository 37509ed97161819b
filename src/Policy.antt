-- ===== src/Policy.antt =====
-- policy.py: which validated tool calls may proceed.
pub mod Path
pub mod Decide
