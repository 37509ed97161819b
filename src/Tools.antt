-- ===== src/Tools.antt =====
-- tools/: the protocol of tools and what is shown of their results.
pub mod Schema
pub mod Truncate
pub mod Output
