-- ===== src/Executor.antt =====
-- The tool execution lifecycle of executor.py.
pub mod Redact
pub mod Results
pub mod Lifecycle
pub mod Attempt
pub mod Execute
