-- ===== src/Runtime.antt =====
-- runtime.py: what an agent owns. Its budget, its cancellation signal and its context projection.
pub mod Cancellation
pub mod Budget
pub mod State
