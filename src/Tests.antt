-- ===== src/Tests.antt =====
-- The theorems at concrete inputs.
pub mod ContextTests
pub mod PolicyTests
pub mod RuntimeTests
pub mod OutputTests
pub mod ExecutorTests
pub mod LoopTests
pub mod SessionTests
