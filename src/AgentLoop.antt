-- ===== src/AgentLoop.antt =====
-- `AgentLoop` of agent_loop.py.
pub mod Monad
pub mod Boundary
pub mod Session
pub mod Calls
pub mod Prepare
pub mod Turn
pub mod Frame
pub mod Paired
pub mod Tally
pub mod Lifecycle
