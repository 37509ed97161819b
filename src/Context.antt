-- ===== src/Context.antt =====
-- context.py: the bounded projection of an agent's messages that the model is sent.
pub mod Message
pub mod Group
pub mod Estimate
pub mod Builder
