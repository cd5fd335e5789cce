-- ===== src/Shared.antt =====
-- src/shared: the state of paused tool calls, tool approval and the switches of capabilities.
pub mod Continuations
pub mod Rollout
pub mod ToolApproval
