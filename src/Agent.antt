-- ===== src/Agent.antt =====
-- The local agent, packages/agent-core/src.
pub mod Context
pub mod Event
pub mod Tool
pub mod Effect
pub mod Runner
mod Tests
