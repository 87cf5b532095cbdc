-- ===== src/Harness.antt =====
-- The Coding Harness of the node agent, agents/node/src.
pub mod Loop
pub mod Edits
pub mod Paths
