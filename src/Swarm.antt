-- ===== src/Swarm.antt =====
-- Project Swarm, which coordinates coding workers on a Git project, apps/cli/src/project_swarm.rs.
pub mod Paths
pub mod Plan
pub mod Requests
pub mod Tests
