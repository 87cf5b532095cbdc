-- ===== src/Node.antt =====
-- The node agent, agents/node/src: its slots for jobs, its capacity and the relay of a job's output.
pub mod Capacity
pub mod Slots
pub mod Models
pub mod NativeStream
pub mod Readiness
pub mod Roles
pub mod Relay
