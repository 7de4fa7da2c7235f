-- ===== src/Device.antt =====
-- The stateful device simulator of dptest: its state, its methods and its HTTP handler.
pub mod State
pub mod Creation
pub mod Changes
pub mod Deletion
pub mod Cases
pub mod Invariant
pub mod Paths
pub mod Guards
pub mod Reach
pub mod Sessions
