-- ===== src/Risk.antt =====
-- The parts of risk-service.
pub mod Policy
pub mod Evaluate
pub mod Limits
pub mod Replay
pub mod Windows
