-- ===== src/Store.antt =====
-- The tables of execution-orchestrator (packages/persistence/src/*.entity.ts), the calls that leave
-- the process, and the effect of a service method on them.
pub mod Outcome
pub mod Types
pub mod Exec
