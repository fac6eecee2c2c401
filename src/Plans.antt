-- ===== src/Plans.antt =====
-- apps/execution-orchestrator/src/plans: the plan's life from `planned` to `completed` or `failed`.
pub mod Guards
pub mod Lifecycle
pub mod Linking
pub mod Completion
pub mod Failing
