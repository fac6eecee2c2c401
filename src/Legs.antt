-- ===== src/Legs.antt =====
-- apps/execution-orchestrator/src/legs: the legs of a plan, from `created` to a terminal state.
pub mod Playbook
pub mod Cost
pub mod Begin
pub mod Send
pub mod Fill
pub mod Effects
pub mod BeginEffects
pub mod Replay
pub mod Sending
pub mod Beginning
