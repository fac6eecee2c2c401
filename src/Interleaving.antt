-- ===== src/Interleaving.antt =====
-- The transactions of execution-orchestrator as atomic actions. Any number of requests and workers
-- run at once; the row locks make their transactions take effect one after another, so a history
-- is a list of actions in any order, each with whatever its caller learned before.
pub mod Moves
pub mod Closure
pub mod Invariants
pub mod Keys
pub mod Broadcast
pub mod Recovery
pub mod Announcements
pub mod FilledOnce
pub mod PlanMoves
pub mod PlanInvariants
pub mod Txs
use arbibot.Base.{String, Bool, Option, List, [], ◌∷◌}
use arbibot.Store.Types.{World, Call}
use arbibot.Store.Exec.{after, transaction}
use arbibot.Plans.Lifecycle.{
  CreatePlan, FailReason, create_plan, link_reservation_tx, arm_tx, try_mark_plan_completed,
  mark_failed,
}
use arbibot.Legs.Begin.{BeginEnv, begin_execution_of_plan}
use arbibot.Legs.Send.{
  OnChainMeta, TerminalState, begin_mark_sent, complete_mark_sent, fail_submitting_leg,
  apply_terminal_submit_error,
}
use arbibot.Legs.Fill.{ApplyFill, mark_acknowledged, apply_fill_tx}
use arbibot.Reaper.{reap_stuck_leg}

pub data Action : Type 0 where
  creates : String → CreatePlan → Action
  links : String → String → Action
  arms : String → Action
  begins : BeginEnv → String → Action
  begins_send : Bool → String → String → Action
  completes_send : String → String → Option String → String → Option OnChainMeta → Action
  fails_send : String → String → Action
  terminates_send : String → String → TerminalState → Action
  acknowledges : String → String → Action
  fills : String → String → ApplyFill → Action
  completes : String → Action
  fails : FailReason → String → Action
  reaps : String → Action

-- The world after an action, whether it returned or threw.
unfoldable pub step : Call → Action → World → World
step call (creates id dto) w = after (create_plan call id dto w)
step call (links plan reservation) w =
    after (transaction (link_reservation_tx call plan reservation) w)
step call (arms plan) w = after (transaction (arm_tx call plan) w)
step call (begins env plan) w = after (begin_execution_of_plan env call plan w)
step call (begins_send halted plan leg) w = after (begin_mark_sent halted call plan leg w)
step call (completes_send plan leg correlation order meta) w =
    after (complete_mark_sent call plan leg correlation order meta w)
step call (fails_send plan leg) w = after (fail_submitting_leg call plan leg w)
step call (terminates_send plan leg state) w =
    after (apply_terminal_submit_error call plan leg state w)
step call (acknowledges plan leg) w = after (mark_acknowledged call plan leg w)
step call (fills plan leg dto) w = after (apply_fill_tx call plan leg dto w)
step call (completes plan) w = after (try_mark_plan_completed call plan w)
step call (fails reason plan) w = after (mark_failed call reason plan w)
step call (reaps leg) w = after (reap_stuck_leg call leg w)

unfoldable pub run : List (Call × Action) → World → World
unfolding step
run [] w = w
run ((call, action) ∷ rest) w = run rest (step call action w)
