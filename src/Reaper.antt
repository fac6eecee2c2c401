-- ===== src/Reaper.antt =====
-- legs/stuck-plan-reaper.worker.ts: stuck `submitting` legs and stuck plans.
use arbibot.Base.{
  String, Bool, false, ◌&&◌, Option, none, some, str_eq, any, non_empty, if◌then◌else◌,
}
use arbibot.Store.Types.{Leg, sent, leg_failed, World, Call}
use arbibot.Store.Exec.{Exec, pure, ◌>>=◌, ◌>>◌, gets, modify, transaction, find_leg, put_leg}
use arbibot.Plans.Lifecycle.{mark_failed, stuck_reaper}
use arbibot.Legs.Send.{is_submitting, move_leg}
use arbibot.Legs.Fill.{confirmed_tx}

pub data Reaped : Type 0 where
  already_advanced recovered reaped_failed : Reaped

-- `fresh.venueRef`, or the hash where there is none yet.
abbrev pub venue_ref_or : Option String → String → Option String
venue_ref_or none hash = some hash
venue_ref_or (some v) hash = if non_empty v then some v else some hash

reap_found_leg : Call → Option Leg → Exec Reaped
unfolding confirmed_tx non_empty
reap_found_leg call none = pure already_advanced
reap_found_leg call (some leg) =
    if is_submitting leg.state
    then (do
      tx ← gets (λ w. confirmed_tx leg.id w.txs)
      elim tx [
        | some t ↦ do
          modify (
              put_leg (record (move_leg call sent leg) {
                venue_ref = venue_ref_or leg.venue_ref t.tx_hash;
              }))
          pure recovered
        | none ↦ do modify (put_leg (move_leg call leg_failed leg)); pure reaped_failed
      ])
    else pure already_advanced

-- `reapStuckLeg`: the transaction.
unfoldable pub reap_stuck_leg : Call → String → Exec Reaped
unfolding reap_found_leg
reap_stuck_leg call leg_id =
    transaction do found ← gets (find_leg leg_id); reap_found_leg call found

-- `planHasPendingOnChainTx`: a `submitting` leg of the plan with any transaction row.
unfoldable pub plan_has_pending_tx : String → World → Bool
unfolding any str_eq
plan_has_pending_tx plan_id w =
    any
      (λ l.
        (str_eq l.plan_id plan_id && is_submitting l.state)
        && any (λ t. str_eq t.leg_id l.id) w.txs)
      w.legs

-- One plan of the auto-fail loop; `true` if it was failed.
unfoldable pub auto_fail_plan : Call → String → Exec Bool
unfolding plan_has_pending_tx mark_failed
auto_fail_plan call plan_id = do
  pending ← gets (plan_has_pending_tx plan_id)
  if pending
      then pure false
      else do outcome ← mark_failed call stuck_reaper plan_id; pure outcome.done
