-- ===== src/Examples/History.antt =====
-- The invariants of histories, at a concrete history.
use arbibot.Legs.Cost.{is_live_leg}
use arbibot.Legs.Send.{find_leg_of_plan, begin_mark_sent}
use arbibot.Base.{
  str_eq_iff, save_row, find_key, str_eq, ◌≤◌, ◌≢◌, String, ◌≡◌, refl, [], ◌∷◌, arith, rows_under,
  All, ◌⊎◌, false,
}
use arbibot.Store.Types.{executing, created, World, leg_key, filled}
use arbibot.Interleaving.{run}
use arbibot.Interleaving.Recovery.{has_tx, reaper_never_recovers}
use arbibot.Reaper.{reaped_failed, reap_stuck_leg}
use arbibot.Store.Exec.{after, returned}
use arbibot.Interleaving.Broadcast.{broadcasts, broadcast_once}
use arbibot.Interleaving.Invariants.{
  Bounded, run-Bounded, Pinned, version_pins_leg, Rests, terminal_leg_final,
}
use arbibot.Interleaving.Closure.{Issued}
use arbibot.Examples.{call, plan_in, leg_in, world, running, history}

history-Issued : (P : String → Type 0) → Issued P history
history-Issued P = (tt, (tt, (tt, (tt, (tt, (tt, (tt, tt)))))))

one_row : rows_under leg_key "l1" running.legs ≤ 1
unfolding rows_under str_eq
one_row = omega arith

one_broadcast : broadcasts "l1" history running ≡ 1
unfolding broadcasts str_eq begin_mark_sent find_key find_leg_of_plan is_live_leg save_row
one_broadcast = refl

broadcast_once_example : broadcasts "l1" history running ≤ 1
broadcast_once_example =
    broadcast_once "l1" history running (history-Issued (λ j. j ≢ "l1")) one_row

other_id : ◌≢◌ {A = String} "l2" "l1"
unfolding str_eq
other_id same = let hit = (str_eq_iff "l2" "l1").1 same in absurd (cc hit)

running-Bounded : All Bounded running.legs
unfolding Bounded
running-Bounded = ((omega arith, λ e. absurd (cc e)), ((omega arith, λ e. absurd (cc e)), tt))

run-Bounded_example : All Bounded (run history running).legs
run-Bounded_example = run-Bounded history running running-Bounded

running-Pinned : All (Pinned "l1" 2 created 0) running.legs
unfolding Pinned
running-Pinned = (
  (running-Bounded.0, λ same. (omega arith, omega arith, λ _. (refl, refl))),
  ((running-Bounded.1.0, λ same. absurd (other_id same)), tt),
)

version_pins_leg_example : All (Pinned "l1" 2 created 0) (run history running).legs
version_pins_leg_example =
    version_pins_leg "l1" 2 created 0 history running (history-Issued (λ j. j ≢ "l1"))
      running-Pinned

abbrev settled : World
settled = world (plan_in executing) (leg_in "l1" filled 10 ∷ leg_in "l2" created 0 ∷ [])

settled-Rests : All (Rests "l1" filled) settled.legs
unfolding Rests
settled-Rests = ((λ same. refl), ((λ same. absurd (other_id same)), tt))

terminal_leg_final_example : All (Rests "l1" filled) (run history settled).legs
terminal_leg_final_example =
    terminal_leg_final "l1" filled history settled refl (history-Issued (λ j. j ≢ "l1"))
      settled-Rests

no_tx : has_tx "l1" running.txs ≡ false
unfolding has_tx
no_tx = refl

reaper_never_recovers_example :
    ((after (reap_stuck_leg call "l1" (run history running))).db ≡ (run history running).db)
    ⊎ (reap_stuck_leg call "l1" (run history running)
        ≡ returned reaped_failed (after (reap_stuck_leg call "l1" (run history running))))
reaper_never_recovers_example =
    reaper_never_recovers "l1" history call running (history-Issued (λ j. j ≢ "l1")) one_row no_tx
