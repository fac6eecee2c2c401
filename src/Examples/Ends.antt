-- ===== src/Examples/Ends.antt =====
-- How a leg and a plan end, at a concrete history.
use arbibot.Base.{str_eq, ◌≡◌, refl, ◌⊎◌, inr, [], All, ◌≤◌, rows_under, arith}
use arbibot.Store.Types.{completed, filled, World, leg_key}
use arbibot.Interleaving.{run}
use arbibot.Interleaving.Invariants.{Rests}
use arbibot.Interleaving.PlanInvariants.{Backed, run-Backed, Ended, terminal_plan_final}
use arbibot.Interleaving.Announcements.{announced}
use arbibot.Interleaving.FilledOnce.{filled_once}
use arbibot.Examples.{plan_in, world, running, history}

running-Backed : All Backed running.plans
unfolding Backed
running-Backed = (inr refl, tt)

run-Backed_example : All Backed (run history running).plans
run-Backed_example =
    run-Backed history running (tt, (tt, (tt, (tt, (tt, (tt, (tt, tt))))))) running-Backed

abbrev over : World
over = world (plan_in completed) []

over-Ended : All (Ended "p1" completed 3) over.plans
unfolding Ended
over-Ended = ((λ same. (refl, refl)), tt)

terminal_plan_final_example : All (Ended "p1" completed 3) (run history over).plans
terminal_plan_final_example =
    terminal_plan_final "p1" completed 3 history over refl
      (tt, (tt, (tt, (tt, (tt, (tt, (tt, tt))))))) over-Ended

few_rows : rows_under leg_key "l1" running.legs ≤ 1
unfolding rows_under str_eq
few_rows = omega arith

not_announced : announced "l1" running.outbox ≡ 0
unfolding announced
not_announced = refl

filled_once_example :
    (announced "l1" (run history running).outbox ≡ 0)
    ⊎ ((announced "l1" (run history running).outbox ≡ 1)
        × All (Rests "l1" filled) (run history running).legs)
filled_once_example =
    filled_once "l1" history running (tt, (tt, (tt, (tt, (tt, (tt, (tt, tt))))))) few_rows
      not_announced
