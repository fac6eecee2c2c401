-- ===== src/Examples/PlanRuns.antt =====
-- Runs of plans.service.ts.
use arbibot.Store.Exec.{record_audit, Reply, returned, after, find_plan}
use arbibot.Store.Outcome.{ok}
use arbibot.Base.{
  true, find_key, str_eq, ◌++◌, ◌≢◌, ◌≡◌, refl, false, none, some, [], ◌∷◌, All, ◌⊎◌, map, Option,
}
use arbibot.Store.Types.{
  armed, create_multi_leg_plan, Plan, executing, World, filled, planned, reserved,
}
use arbibot.Plans.Lifecycle.{
  arm_tx, link_reservation_tx, link_reservation_of_plan, arm, armed_event, manual, stuck_reaper,
  mark_failed, sweep_leg, legs_of, is_executing, completed_event, try_mark_plan_completed,
}
use arbibot.Plans.Guards.{
  assert_reservation_matches, expires_later, assert_reservation_active, load_reservation_twice,
  correlation_matches, assert_approved_risk, Remote, approved, active,
}
use arbibot.Plans.Linking.{link_reservation_sound, arm_sound}
use arbibot.Plans.Completion.{completed_plan, IsUnfilled, try_mark_plan_completed_exact}
use arbibot.Plans.Failing.{mark_failed_sweeps, mark_failed_twice}
use arbibot.Examples.{call, plan_in, leg_in, world, running}

abbrev remote : Remote
remote = record {
  get_risk_decision = λ i. ok (record { id = i; correlation_id = "c1"; outcome = approved });
  first_reservation = λ i. ok (record {
    id = i;
    state = active;
    plan_id = some "p1";
    correlation_id = some "c1";
    expires_at = some 900;
  });
  second_reservation = λ i. ok (record {
    id = i;
    state = active;
    plan_id = some "p1";
    correlation_id = some "c1";
    expires_at = some 900;
  });
  now = 100;
}

-- What another request commits in between.
abbrev others : World → World
others w = record_audit create_multi_leg_plan "p2" none w

abbrev planned_world : World
planned_world = world (plan_in planned) []

abbrev linked : Reply Plan
linked = link_reservation_of_plan remote call others "p1" "r1" planned_world

abbrev linked_plan : Plan
linked_plan = record (plan_in planned) { state = reserved; entity_version = 4; updated_at = 100 }

link_succeeds : linked ≡ returned linked_plan (after linked)
unfolding link_reservation_of_plan find_key str_eq assert_approved_risk correlation_matches
    load_reservation_twice assert_reservation_active expires_later assert_reservation_matches
    link_reservation_tx
link_succeeds = refl

link_reservation_sound_example : find_plan "p1" (after linked) ≡ some linked_plan
link_reservation_sound_example =
    (link_reservation_sound remote call others "p1" "r1" planned_world link_succeeds).9

abbrev reserved_world : World
reserved_world = world (plan_in reserved) []

abbrev armed_reply : Reply Plan
armed_reply = arm remote call others "p1" reserved_world

abbrev armed_plan : Plan
armed_plan = record (plan_in reserved) { state = armed; entity_version = 4; updated_at = 100 }

arm_succeeds : armed_reply ≡ returned armed_plan (after armed_reply)
unfolding arm find_key str_eq assert_approved_risk correlation_matches load_reservation_twice
    assert_reservation_active expires_later assert_reservation_matches arm_tx
arm_succeeds = refl

arm_sound_example : (after armed_reply).outbox ≡ [] ++ armed_event call armed_plan ∷ []
arm_sound_example = (arm_sound remote call others "p1" reserved_world arm_succeeds).14

abbrev all_filled : World
all_filled = world (plan_in executing) (leg_in "l1" filled 10 ∷ leg_in "l2" filled 10 ∷ [])

try_mark_plan_completed_exact_example :
    ((plan : Plan) × (w' : World) × (find_plan "p1" all_filled ≡ some plan)
      × (plan.state ≡ executing)
      × (legs_of "p1" all_filled.legs ≢ [])
      × All (λ l. l.state ≡ filled) (legs_of "p1" all_filled.legs)
      × (try_mark_plan_completed call "p1" all_filled
          ≡ returned (record { done = true; plan = some (completed_plan call plan) }) w')
      × (find_plan "p1" w' ≡ some (completed_plan call plan))
      × (w'.outbox ≡ all_filled.outbox ++ completed_event call (completed_plan call plan) ∷ [])
      × (w'.legs ≡ all_filled.legs))
    ⊎ ((plan : Option Plan) × (try_mark_plan_completed call "p1" all_filled
          ≡ returned (record { done = false; plan = plan }) all_filled)
        × (IsUnfilled (legs_of "p1" all_filled.legs)
            ⊎ (find_plan "p1" all_filled ≡ none)
            ⊎ ((p : Plan) × (find_plan "p1" all_filled ≡ some p) × (is_executing p.state ≡ false))))
try_mark_plan_completed_exact_example = try_mark_plan_completed_exact call "p1" all_filled

found_running : find_plan "p1" running ≡ some (plan_in executing)
unfolding find_key str_eq
found_running = refl

mark_failed_sweeps_example :
    (after (mark_failed call manual "p1" running)).legs ≡ map (sweep_leg call "p1") running.legs
mark_failed_sweeps_example = (mark_failed_sweeps call manual "p1" running found_running refl).4

mark_failed_twice_example :
    mark_failed call manual "p1" (after (mark_failed call stuck_reaper "p1" running))
    ≡ returned
        (record {
          done = false;
          plan = find_plan "p1" (after (mark_failed call stuck_reaper "p1" running));
        })
        (after (mark_failed call stuck_reaper "p1" running))
mark_failed_twice_example = mark_failed_twice call call stuck_reaper manual "p1" running
