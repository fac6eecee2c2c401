-- ===== src/Examples/BeginRuns.antt =====
-- Runs of `beginExecution` of legs.service.ts.
use arbibot.Base.{find_key, ◌≡◌, refl, true, false, none, some, List, [], any, find_by, str_eq}
use arbibot.Base.Int.{ℤ, pos, ltb_ℤ}
use arbibot.Json.{num, str, arr, obj, nil, cons, end, field}
use arbibot.Store.Types.{Plan, armed, Leg, World, PlanCostBreakdown, modeled}
use arbibot.Store.Outcome.{Result, ok, err}
use arbibot.Store.Exec.{Reply, returned, threw, after, find_plan}
use arbibot.Legs.Begin.{BeginEnv, new_legs, begin_execution_of_plan}
use arbibot.Legs.BeginEffects.{started_plan}
use arbibot.Legs.Beginning.{live_plan_passes_gate}
use arbibot.Legs.Cost.{apply_plan_cost_gate, is_live_leg, is_unavailable}
use arbibot.Examples.{call, plan_in, world}

-- A plan of one leg on a DEX.
abbrev dex_plan : Plan
dex_plan = record (plan_in armed) {
  playbook_config = some (
      obj (
        field "schemaVersion" (num 1) (
          field "legs"
            (arr (
              cons
                (obj (
                  field "legIndex" (num 0) (
                    field "legType" (str "dex")
                      (field "venueKey" (str "uniswap-v3") (field "targetQuantity" (num 5) end)))))
                nil))
            end)));
}

abbrev start : World
start = world dex_plan []

abbrev breakdown : PlanCostBreakdown
breakdown = record { legs = []; net_profit_usd = some (pos 7000000); estimate_confidence = modeled }

abbrev env : BeginEnv
env = record {
  fresh_id = λ n. "l1";
  begin_leg_count = none;
  estimate = λ p. ok breakdown;
  min_net_profit = ok (pos 5000000);
}

abbrev begun : Reply (Plan × List Leg)
begun = begin_execution_of_plan env call "p1" start

abbrev result : Reply (Plan × List Leg) → Plan × List Leg
result (returned r w) = r
result (threw e w) = (dex_plan, [])

begun_returned : begun ≡ returned (result begun) (after begun)
unfolding begin_execution_of_plan find_key str_eq find_by new_legs apply_plan_cost_gate
begun_returned = refl

found_start : find_plan "p1" start ≡ some dex_plan
unfolding find_key str_eq
found_start = refl

abbrev legs_made : Result (List Leg) → List Leg
legs_made (ok legs) = legs
legs_made (err e) = []

made :
    new_legs env call (started_plan call dex_plan)
    ≡ ok (legs_made (new_legs env call (started_plan call dex_plan)))
unfolding new_legs
made = refl

is_live :
    any
      (is_live_leg (started_plan call dex_plan))
      (legs_made (new_legs env call (started_plan call dex_plan)))
    ≡ true
unfolding any new_legs is_live_leg
is_live = refl

live_plan_passes_gate_example :
    (m : ℤ) × (env.min_net_profit ≡ ok m)
    × (is_unavailable breakdown.estimate_confidence ≡ false)
    × (elim breakdown.net_profit_usd [ none ↦ false | some net ↦ ltb_ℤ net m ] ≡ false)
live_plan_passes_gate_example =
    live_plan_passes_gate env call "p1" start begun_returned found_start made is_live refl
