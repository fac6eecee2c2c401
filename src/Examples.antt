-- ===== src/Examples.antt =====
-- Concrete rows of apps/execution-orchestrator and a history of its transactions, for the runs below.
pub mod History
pub mod PlanRuns
pub mod LegRuns
pub mod BeginRuns
pub mod Ends
pub mod CapitalRuns
pub mod CeilingRuns
pub mod PositionRuns
pub mod PaperRuns
pub mod RelayRuns
pub mod RiskRuns
use arbibot.Store.Exec.{record_audit, Reply, returned, after, find_plan}
use arbibot.Store.Outcome.{ok}
use arbibot.Legs.Cost.{is_live_leg}
use arbibot.Legs.Send.{find_leg_of_plan, begin_mark_sent}
use arbibot.Base.{
  str_eq_iff, save_row, find_key, str_eq, ◌++◌, ℕ, ◌≤◌, ◌≢◌, String, ◌≡◌, refl, false, none, some,
  List, [], ◌∷◌, arith, rows_under, All,
}
use arbibot.Store.Types.{
  armed, create_multi_leg_plan, Plan, PlanState, executing, Leg, LegState, created, World, Call,
  leg_key, filled, planned, reserved,
}
use arbibot.Plans.Lifecycle.{
  arm_tx, link_reservation_tx, link_reservation_of_plan, arm, armed_event, manual,
}
use arbibot.Legs.Fill.{ApplyFill, full}
use arbibot.Interleaving.{
  run, Action, begins_send, completes_send, acknowledges, fills, fails, reaps,
}
use arbibot.Interleaving.Broadcast.{broadcasts, broadcast_once}
use arbibot.Interleaving.Invariants.{
  Bounded, run-Bounded, Pinned, version_pins_leg, Rests, terminal_leg_final,
}
use arbibot.Plans.Guards.{
  assert_reservation_matches, expires_later, assert_reservation_active, load_reservation_twice,
  correlation_matches, assert_approved_risk, Remote, approved, active,
}
use arbibot.Plans.Linking.{link_reservation_sound, arm_sound}
use arbibot.Interleaving.Closure.{Issued}

abbrev pub call : Call
call = record { now = 100; uuid = "m-1" }

abbrev pub plan_in : PlanState → Plan
plan_in s = record {
  id = "p1";
  correlation_id = some "c1";
  state = s;
  capital_reservation_id = some "r1";
  risk_decision_id = some "d1";
  route_key = none;
  entity_version = 3;
  playbook_config = none;
  cost_breakdown = none;
  updated_at = 0;
}

abbrev pub leg_in : String → LegState → ℕ → Leg
leg_in i s q = record {
  id = i;
  plan_id = "p1";
  leg_index = 0;
  state = s;
  entity_version = 2;
  venue_ref = none;
  leg_type = "dex";
  chain_id = none;
  target_quantity = 10;
  filled_quantity = q;
  cost = none;
  updated_at = 0;
}

abbrev pub world : Plan → List Leg → World
world p legs = record {
  db = record { plans = p ∷ []; legs = legs; txs = []; outbox = []; fills = [] };
  audit = [];
}

abbrev pub running : World
running = world (plan_in executing) (leg_in "l1" created 0 ∷ leg_in "l2" created 0 ∷ [])

abbrev pub fill_all : ApplyFill
fill_all = record {
  idempotency_key = some "k1";
  client_known_version = none;
  mode = some full;
  cumulative_filled = none;
}

-- Two racing requests to send, a reaper that comes too late, and a fill.
abbrev pub history : List (Call × Action)
history =
    (call, begins_send false "p1" "l1")
    ∷ (call, begins_send false "p1" "l1")
    ∷ (call, completes_send "p1" "l1" none "order-1" none)
    ∷ (call, reaps "l1")
    ∷ (call, acknowledges "p1" "l1")
    ∷ (call, fills "p1" "l1" fill_all)
    ∷ (call, fails manual "p1")
    ∷ []
