-- ===== src/Plans/Lifecycle.antt =====
-- plans.service.ts: create, linkReservation, arm, tryMarkPlanCompletedWhenAllLegsFilled, markFailed.
use arbibot.Base.{
  ◌||◌, ◌==◌, ◌&&◌, ◌+◌, String, Bool, true, false, not, Option, none, some, List, map, any, keep,
  str_eq, non_empty, trim, length, if◌then◌else◌,
}
use arbibot.Json.{num, str, obj, field, end, text_or_null}
use arbibot.Store.Types.{
  Plan, PlanState, planned, reserved, armed, executing, completed, failed, Leg, LegState, created,
  submitting, partially_filled, filled, leg_failed, OutboxEvent, plan_armed, plan_completed,
  plan_failed, World, Call, link_reservation, arm_plan, mark_plan_completed, mark_plan_failed,
}
use arbibot.Store.Outcome.{not_found, conflict}
use arbibot.Store.Exec.{
  insert_plan, answer, Exec, pure, ◌>>=◌, ◌>>◌, gets, modify, require, check, transaction,
  find_plan, put_plan, put_event, record_audit,
}
use arbibot.Plans.Guards.{
  Remote, assert_approved_risk, keep_not_found, as_conflict, load_reservation_twice,
  assert_reservation_active, assert_reservation_matches,
}

abbrev pub is_planned : PlanState → Bool
is_planned planned = true
is_planned _ = false

abbrev pub is_reserved : PlanState → Bool
is_reserved reserved = true
is_reserved _ = false

abbrev pub is_executing : PlanState → Bool
is_executing executing = true
is_executing _ = false

-- `CreatePlanDto`.
pub record CreatePlan : Type 0 where
  pub correlation_id : Option String
  pub risk_decision_id : Option String
  pub route_key : Option String

abbrev pub trim_option : Option String → Option String
trim_option none = none
trim_option (some s) = some (trim s)

-- `create`: the row that is saved under the id that the database generates.
unfoldable pub create_plan : Call → String → CreatePlan → Exec Plan
create_plan call id dto =
    let plan : Plan = record {
      id = id;
      correlation_id = dto.correlation_id;
      state = planned;
      capital_reservation_id = none;
      risk_decision_id = dto.risk_decision_id;
      route_key = trim_option dto.route_key;
      entity_version = 1;
      playbook_config = none;
      cost_breakdown = none;
      updated_at = call.now;
    } in
    do modify (insert_plan plan); pure plan

-- The transaction of `linkReservation`.
unfoldable pub link_reservation_tx : Call → String → String → Exec Plan
link_reservation_tx call plan_id reservation_id = do
  found ← gets (find_plan plan_id)
  plan ← require found not_found
  check (is_planned plan.state) conflict
  let saved : Plan = record plan {
    capital_reservation_id = some reservation_id;
    state = reserved;
    entity_version = plan.entity_version + 1;
    updated_at = call.now;
  }
  modify (put_plan saved)
  modify (record_audit link_reservation saved.id none)
  pure saved

-- `linkReservation`. `others` is what other requests commit between the checks and the transaction.
unfoldable pub link_reservation_of_plan :
    Remote → Call → (World → World) → String → String → Exec Plan
link_reservation_of_plan remote call others plan_id reservation_id = do
  found ← gets (find_plan plan_id)
  peek ← require found not_found
  check (is_planned peek.state) conflict
  answer (assert_approved_risk remote peek)
  res ← answer (load_reservation_twice remote reservation_id keep_not_found)
  answer (assert_reservation_active remote.now res)
  answer (assert_reservation_matches peek res)
  modify others
  transaction (link_reservation_tx call plan_id reservation_id)

-- The envelope's correlation id: the plan's where it is not empty, else the plan's own id.
unfoldable pub armed_correlation : Plan → String
armed_correlation plan = elim plan.correlation_id [
  | none ↦ plan.id
  | some c ↦ if non_empty c then c else plan.id
]

unfoldable pub trimmed_correlation : Plan → String
trimmed_correlation plan = elim plan.correlation_id [
  | none ↦ plan.id
  | some c ↦ if non_empty (trim c) then c else plan.id
]

unfoldable pub armed_event : Call → Plan → OutboxEvent
armed_event call plan = record {
  message_id = call.uuid;
  event_type = plan_armed;
  entity_id = plan.id;
  schema_version = 1;
  payload = obj (
      field "planId" (str plan.id) (
        field "state" (str "armed") (
          field "capitalReservationId" (text_or_null plan.capital_reservation_id) (
            field "riskDecisionId" (text_or_null plan.risk_decision_id)
              (field "entityVersion" (num plan.entity_version) end)))));
  envelope_correlation_id = armed_correlation plan;
  created_at = call.now;
  processed_at = none;
}

-- The transaction of `arm`.
unfoldable pub arm_tx : Call → String → Exec Plan
arm_tx call plan_id = do
  found ← gets (find_plan plan_id)
  plan ← require found not_found
  check (is_reserved plan.state) conflict
  require plan.capital_reservation_id conflict
  let saved : Plan = record plan {
    state = armed;
    entity_version = plan.entity_version + 1;
    updated_at = call.now;
  }
  modify (put_plan saved)
  modify (put_event (armed_event call saved))
  modify (record_audit arm_plan saved.id (some saved.entity_version))
  pure saved

unfoldable pub arm : Remote → Call → (World → World) → String → Exec Plan
arm remote call others plan_id = do
  found ← gets (find_plan plan_id)
  peek ← require found not_found
  check (is_reserved peek.state) conflict
  reservation_id ← require peek.capital_reservation_id conflict
  answer (assert_approved_risk remote peek)
  res ← answer (load_reservation_twice remote reservation_id as_conflict)
  answer (assert_reservation_active remote.now res)
  answer (assert_reservation_matches peek res)
  modify others
  transaction (arm_tx call plan_id)

-- `em.find(ExecutionLegEntity, { where: { planId } })`.
unfoldable pub legs_of : String → List Leg → List Leg
unfolding keep
legs_of plan_id legs = keep (λ l. str_eq l.plan_id plan_id) legs

abbrev pub is_filled : LegState → Bool
is_filled filled = true
is_filled _ = false

unfoldable pub completed_event : Call → Plan → OutboxEvent
completed_event call plan = record {
  message_id = call.uuid;
  event_type = plan_completed;
  entity_id = plan.id;
  schema_version = 1;
  payload = obj (
      field "planId" (str plan.id) (
        field "state" (str "completed") (
          field "entityVersion" (num plan.entity_version)
            (field "capitalReservationId" (text_or_null plan.capital_reservation_id) end))));
  envelope_correlation_id = trimmed_correlation plan;
  created_at = call.now;
  processed_at = none;
}

-- `{ completed, plan }` and `{ failed, plan }` of the source.
pub record Outcome : Type 0 where
  pub done : Bool
  pub plan : Option Plan

complete_plan : Call → Plan → Exec Outcome
complete_plan call plan =
    let saved : Plan = record plan {
      state = completed;
      entity_version = plan.entity_version + 1;
      updated_at = call.now;
    } in
    do
      modify (put_plan saved)
      modify (put_event (completed_event call saved))
      modify (record_audit mark_plan_completed saved.id (some saved.entity_version))
      pure (record { done = true; plan = some saved })

complete_if_executing : Call → Option Plan → Exec Outcome
unfolding complete_plan
complete_if_executing call none = pure (record { done = false; plan = none })
complete_if_executing call (some plan) =
    if is_executing plan.state
    then complete_plan call plan
    else pure (record { done = false; plan = some plan })

unfoldable pub try_mark_plan_completed : Call → String → Exec Outcome
unfolding complete_if_executing
try_mark_plan_completed call plan_id = transaction do
  legs ← gets (λ w. legs_of plan_id w.legs)
  if length legs == 0 || any (λ l. not (is_filled l.state)) legs
      then pure (record { done = false; plan = none })
      else do found ← gets (find_plan plan_id); complete_if_executing call found

pub data FailReason : Type 0 where
  stuck_reaper manual : FailReason

abbrev pub reason_text : FailReason → String
reason_text stuck_reaper = "stuck_reaper"
reason_text manual = "manual"

unfoldable pub failed_event : Call → FailReason → Plan → OutboxEvent
failed_event call reason plan = record {
  message_id = call.uuid;
  event_type = plan_failed;
  entity_id = plan.id;
  schema_version = 1;
  payload = obj (
      field "planId" (str plan.id) (
        field "state" (str "failed") (
          field "entityVersion" (num plan.entity_version) (
            field "capitalReservationId" (text_or_null plan.capital_reservation_id)
              (field "reason" (str (reason_text reason)) end)))));
  envelope_correlation_id = trimmed_correlation plan;
  created_at = call.now;
  processed_at = none;
}

-- The states that `markFailed` sweeps.
abbrev pub is_swept : LegState → Bool
is_swept created = true
is_swept submitting = true
is_swept partially_filled = true
is_swept _ = false

-- The sweep of `markFailed`: each leg of the plan in such a state becomes `failed`.
unfoldable pub sweep_leg : Call → String → Leg → Leg
sweep_leg call plan_id leg =
    if str_eq leg.plan_id plan_id && is_swept leg.state
    then record leg {
      state = leg_failed;
      entity_version = leg.entity_version + 1;
      updated_at = call.now;
    }
    else leg

abbrev pub may_fail : PlanState → Bool
may_fail armed = true
may_fail executing = true
may_fail _ = false

fail_plan : Call → FailReason → Plan → Exec Outcome
unfolding sweep_leg
fail_plan call reason plan =
    let saved : Plan = record plan {
      state = failed;
      entity_version = plan.entity_version + 1;
      updated_at = call.now;
    } in
    do
      modify (put_plan saved)
      modify (λ w. record w { db = record w.db { legs = map (sweep_leg call plan.id) w.legs } })
      modify (put_event (failed_event call reason saved))
      modify (record_audit mark_plan_failed saved.id (some saved.entity_version))
      pure (record { done = true; plan = some saved })

fail_if_running : Call → FailReason → Option Plan → Exec Outcome
unfolding fail_plan
fail_if_running call reason none = pure (record { done = false; plan = none })
fail_if_running call reason (some plan) =
    if may_fail plan.state
    then fail_plan call reason plan
    else pure (record { done = false; plan = some plan })

unfoldable pub mark_failed : Call → FailReason → String → Exec Outcome
unfolding fail_if_running
mark_failed call reason plan_id =
    transaction do found ← gets (find_plan plan_id); fail_if_running call reason found
