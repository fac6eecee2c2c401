-- ===== src/Interleaving/PlanMoves.antt =====
-- The state machine of a plan: each transaction moves at most one plan of the table, along `PlanMove`.
use arbibot.Base.{
  ◌==◌, ◌||◌, any, not, length, ◌+◌, String, ◌≡◌, ap, ◌∙◌, inl, inr, ◌⊎◌, true, some, List, map,
  Occurs, find_key-Occurs, Option-cases, Bool-cases, arith, save_row,
}
use arbibot.Store.Types.{
  Plan, PlanState, planned, reserved, armed, executing, completed, failed, PlanCostBreakdown, World,
  Call, plan_key,
}
use arbibot.Store.Exec.{after, Reply-cases, transaction, find_plan, insert_legs, put_plan}
use arbibot.Plans.Lifecycle.{
  legs_of, is_filled, link_reservation_tx, arm_tx, try_mark_plan_completed, FailReason, mark_failed,
  may_fail, is_planned, is_reserved, is_executing,
}
use arbibot.Plans.Failing.{mark_failed_cases}
use arbibot.Legs.Begin.{BeginEnv, begin_execution_of_plan}
use arbibot.Legs.BeginEffects.{
  started_plan, apply_plan_cost_gate-returned, begin_execution-returned, begin_execution-threw,
}
use arbibot.Legs.Beginning.{save_legs-plans}
use arbibot.Legs.Cost.{price_leg}

-- The plan at its next version in another state.
abbrev pub move_plan : Call → PlanState → Plan → Plan
move_plan call state p = record p {
  state = state;
  entity_version = p.entity_version + 1;
  updated_at = call.now;
}

pub data PlanMove (call : Call) (p : Plan) : Plan → Type 0 where
  link :
      (r : String)
      → p.state ≡ planned
      → PlanMove call p (record (move_plan call reserved p) { capital_reservation_id = some r })
  arm :
      (r : String)
      → p.state ≡ reserved
      → p.capital_reservation_id ≡ some r
      → PlanMove call p (move_plan call armed p)
  begin : p.state ≡ armed → PlanMove call p (move_plan call executing p)
  complete : p.state ≡ executing → PlanMove call p (move_plan call completed p)
  fail : may_fail p.state ≡ true → PlanMove call p (move_plan call failed p)
  value : (b : PlanCostBreakdown) → PlanMove call p (record p { cost_breakdown = some b })

-- Nothing changed, or one plan that was found moved.
pub data Touches (call : Call) (before after_plans : List Plan) : Type 0 where
  untouched : after_plans ≡ before → Touches call before after_plans
  moved :
      {p p' : Plan}
      → Occurs p before
      → PlanMove call p p'
      → after_plans ≡ save_row plan_key p' before
      → Touches call before after_plans

module _ (call : Call) (w : World) where
  pub link_reservation_tx-Touches :
      (plan_id reservation : String)
      → Touches call w.plans
          (after (transaction (link_reservation_tx call plan_id reservation) w)).plans
  unfolding link_reservation_tx
  link_reservation_tx-Touches plan_id reservation = elim (Option-cases (find_plan plan_id w)) [
    | inl missing ↦ untouched (ground arith)
    | inr (p, found) ↦ elim (Bool-cases (is_planned p.state)) [
      | inr other ↦ untouched (ground arith)
      | inl state ↦
          moved (find_key-Occurs plan_key plan_id w.plans found) (link reservation (ground arith))
            (ground arith)
    ]
  ]

  pub arm_tx-Touches :
      (plan_id : String) → Touches call w.plans (after (transaction (arm_tx call plan_id) w)).plans
  unfolding arm_tx
  arm_tx-Touches plan_id = elim (Option-cases (find_plan plan_id w)) [
    | inl missing ↦ untouched (ground arith)
    | inr (p, found) ↦ elim (Bool-cases (is_reserved p.state)) [
      | inr other ↦ untouched (ground arith)
      | inl state ↦ elim (Option-cases p.capital_reservation_id) [
        | inl unlinked ↦ untouched (ground arith)
        | inr (r, linked) ↦
            moved (find_key-Occurs plan_key plan_id w.plans found) (arm r (ground arith) linked)
              (ground arith)
      ]
    ]
  ]

  pub try_mark_plan_completed-Touches :
      (plan_id : String)
      → Touches call w.plans (after (try_mark_plan_completed call plan_id w)).plans
  unfolding try_mark_plan_completed
  try_mark_plan_completed-Touches plan_id = elim (Option-cases (find_plan plan_id w)) [
    | inl missing ↦ untouched (ground arith)
    | inr (p, found) ↦ elim (Bool-cases (is_executing p.state)) [
      | inr other ↦ untouched (ground arith)
      | inl state ↦
          let legs = legs_of plan_id w.legs in
          elim (Bool-cases (length legs == 0 || any (λ l. not (is_filled l.state)) legs)) [
            | inl stop ↦ untouched (ground arith)
            | inr go ↦
                moved (find_key-Occurs plan_key plan_id w.plans found) (complete (ground arith))
                  (ground arith)
          ]
    ]
  ]

  pub mark_failed-Touches :
      (reason : FailReason) (plan_id : String)
      → Touches call w.plans (after (mark_failed call reason plan_id w)).plans
  mark_failed-Touches reason plan_id = elim (mark_failed_cases call reason plan_id w) [
    | inl (p, found, running, e) ↦
        moved (find_key-Occurs plan_key plan_id w.plans found) (fail running)
          (ap (λ r. (after r).plans) e)
    | inr (e, why) ↦ untouched (ap (λ r. (after r).plans) e)
  ]

  -- `beginExecution` moves the plan once, or twice where its cost is stored.
  pub begin_execution-moves :
      (env : BeginEnv) (plan_id : String)
      → let plans = (after (begin_execution_of_plan env call plan_id w)).plans in
        (plans ≡ w.plans)
        ⊎ ((p : Plan) × (find_plan plan_id w ≡ some p)
            × (p.state ≡ armed)
            × ((plans ≡ save_row plan_key (started_plan call p) w.plans)
                ⊎ ((b : PlanCostBreakdown) × (plans
                      ≡ save_row plan_key
                          (record (started_plan call p) { cost_breakdown = some b })
                          (save_row plan_key (started_plan call p) w.plans)))))
  begin_execution-moves env plan_id =
      elim (Reply-cases (begin_execution_of_plan env call plan_id w)) [
        | inr (x, e) ↦ inl (ap (λ d. d.plans) (begin_execution-threw env call plan_id w e))
        | inl (r, e) ↦
            let (p, legs, v, found, state, _, _, gate, same) =
              begin_execution-returned env call plan_id w e in
            let started = started_plan call p in
            let start = insert_legs legs (put_plan started w) in
            inr (
              p,
              found,
              state,
              elim (apply_plan_cost_gate-returned env.estimate env.min_net_profit started legs start
                  gate) [
                    | inl nothing ↦ inl (ap (λ d. d.plans) same ∙ ap (λ u. u.plans) nothing)
                    | inr (b, _, stored) ↦ inr (
                      b,
                      ap (λ d. d.plans) same
                          ∙ ap (λ u. u.plans) stored
                          ∙ ap (save_row plan_key (record started { cost_breakdown = some b }))
                              (save_legs-plans (map (price_leg b) legs) start),
                    )
                  ],
            )
      ]
