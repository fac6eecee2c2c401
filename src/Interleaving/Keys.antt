-- ===== src/Interleaving/Keys.antt =====
-- The primary key of execution_legs under every history.
use arbibot.Base.{
  ℕ, String, ◌≡◌, ◌≢◌, refl, sym, subst, ap, ◌∙◌, inl, inr, List, [], ◌∷◌, map, All, arith,
  rows_under, rows_under-append, rows_under-other, rows_under-save_other, rows_under-save_row,
}
use arbibot.Store.Types.{Leg, World, Call, PlanCostBreakdown, leg_key}
use arbibot.Store.Exec.{after, Reply-cases, insert_legs, put_plan, put_leg}
use arbibot.Plans.Lifecycle.{sweep_leg}
use arbibot.Legs.Begin.{BeginEnv, begin_execution_of_plan}
use arbibot.Legs.BeginEffects.{
  apply_plan_cost_gate-returned, begin_execution-returned, begin_execution-threw, new_legs-All,
  started_plan,
}
use arbibot.Legs.Cost.{price_leg, save_legs}
use arbibot.Interleaving.{
  Action, creates, links, arms, begins, begins_send, completes_send, fails_send, terminates_send,
  acknowledges, fills, completes, fails, reaps, step,
}
use arbibot.Interleaving.Moves.{
  LegMove-id, Touches, untouched, moved, begin_mark_sent-Touches, complete_mark_sent-Touches,
  fail_submitting_leg-Touches, apply_terminal_submit_error-Touches, mark_acknowledged-Touches,
  apply_fill_tx-Touches, reap_stuck_leg-Touches,
}
use arbibot.Interleaving.Closure.{
  Issues, create_plan-legs, link_reservation_tx-legs, arm_tx-legs, try_mark_plan_completed-legs,
  mark_failed-legs,
}

sweep_leg-id : (call : Call) (plan_id : String) (l : Leg) → (sweep_leg call plan_id l).id ≡ l.id
unfolding sweep_leg
sweep_leg-id call plan_id l = ground arith

price_leg-id : (b : PlanCostBreakdown) (l : Leg) → (price_leg b l).id ≡ l.id
unfolding price_leg
price_leg-id b l = ground arith

module _ (i : String) where
  Touches-rows :
      {call : Call} (before after_legs : List Leg)
      → Touches call before after_legs
      → rows_under leg_key i after_legs ≡ rows_under leg_key i before
  Touches-rows before after_legs (untouched same) = ap (rows_under leg_key i) same
  Touches-rows {call} before after_legs (moved {l} {l'} occurs move saved) =
      ap (rows_under leg_key i) saved
      ∙ rows_under-save_row leg_key i l' before occurs (LegMove-id call l l' move)

  swept-rows :
      (call : Call) (plan_id : String) (legs : List Leg)
      → rows_under leg_key i (map (sweep_leg call plan_id) legs) ≡ rows_under leg_key i legs
  unfolding rows_under
  swept-rows call plan_id [] = refl
  swept-rows call plan_id (l ∷ legs) =
      ground (arith, swept-rows call plan_id legs, sweep_leg-id call plan_id l)

  save_legs-rows :
      (legs : List Leg) (w : World)
      → All (λ l. l.id ≢ i) legs
      → rows_under leg_key i (save_legs legs w).legs ≡ rows_under leg_key i w.legs
  unfolding save_legs
  save_legs-rows [] w h = refl
  save_legs-rows (l ∷ legs) w h =
      save_legs-rows legs (put_leg l w) h.1 ∙ rows_under-save_other leg_key i l w.legs h.0

  priced-other :
      (b : PlanCostBreakdown) (legs : List Leg)
      → All (λ l. l.id ≢ i) legs
      → All (λ l. l.id ≢ i) (map (price_leg b) legs)
  priced-other b [] h = tt
  priced-other b (l ∷ legs) h =
      (subst (λ j. j ≢ i) (sym (price_leg-id b l)) h.0, priced-other b legs h.1)

  begin_execution-rows :
      (env : BeginEnv) (call : Call) (plan_id : String) (w : World)
      → ((n : ℕ) → env.fresh_id n ≢ i)
      → rows_under leg_key i (after (begin_execution_of_plan env call plan_id w)).legs
        ≡ rows_under leg_key i w.legs
  begin_execution-rows env call plan_id w fresh =
      elim (Reply-cases (begin_execution_of_plan env call plan_id w)) [
        | inr (x, e) ↦
            ap (λ d. rows_under leg_key i d.legs) (begin_execution-threw env call plan_id w e)
        | inl (r, e) ↦
            let (plan, legs, v, _, _, _, made, gate, same) =
              begin_execution-returned env call plan_id w e in
            let others =
              new_legs-All (λ l. l.id ≢ i) (λ j. j ≢ i) (λ l other _ _ _. other) env call
                (started_plan call plan) fresh made in
            let start = insert_legs legs (put_plan (started_plan call plan) w) in
            let inserted : rows_under leg_key i start.legs ≡ rows_under leg_key i w.legs = omega (
              arith,
              rows_under-append leg_key i w.legs legs,
              rows_under-other leg_key i legs others,
            ) in
            ap (λ d. rows_under leg_key i d.legs) same
            ∙ elim (apply_plan_cost_gate-returned env.estimate env.min_net_profit
                (started_plan call plan) legs start gate) [
                  | inl nothing ↦ ap (λ u. rows_under leg_key i u.legs) nothing ∙ inserted
                  | inr (b, _, stored) ↦
                      ap (λ u. rows_under leg_key i u.legs) stored
                      ∙ save_legs-rows (map (price_leg b) legs) start (priced-other b legs others)
                      ∙ inserted
                ]
      ]

  -- The rows under an id stay as many as they are, where no new leg has this id.
  pub step-rows :
      (call : Call) (action : Action) (w : World)
      → Issues (λ j. j ≢ i) action
      → rows_under leg_key i (step call action w).legs ≡ rows_under leg_key i w.legs
  unfolding step
  step-rows call (creates id dto) w new = ap (rows_under leg_key i) (create_plan-legs call id dto w)
  step-rows call (links plan reservation) w new =
      ap (rows_under leg_key i) (link_reservation_tx-legs call plan reservation w)
  step-rows call (arms plan) w new = ap (rows_under leg_key i) (arm_tx-legs call plan w)
  step-rows call (begins env plan) w new = begin_execution-rows env call plan w new
  step-rows call (begins_send halted plan leg) w new =
      Touches-rows w.legs _ (begin_mark_sent-Touches call plan leg w halted)
  step-rows call (completes_send plan leg correlation order meta) w new =
      Touches-rows w.legs _ (complete_mark_sent-Touches call plan leg w correlation order meta)
  step-rows call (fails_send plan leg) w new =
      Touches-rows w.legs _ (fail_submitting_leg-Touches call plan leg w)
  step-rows call (terminates_send plan leg state) w new =
      Touches-rows w.legs _ (apply_terminal_submit_error-Touches call plan leg w state)
  step-rows call (acknowledges plan leg) w new =
      Touches-rows w.legs _ (mark_acknowledged-Touches call plan leg w)
  step-rows call (fills plan leg dto) w new =
      Touches-rows w.legs _ (apply_fill_tx-Touches call plan leg w dto)
  step-rows call (completes plan) w new =
      ap (rows_under leg_key i) (try_mark_plan_completed-legs call plan w)
  step-rows call (fails reason plan) w new = elim (mark_failed-legs call reason plan w) [
    | inl same ↦ ap (rows_under leg_key i) same
    | inr (id, swept) ↦ ap (rows_under leg_key i) swept ∙ swept-rows call id w.legs
  ]
  step-rows call (reaps leg) w new = Touches-rows w.legs _ (reap_stuck_leg-Touches call leg w)
