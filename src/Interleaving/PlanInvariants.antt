-- ===== src/Interleaving/PlanInvariants.antt =====
-- Invariants of single plans over every history of execution-orchestrator.
use arbibot.Base.{
  ℕ, String, ◌≡◌, ◌≢◌, refl, sym, subst, inl, inr, ◌⊎◌, Bool, true, false, Option, is_some, List,
  [], ◌∷◌, All, All-append, All-save_row, All-Occurs, find_key-Occurs, arith,
}
use arbibot.Store.Types.{Plan, PlanState, planned, completed, failed, World, Call, plan_key}
use arbibot.Store.Exec.{after}
use arbibot.Plans.Lifecycle.{CreatePlan, create_plan}
use arbibot.Legs.Begin.{BeginEnv, begin_execution_of_plan}
use arbibot.Legs.BeginEffects.{started_plan}
use arbibot.Legs.Send.{
  complete_mark_sent, begin_mark_sent, fail_submitting_leg, apply_terminal_submit_error,
  OnChainMeta, TerminalState,
}
use arbibot.Legs.Fill.{ApplyFill, mark_acknowledged, apply_fill_tx}
use arbibot.Reaper.{reap_stuck_leg}
use arbibot.Interleaving.{
  Action, creates, links, arms, begins, begins_send, completes_send, fails_send, terminates_send,
  acknowledges, fills, completes, fails, reaps, step, run,
}
use arbibot.Interleaving.PlanMoves.{
  PlanMove, link, arm, begin, complete, fail, value, Touches, untouched, moved,
  link_reservation_tx-Touches, arm_tx-Touches, try_mark_plan_completed-Touches, mark_failed-Touches,
  begin_execution-moves,
}

-- The transactions of legs do not write plans.
module _ (call : Call) (w : World) (plan leg : String) where
  begin_mark_sent-plans :
      (halted : Bool) → (after (begin_mark_sent halted call plan leg w)).plans ≡ w.plans
  unfolding begin_mark_sent
  begin_mark_sent-plans halted = ground arith

  complete_mark_sent-plans :
      (correlation : Option String) (order : String) (meta : Option OnChainMeta)
      → (after (complete_mark_sent call plan leg correlation order meta w)).plans ≡ w.plans
  unfolding complete_mark_sent
  complete_mark_sent-plans correlation order meta = ground arith

  fail_submitting_leg-plans : (after (fail_submitting_leg call plan leg w)).plans ≡ w.plans
  unfolding fail_submitting_leg
  fail_submitting_leg-plans = ground arith

  apply_terminal_submit_error-plans :
      (s : TerminalState) → (after (apply_terminal_submit_error call plan leg s w)).plans ≡ w.plans
  unfolding apply_terminal_submit_error
  apply_terminal_submit_error-plans s = ground arith

  mark_acknowledged-plans : (after (mark_acknowledged call plan leg w)).plans ≡ w.plans
  unfolding mark_acknowledged
  mark_acknowledged-plans = ground arith

  apply_fill_tx-plans :
      (dto : ApplyFill) → (after (apply_fill_tx call plan leg dto w)).plans ≡ w.plans
  unfolding apply_fill_tx
  apply_fill_tx-plans dto = ground arith

reap_stuck_leg-plans :
    (call : Call) (w : World) (leg : String) → (after (reap_stuck_leg call leg w)).plans ≡ w.plans
unfolding reap_stuck_leg
reap_stuck_leg-plans call w leg = ground arith

-- The ids that an action gives to new plans.
abbrev pub PlanIssues : (String → Type 0) → Action → Type 0
PlanIssues Ok (creates id dto) = Ok id
PlanIssues Ok _ = Unit

abbrev pub PlanIssued : (String → Type 0) → List (Call × Action) → Type 0
PlanIssued Ok history = All (λ (call, action). PlanIssues Ok action) history

abbrev PlanPreserved : (Plan → Type 0) → Type 0
PlanPreserved P = (call : Call) (p p' : Plan) → P p → PlanMove call p p' → P p'

abbrev PlanBorn : (String → Type 0) → (Plan → Type 0) → Type 0
PlanBorn Ok P = (p : Plan) → Ok p.id → p.state ≡ planned → P p

module _ (P : Plan → Type 0) (Ok : String → Type 0) (moves : PlanPreserved P)
    (births : PlanBorn Ok P) (call : Call) where
  Touches-All :
      (before after_plans : List Plan)
      → All P before
      → Touches call before after_plans
      → All P after_plans
  Touches-All before after_plans h (untouched same) = subst (All P) (sym same) h
  Touches-All before after_plans h (moved {p} {p'} occurs move saved) =
      subst (All P) (sym saved)
        (All-save_row plan_key P p' before (moves call p p' (All-Occurs P before h occurs) move) h)

  created-All :
      (id : String) (dto : CreatePlan) (w : World)
      → Ok id
      → All P w.plans
      → All P (after (create_plan call id dto w)).plans
  unfolding create_plan
  created-All id dto w ok_id h = All-append P w.plans _ h (births _ ok_id refl, tt)

  begun-All :
      (env : BeginEnv) (plan_id : String) (w : World)
      → All P w.plans
      → All P (after (begin_execution_of_plan env call plan_id w)).plans
  begun-All env plan_id w h = elim (begin_execution-moves call w env plan_id) [
    | inl same ↦ subst (All P) (sym same) h
    | inr (p, found, state, how) ↦
        let old = All-Occurs P w.plans h (find_key-Occurs plan_key plan_id w.plans found) in
        let now = moves call p (started_plan call p) old (begin state) in
        let stored = All-save_row plan_key P (started_plan call p) w.plans now h in
        elim how [
          | inl one ↦ subst (All P) (sym one) stored
          | inr (b, two) ↦ subst (All P) (sym two) (
              All-save_row plan_key P _ _ (moves call (started_plan call p) _ now (value b)) stored)
        ]
  ]

  step-All-plans :
      (action : Action) (w : World)
      → PlanIssues Ok action
      → All P w.plans
      → All P (step call action w).plans
  unfolding step
  step-All-plans (creates id dto) w new h = created-All id dto w new h
  step-All-plans (links plan reservation) w new h =
      Touches-All w.plans _ h (link_reservation_tx-Touches call w plan reservation)
  step-All-plans (arms plan) w new h = Touches-All w.plans _ h (arm_tx-Touches call w plan)
  step-All-plans (begins env plan) w new h = begun-All env plan w h
  step-All-plans (begins_send halted plan leg) w new h =
      subst (All P) (sym (begin_mark_sent-plans call w plan leg halted)) h
  step-All-plans (completes_send plan leg correlation order meta) w new h =
      subst (All P) (sym (complete_mark_sent-plans call w plan leg correlation order meta)) h
  step-All-plans (fails_send plan leg) w new h =
      subst (All P) (sym (fail_submitting_leg-plans call w plan leg)) h
  step-All-plans (terminates_send plan leg s) w new h =
      subst (All P) (sym (apply_terminal_submit_error-plans call w plan leg s)) h
  step-All-plans (acknowledges plan leg) w new h =
      subst (All P) (sym (mark_acknowledged-plans call w plan leg)) h
  step-All-plans (fills plan leg dto) w new h =
      subst (All P) (sym (apply_fill_tx-plans call w plan leg dto)) h
  step-All-plans (completes plan) w new h =
      Touches-All w.plans _ h (try_mark_plan_completed-Touches call w plan)
  step-All-plans (fails reason plan) w new h =
      Touches-All w.plans _ h (mark_failed-Touches call w reason plan)
  step-All-plans (reaps leg) w new h = subst (All P) (sym (reap_stuck_leg-plans call w leg)) h

run-All-plans :
    (P : Plan → Type 0) (Ok : String → Type 0)
    → PlanPreserved P
    → PlanBorn Ok P
    → (history : List (Call × Action)) (w : World) → PlanIssued Ok history
    → All P w.plans
    → All P (run history w).plans
unfolding run
run-All-plans P Ok moves births [] w new h = h
run-All-plans P Ok moves births ((call, action) ∷ rest) w new h =
    run-All-plans P Ok moves births rest (step call action w) new.1
      (step-All-plans P Ok moves births call action w new.0 h)

-- Past `planned`, a plan names its capital reservation.
abbrev needs_capital : PlanState → Bool
needs_capital planned = false
needs_capital _ = true

unfoldable pub Backed : Plan → Type 0
Backed p = (needs_capital p.state ≡ false) ⊎ (is_some p.capital_reservation_id ≡ true)

Backed-Preserved : PlanPreserved Backed
unfolding Backed
Backed-Preserved call p p' h (link r state) = inr refl
Backed-Preserved call p p' h (arm r state linked) = inr (rw linked refl)
Backed-Preserved call p p' h (begin state) = ground arith
Backed-Preserved call p p' h (complete state) = ground arith
Backed-Preserved call p p' h (fail running) = ground arith
Backed-Preserved call p p' h (value b) = h

-- Whatever requests and workers do in whatever order, a plan that is `reserved`, `armed`, `executing`,
-- `completed` or `failed` names the capital reservation that backs it, if that holds at the start.
pub run-Backed :
    (history : List (Call × Action)) (w : World)
    → PlanIssued (λ i. Unit) history
    → All Backed w.plans
    → All Backed (run history w).plans
unfolding Backed
run-Backed history w new h =
    run-All-plans Backed (λ i. Unit) Backed-Preserved (λ p _ state. inl (ground arith)) history w
      new h

abbrev pub is_over : PlanState → Bool
is_over completed = true
is_over failed = true
is_over _ = false

unfoldable pub Ended : String → PlanState → ℕ → Plan → Type 0
Ended i s v p = p.id ≡ i → (p.state ≡ s) × (p.entity_version ≡ v)

Ended-Preserved :
    (i : String) (s : PlanState) (v : ℕ) → is_over s ≡ true → PlanPreserved (Ended i s v)
unfolding Ended
Ended-Preserved i s v over call p p' h (link r state) same = absurd (ground (arith, (h same).0))
Ended-Preserved i s v over call p p' h (arm r state linked) same =
    absurd (ground (arith, (h same).0))
Ended-Preserved i s v over call p p' h (begin state) same = absurd (ground (arith, (h same).0))
Ended-Preserved i s v over call p p' h (complete state) same = absurd (ground (arith, (h same).0))
Ended-Preserved i s v over call p p' h (fail running) same = absurd (ground (arith, (h same).0))
Ended-Preserved i s v over call p p' h (value b) same = h same

-- A plan that is `completed` or `failed` stays so, at the version at which it ended, whatever requests,
-- workers and sweeps follow in whatever order, provided that no new plan gets its id.
pub terminal_plan_final :
    (i : String) (s : PlanState) (v : ℕ) (history : List (Call × Action)) (w : World)
    → is_over s ≡ true
    → PlanIssued (λ j. j ≢ i) history
    → All (Ended i s v) w.plans
    → All (Ended i s v) (run history w).plans
unfolding Ended
terminal_plan_final i s v history w over new h =
    run-All-plans (Ended i s v) (λ j. j ≢ i) (Ended-Preserved i s v over)
      (λ p other _ same. absurd (other same)) history w new h
