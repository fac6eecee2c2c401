-- ===== src/Interleaving/Closure.antt =====
-- What holds of every leg of the table, under every history: a predicate that the moves preserve
-- and that new rows have.
use arbibot.Base.{
  All-append, some, ◌==◌, ◌&&◌, ℕ, String, ◌≡◌, sym, subst, inl, inr, ◌⊎◌, List, [], ◌∷◌, map, All,
  All-save_row, All-Occurs, Bool-cases, Option-cases, str_eq, find_by, ap, arith,
}
use arbibot.Store.Types.{created, Leg, World, Call, PlanCostBreakdown, leg_key}
use arbibot.Store.Exec.{insert_legs, put_plan, Reply-cases, after, put_leg, transaction}
use arbibot.Plans.Lifecycle.{
  sweep_leg, is_swept, FailReason, mark_failed, CreatePlan, create_plan, link_reservation_tx,
  arm_tx, try_mark_plan_completed,
}
use arbibot.Legs.Cost.{price_leg, leg_cost, save_legs}
use arbibot.Plans.Failing.{mark_failed_cases}
use arbibot.Legs.BeginEffects.{
  apply_plan_cost_gate-returned, begin_execution-returned, begin_execution-threw, new_legs-All,
  started_plan,
}
use arbibot.Legs.Begin.{BeginEnv, begin_execution_of_plan}
use arbibot.Interleaving.{
  Action, creates, links, arms, begins, begins_send, completes_send, fails_send, terminates_send,
  acknowledges, fills, completes, fails, reaps, step, run,
}
use arbibot.Interleaving.Moves.{
  reap_stuck_leg-Touches, apply_fill_tx-Touches, mark_acknowledged-Touches,
  apply_terminal_submit_error-Touches, fail_submitting_leg-Touches, complete_mark_sent-Touches,
  begin_mark_sent-Touches, LegMove, price, sweep, Touches, untouched, moved,
}

-- The plan transactions that do not write legs.
pub create_plan-legs :
    (call : Call) (id : String) (dto : CreatePlan) (w : World)
    → (after (create_plan call id dto w)).legs ≡ w.legs
unfolding create_plan
create_plan-legs call id dto w = ground arith

pub link_reservation_tx-legs :
    (call : Call) (plan reservation : String) (w : World)
    → (after (transaction (link_reservation_tx call plan reservation) w)).legs ≡ w.legs
unfolding link_reservation_tx
link_reservation_tx-legs call plan reservation w = ground arith

pub arm_tx-legs :
    (call : Call) (plan : String) (w : World)
    → (after (transaction (arm_tx call plan) w)).legs ≡ w.legs
unfolding arm_tx
arm_tx-legs call plan w = ground arith

pub try_mark_plan_completed-legs :
    (call : Call) (plan : String) (w : World)
    → (after (try_mark_plan_completed call plan w)).legs ≡ w.legs
unfolding try_mark_plan_completed
try_mark_plan_completed-legs call plan w = ground arith

pub mark_failed-legs :
    (call : Call) (reason : FailReason) (plan : String) (w : World)
    → ((after (mark_failed call reason plan w)).legs ≡ w.legs)
      ⊎ ((id : String) × ((after (mark_failed call reason plan w)).legs
            ≡ map (sweep_leg call id) w.legs))
mark_failed-legs call reason plan w = elim (mark_failed_cases call reason plan w) [
  | inl (p, found, running, e) ↦ inr (p.id, ap (λ r. (after r).legs) e)
  | inr (e, why) ↦ inl (ap (λ r. (after r).legs) e)
]

-- The ids that an action gives to new legs.
abbrev pub Issues : (String → Type 0) → Action → Type 0
Issues Ok (begins env plan) = (n : ℕ) → Ok (env.fresh_id n)
Issues Ok _ = Unit

abbrev pub Issued : (String → Type 0) → List (Call × Action) → Type 0
Issued Ok history = All (λ (call, action). Issues Ok action) history

-- A predicate that every move keeps, and one that new rows have.
abbrev pub Preserved : (Leg → Type 0) → Type 0
Preserved P = (call : Call) (l l' : Leg) → P l → LegMove call l l' → P l'

abbrev pub Born : (String → Type 0) → (Leg → Type 0) → Type 0
Born Ok P =
    (l : Leg) → Ok l.id → l.state ≡ created → l.entity_version ≡ 1 → l.filled_quantity ≡ 0 → P l

module _ (P : Leg → Type 0) (moves : Preserved P) where
  Touches-All :
      {call : Call} (before after_legs : List Leg)
      → All P before
      → Touches call before after_legs
      → All P after_legs
  Touches-All before after_legs h (untouched same) = subst (All P) (sym same) h
  Touches-All {call} before after_legs h (moved {l} {l'} occurs move saved) =
      subst (All P) (sym saved)
        (All-save_row leg_key P l' before (moves call l l' (All-Occurs P before h occurs) move) h)

  sweep_leg-P : (call : Call) (plan_id : String) (l : Leg) → P l → P (sweep_leg call plan_id l)
  unfolding sweep_leg
  sweep_leg-P call plan_id l h = elim (Bool-cases (str_eq l.plan_id plan_id && is_swept l.state)) [
    | inl hit ↦ rw hit (moves call l _ h (sweep (ground arith)))
    | inr miss ↦ rw miss h
  ]

  swept-All :
      (call : Call) (plan_id : String) (legs : List Leg)
      → All P legs
      → All P (map (sweep_leg call plan_id) legs)
  unfolding sweep_leg
  swept-All call plan_id [] h = tt
  swept-All call plan_id (l ∷ legs) h =
      (sweep_leg-P call plan_id l h.0, swept-All call plan_id legs h.1)

  price_leg-P : (b : PlanCostBreakdown) (l : Leg) → P l → P (price_leg b l)
  unfolding price_leg
  price_leg-P b l h = elim (Option-cases (find_by (λ c. c.leg_index == l.leg_index) b.legs)) [
    | inl missing ↦ subst P (let out : l ≡ price_leg b l = ground arith in out) h
    | inr (c, found) ↦
        subst P
          (let out : record l { cost = some (leg_cost c) } ≡ price_leg b l = ground arith in out)
          (moves (record { now = 0; uuid = "" }) l _ h (price (some (leg_cost c))))
  ]

  save_legs-All :
      (legs : List Leg) (w : World) → All P legs → All P w.legs → All P (save_legs legs w).legs
  unfolding save_legs
  save_legs-All [] w hs h = h
  save_legs-All (l ∷ legs) w hs h =
      save_legs-All legs (put_leg l w) hs.1 (All-save_row leg_key P l w.legs hs.0 h)

  priced-All :
      (b : PlanCostBreakdown) (legs : List Leg) → All P legs → All P (map (price_leg b) legs)
  priced-All b [] h = tt
  priced-All b (l ∷ legs) h = (price_leg-P b l h.0, priced-All b legs h.1)

module _ (P : Leg → Type 0) (Ok : String → Type 0) (moves : Preserved P) (births : Born Ok P) where
  begin_execution-All :
      (env : BeginEnv) (call : Call) (plan_id : String) (w : World)
      → ((n : ℕ) → Ok (env.fresh_id n))
      → All P w.legs
      → All P (after (begin_execution_of_plan env call plan_id w)).legs
  begin_execution-All env call plan_id w fresh h =
      elim (Reply-cases (begin_execution_of_plan env call plan_id w)) [
        | inr (x, e) ↦
            subst (All P) (sym (ap (λ d. d.legs) (begin_execution-threw env call plan_id w e))) h
        | inl (r, e) ↦
            let (plan, legs, v, _, _, _, made, gate, same) =
              begin_execution-returned env call plan_id w e in
            let born = new_legs-All P Ok births env call (started_plan call plan) fresh made in
            let inserted = All-append P w.legs legs h born in
            subst (All P) (sym (ap (λ d. d.legs) same))
              (elim (apply_plan_cost_gate-returned env.estimate env.min_net_profit
                (started_plan call plan) legs
                (insert_legs legs (put_plan (started_plan call plan) w)) gate) [
                  | inl nothing ↦ subst (λ u. All P u.legs) (sym nothing) inserted
                  | inr (b, _, stored) ↦
                      subst (λ u. All P u.legs) (sym stored)
                        (save_legs-All P moves (map (price_leg b) legs)
                          (insert_legs legs (put_plan (started_plan call plan) w))
                          (priced-All P moves b legs born) inserted)
                ])
      ]

  pub step-All :
      (call : Call) (action : Action) (w : World)
      → Issues Ok action
      → All P w.legs
      → All P (step call action w).legs
  unfolding step
  step-All call (creates id dto) w new h = subst (All P) (sym (create_plan-legs call id dto w)) h
  step-All call (links plan reservation) w new h =
      subst (All P) (sym (link_reservation_tx-legs call plan reservation w)) h
  step-All call (arms plan) w new h = subst (All P) (sym (arm_tx-legs call plan w)) h
  step-All call (begins env plan) w new h = begin_execution-All env call plan w new h
  step-All call (begins_send halted plan leg) w new h =
      Touches-All P moves w.legs _ h (begin_mark_sent-Touches call plan leg w halted)
  step-All call (completes_send plan leg correlation order meta) w new h =
      Touches-All P moves w.legs _ h
        (complete_mark_sent-Touches call plan leg w correlation order meta)
  step-All call (fails_send plan leg) w new h =
      Touches-All P moves w.legs _ h (fail_submitting_leg-Touches call plan leg w)
  step-All call (terminates_send plan leg state) w new h =
      Touches-All P moves w.legs _ h (apply_terminal_submit_error-Touches call plan leg w state)
  step-All call (acknowledges plan leg) w new h =
      Touches-All P moves w.legs _ h (mark_acknowledged-Touches call plan leg w)
  step-All call (fills plan leg dto) w new h =
      Touches-All P moves w.legs _ h (apply_fill_tx-Touches call plan leg w dto)
  step-All call (completes plan) w new h =
      subst (All P) (sym (try_mark_plan_completed-legs call plan w)) h
  step-All call (fails reason plan) w new h = elim (mark_failed-legs call reason plan w) [
    | inl same ↦ subst (All P) (sym same) h
    | inr (id, swept) ↦ subst (All P) (sym swept) (swept-All P moves call id w.legs h)
  ]
  step-All call (reaps leg) w new h =
      Touches-All P moves w.legs _ h (reap_stuck_leg-Touches call leg w)

  pub run-All :
      (history : List (Call × Action)) (w : World)
      → Issued Ok history
      → All P w.legs
      → All P (run history w).legs
  unfolding run
  run-All [] w new h = h
  run-All ((call, action) ∷ rest) w new h =
      run-All rest (step call action w) new.1 (step-All call action w new.0 h)
