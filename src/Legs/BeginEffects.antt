-- ===== src/Legs/BeginEffects.antt =====
-- What `beginExecution` did, when it returned, and what rows it made.
use arbibot.Base.{
  subst, ℕ, zero, suc, ◌+◌, String, ◌≡◌, refl, ◌⊎◌, inl, inr, Option, none, some, List, ◌∷◌, map,
  All, find_by, str_eq, Option-cases, arith,
}
use arbibot.Base.Int.{ℤ}
use arbibot.Json.{Json, Items, nil, cons}
use arbibot.Store.Types.{Plan, armed, executing, Leg, created, PlanCostBreakdown, World, Call}
use arbibot.Store.Outcome.{Result-cases, ok-injective, Error, Result, ok}
use arbibot.Store.Exec.{returned, threw, find_plan, put_plan, insert_legs}
use arbibot.Legs.Cost.{price_leg, save_legs, apply_plan_cost_gate}
use arbibot.Legs.Playbook.{parse_playbook_config, read_begin_leg_count}
use arbibot.Legs.Begin.{
  BeginEnv, new_legs, begin_execution_of_plan, legs_of_config, leg_of_config, legs_by_count,
}

abbrev pub started_plan : Call → Plan → Plan
started_plan call plan = record plan {
  state = executing;
  entity_version = plan.entity_version + 1;
  updated_at = call.now;
}

-- The gate let the plan pass: without an estimate nothing is stored, else the costs are.
pub apply_plan_cost_gate-returned :
    (estimate : Plan → Result PlanCostBreakdown) (minimum : Result ℤ) (plan : Plan)
    (legs : List Leg) (w : World) {r : Plan × List Leg} {w' : World}
    → apply_plan_cost_gate estimate minimum plan legs w ≡ returned r w'
    → (w' ≡ w)
      ⊎ ((b : PlanCostBreakdown) × (estimate plan ≡ ok b)
          × (w'
              ≡ put_plan
                  (record plan { cost_breakdown = some b })
                  (save_legs (map (price_leg b) legs) w)))
unfolding apply_plan_cost_gate
apply_plan_cost_gate-returned estimate minimum plan legs w e = elim (Result-cases (estimate plan)) [
  | inr (x, refused) ↦ inl (ground arith)
  | inl (b, made) ↦ inr (b, made, ground arith)
]

-- The legs that the gate stores and answers with.
pub apply_plan_cost_gate-legs :
    (estimate : Plan → Result PlanCostBreakdown) (minimum : Result ℤ) (plan : Plan)
    (legs : List Leg) (w : World) {r : Plan × List Leg} {w' : World}
    → apply_plan_cost_gate estimate minimum plan legs w ≡ returned r w'
    → ((w'.legs ≡ w.legs) × (r.1 ≡ legs))
      ⊎ ((b : PlanCostBreakdown) × (estimate plan ≡ ok b)
          × (w'.legs ≡ (save_legs (map (price_leg b) legs) w).legs)
          × (r.1 ≡ map (price_leg b) legs))
unfolding apply_plan_cost_gate
apply_plan_cost_gate-legs estimate minimum plan legs w e = elim (Result-cases (estimate plan)) [
  | inr (x, refused) ↦ inl (ground arith, ground arith)
  | inl (b, made) ↦ inr (b, made, ground arith, ground arith)
]

pub begin_execution-returned :
    (env : BeginEnv) (call : Call) (plan_id : String) (w : World) {r : Plan × List Leg} {w' : World}
    → begin_execution_of_plan env call plan_id w ≡ returned r w'
    → (plan : Plan) × (legs : List Leg) × (v : World) × (find_plan plan_id w ≡ some plan)
      × (plan.state ≡ armed)
      × (find_by (λ l. str_eq l.plan_id plan_id) w.legs ≡ none)
      × (new_legs env call (started_plan call plan) ≡ ok legs)
      × (apply_plan_cost_gate env.estimate env.min_net_profit
            (started_plan call plan)
            legs
            (insert_legs legs (put_plan (started_plan call plan) w))
          ≡ returned r v)
      × (w'.db ≡ v.db)
unfolding begin_execution_of_plan
begin_execution-returned env call plan_id w e = ground arith

pub begin_execution-threw :
    (env : BeginEnv) (call : Call) (plan_id : String) (w : World) {x : Error} {w' : World}
    → begin_execution_of_plan env call plan_id w ≡ threw x w'
    → w'.db ≡ w.db
unfolding begin_execution_of_plan
begin_execution-threw env call plan_id w e = ground arith

-- The rows of `beginExecution` are new: `created`, at version 1, with nothing filled.
module _ (P : Leg → Type 0) (Ok : String → Type 0)
    (births : (l : Leg)
      → Ok l.id
      → l.state ≡ created
      → l.entity_version ≡ 1
      → l.filled_quantity ≡ 0
      → P l)
    (call : Call) (fresh : ℕ → String) (plan_id : String) (fresh_ok : (n : ℕ) → Ok (fresh n)) where
  legs_by_count-All : (n todo : ℕ) → All P (legs_by_count call fresh plan_id n todo)
  unfolding legs_by_count
  legs_by_count-All n zero = tt
  legs_by_count-All n (suc todo) =
      (births _ (fresh_ok n) refl refl refl, legs_by_count-All (n + 1) todo)

  leg_of_config-born :
      (id : String) (def : Json) {l : Leg}
      → leg_of_config call id plan_id def ≡ some l
      → Ok id
      → P l
  unfolding leg_of_config
  leg_of_config-born id def {l} e ok_id =
      births l (subst Ok (let out : id ≡ l.id = ground arith in out) ok_id) (ground arith)
        (ground arith) (ground arith)

  legs_of_config-All :
      (n : ℕ) (defs : Items) {legs : List Leg}
      → legs_of_config call fresh plan_id n defs ≡ ok legs
      → All P legs
  unfolding legs_of_config
  legs_of_config-All n nil {legs} e = subst (All P) (ok-injective e) tt
  legs_of_config-All n (cons def defs) {legs} e =
      elim (Option-cases (leg_of_config call (fresh n) plan_id def)) [
        | inl missing ↦ absurd (ground arith)
        | inr (leg, made) ↦ elim (Result-cases (legs_of_config call fresh plan_id (n + 1) defs)) [
          | inr (x, refused) ↦ absurd (ground arith)
          | inl (rest, others) ↦ subst (All P) (let out : leg ∷ rest ≡ legs = ground arith in out) (
            leg_of_config-born (fresh n) def made (fresh_ok n),
            legs_of_config-All (n + 1) defs others,
          )
        ]
      ]

  new_legs_case :
      (env : BeginEnv) (plan : Plan) (config : Option Items) {legs : List Leg}
      → env.fresh_id ≡ fresh
      → plan.id ≡ plan_id
      → parse_playbook_config plan.playbook_config ≡ config
      → new_legs env call plan ≡ ok legs
      → All P legs
  unfolding new_legs
  new_legs_case env plan none {legs} same_ids same_plan config e =
      subst (All P)
        (let out : legs_by_count call fresh plan_id 0 (read_begin_leg_count env.begin_leg_count)
              ≡ legs =
            ground arith in
          out)
        (legs_by_count-All 0 (read_begin_leg_count env.begin_leg_count))
  new_legs_case env plan (some nil) {legs} same_ids same_plan config e =
      subst (All P)
        (let out : legs_by_count call fresh plan_id 0 (read_begin_leg_count env.begin_leg_count)
              ≡ legs =
            ground arith in
          out)
        (legs_by_count-All 0 (read_begin_leg_count env.begin_leg_count))
  new_legs_case env plan (some (cons def defs)) {legs} same_ids same_plan config e =
      legs_of_config-All 0 (cons def defs) (ground arith)

pub new_legs-All :
    (P : Leg → Type 0) (Ok : String → Type 0)
    → ((l : Leg) → Ok l.id → l.state ≡ created → l.entity_version ≡ 1 → l.filled_quantity ≡ 0 → P l)
    → (env : BeginEnv) (call : Call) (plan : Plan) {legs : List Leg}
    → ((n : ℕ) → Ok (env.fresh_id n))
    → new_legs env call plan ≡ ok legs
    → All P legs
new_legs-All P Ok births env call plan fresh_ok e =
    new_legs_case P Ok births call env.fresh_id plan.id fresh_ok env plan
      (parse_playbook_config plan.playbook_config) refl refl refl e
