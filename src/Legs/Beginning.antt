-- ===== src/Legs/Beginning.antt =====
-- What `beginExecution` of legs.service.ts guarantees, and what its cost gate lets pass.
use arbibot.Base.{
  false, sym, subst, ◌+◌, String, ◌⊎◌, none, some, map, ap, ◌∙◌, ◌≡◌, refl, inl, inr, true, List,
  [], ◌∷◌, ◌++◌, any, arith, save_row,
}
use arbibot.Base.Int.{ltb_ℤ, ℤ}
use arbibot.Store.Types.{leg_key, executing, created, Call, Plan, Leg, PlanCostBreakdown, World}
use arbibot.Store.Outcome.{ok-injective, Result, ok, Result-cases}
use arbibot.Store.Exec.{find_plan, put_plan, insert_legs, returned, put_leg}
use arbibot.Legs.Begin.{BeginEnv, new_legs, begin_execution_of_plan}
use arbibot.Legs.BeginEffects.{started_plan, begin_execution-returned}
use arbibot.Legs.Cost.{
  price_leg, is_unavailable, price_leg, save_legs, apply_plan_cost_gate, gate_allows, is_live_leg,
}

-- A row as `beginExecution` makes it.
pub record IsFresh (l : Leg) : Type 0 where
  pub is_created : l.state ≡ created
  pub first_version : l.entity_version ≡ 1
  pub unfilled : l.filled_quantity ≡ 0

-- A plan with a live leg passed only with a value that the gate allows.
gate_passed :
    (estimate : Plan → Result PlanCostBreakdown) (minimum : Result ℤ) (plan : Plan)
    (legs : List Leg) (w : World) (b : PlanCostBreakdown) {r : Plan × List Leg} {w' : World}
    → apply_plan_cost_gate estimate minimum plan legs w ≡ returned r w'
    → estimate plan ≡ ok b
    → any (is_live_leg plan) legs ≡ true
    → (m : ℤ) × (minimum ≡ ok m) × (gate_allows m b ≡ true)
unfolding apply_plan_cost_gate
gate_passed estimate minimum plan legs w b e valued live = elim (Result-cases minimum) [
  | inr (x, refused) ↦ absurd (ground arith)
  | inl (m, answered) ↦ (m, answered, ground arith)
]

gate_allows_lem :
    (m : ℤ) (b : PlanCostBreakdown)
    → gate_allows m b ≡ true
    → (is_unavailable b.estimate_confidence ≡ false)
      × (elim b.net_profit_usd [ none ↦ false | some net ↦ ltb_ℤ net m ] ≡ false)
unfolding gate_allows
gate_allows_lem m b e = ground arith

pub save_legs-plans : (legs : List Leg) (w : World) → (save_legs legs w).plans ≡ w.plans
unfolding save_legs
save_legs-plans [] w = refl
save_legs-plans (l ∷ legs) w = save_legs-plans legs (put_leg l w)

-- How the plan is found after the gate: as it was started, with or without its cost breakdown.
abbrev Started : Call → Plan → Plan → Type 0
Started call plan p =
    (p.id ≡ plan.id) × (p.state ≡ executing) × (p.entity_version ≡ plan.entity_version + 1)

-- Rows saved one after the other.
abbrev pub save_all : List Leg → List Leg → List Leg
save_all [] rows = rows
save_all (l ∷ legs) rows = save_all legs (save_row leg_key l rows)

-- The new legs as they are stored and answered: with their costs, where there is an estimate.
abbrev pub StoredAs : BeginEnv → Plan → List Leg → List Leg → List Leg → List Leg → Type 0
StoredAs env started legs before after_begin answered =
    ((after_begin ≡ before ++ legs) × (answered ≡ legs))
    ⊎ ((b : PlanCostBreakdown) × (env.estimate started ≡ ok b)
        × (after_begin ≡ save_all (map (price_leg b) legs) (before ++ legs))
        × (answered ≡ map (price_leg b) legs))

-- A plan with a live leg, on a DEX or over a bridge, whose cost could be estimated begins only where
-- the net-profit gate allows it: the minimum is known, the estimate is available, and the net profit,
-- where there is one, is not below the minimum.
pub live_plan_passes_gate :
    (env : BeginEnv) (call : Call) (plan_id : String) (w : World) {plan : Plan} {legs : List Leg}
    {b : PlanCostBreakdown} {r : Plan × List Leg} {w' : World}
    → begin_execution_of_plan env call plan_id w ≡ returned r w'
    → find_plan plan_id w ≡ some plan
    → new_legs env call (started_plan call plan) ≡ ok legs
    → any (is_live_leg (started_plan call plan)) legs ≡ true
    → env.estimate (started_plan call plan) ≡ ok b
    → (m : ℤ) × (env.min_net_profit ≡ ok m)
      × (is_unavailable b.estimate_confidence ≡ false)
      × (elim b.net_profit_usd [ none ↦ false | some net ↦ ltb_ℤ net m ] ≡ false)
live_plan_passes_gate env call plan_id w {plan} {legs} {b} e found made live valued =
    let (plan', legs', v, found', _, _, made', gate, _) =
      begin_execution-returned env call plan_id w e in
    let same : plan' ≡ plan = ground arith in
    let made'' = subst (λ x. new_legs env call (started_plan call x) ≡ ok legs') same made' in
    let same_legs : legs' ≡ legs = ok-injective (sym made'' ∙ made) in
    let live' : any (is_live_leg (started_plan call plan')) legs' ≡ true =
      ap (λ x. any (is_live_leg (started_plan call x)) legs') same
      ∙ ap (any (is_live_leg (started_plan call plan))) same_legs
      ∙ live in
    let valued' : env.estimate (started_plan call plan') ≡ ok b =
      ap (λ x. env.estimate (started_plan call x)) same ∙ valued in
    let (m, known, allowed) =
      gate_passed env.estimate env.min_net_profit (started_plan call plan') legs'
        (insert_legs legs' (put_plan (started_plan call plan') w)) b gate valued' live' in
    let (available, profit) = gate_allows_lem m b allowed in (m, known, available, profit)
