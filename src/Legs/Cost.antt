-- ===== src/Legs/Cost.antt =====
-- The pre-trade cost gate: applyPlanCostGate of legs.service.ts and evaluatePlanGate of
-- cost/trade-cost-estimator.service.ts. The estimate itself is an argument.
use arbibot.Base.{
  ℕ, [], ◌∷◌, ◌+◌, ◌*◌, ◌/◌, Bool, true, false, ◌||◌, Option, none, some, List, any, map, find_by,
  ◌==◌, str_eq, if◌then◌else◌,
}
use arbibot.Base.Int.{ℤ, ltb_ℤ}
use arbibot.Store.Types.{
  Plan, Leg, LegCost, PlanCostBreakdown, LegCostBreakdown, EstimateConfidence, unavailable, World,
}
use arbibot.Store.Outcome.{Result, ok, err, unprocessable}
use arbibot.Store.Exec.{Exec, pure, raise, ◌>>=◌, ◌>>◌, modify, answer, put_plan, put_leg}
use arbibot.Legs.Playbook.{extract_venue_key, is_live_venue_key}

-- `round2`: to whole cents, in millionths of a dollar.
unfoldable pub round2 : ℕ → ℕ
round2 v = (v + 5000) / 10000 * 10000

abbrev pub when_type : Bool → ℕ → Option ℕ
when_type true v = some v
when_type false v = none

-- The cost columns that are set from one leg's breakdown.
unfoldable pub leg_cost : LegCostBreakdown → LegCost
unfolding round2 str_eq
leg_cost c = record {
  estimated_gas_usd = round2 c.gas_usd;
  slippage_bps = when_type (str_eq c.leg_type "dex") c.slippage_bps;
  pool_fee_usd = when_type (str_eq c.leg_type "dex") (round2 c.pool_fee_usd);
  bridge_fee_usd = when_type (str_eq c.leg_type "bridge") (round2 c.bridge_fee_usd);
  total_cost_usd = round2 c.total_cost_usd;
  cost_confidence = c.estimate_confidence;
}

-- The first breakdown with the leg's index; a leg without one keeps its columns.
unfoldable pub price_leg : PlanCostBreakdown → Leg → Leg
unfolding leg_cost find_by
price_leg breakdown leg = elim (find_by (λ c. c.leg_index == leg.leg_index) breakdown.legs) [
  | none ↦ leg
  | some c ↦ record leg { cost = some (leg_cost c) }
]

-- `leg.legType === 'bridge' || isLiveVenueKey(extractVenueKey(plan, leg))`.
unfoldable pub is_live_leg : Plan → Leg → Bool
unfolding str_eq is_live_venue_key extract_venue_key
is_live_leg plan leg =
    str_eq leg.leg_type "bridge"
    || is_live_venue_key (extract_venue_key plan.playbook_config leg.leg_index)

abbrev pub is_unavailable : EstimateConfidence → Bool
is_unavailable unavailable = true
is_unavailable _ = false

-- `decision.allowed` of `evaluatePlanGate`: no reason to block.
unfoldable pub gate_allows : ℤ → PlanCostBreakdown → Bool
gate_allows min_net_profit breakdown =
    if is_unavailable breakdown.estimate_confidence then false else elim breakdown.net_profit_usd [
      | none ↦ true
      | some net ↦ if ltb_ℤ net min_net_profit then false else true
    ]

unfoldable pub save_legs : List Leg → World → World
save_legs [] w = w
save_legs (l ∷ legs) w = save_legs legs (put_leg l w)

-- `applyPlanCostGate`: the legs with their costs. An estimate that throws skips the gate.
unfoldable pub apply_plan_cost_gate :
    (Plan → Result PlanCostBreakdown) → Result ℤ → Plan → List Leg → Exec (Plan × List Leg)
unfolding save_legs price_leg is_live_leg gate_allows any
apply_plan_cost_gate estimate min_net_profit plan legs = elim (estimate plan) [
  | err e ↦ pure (plan, legs)
  | ok breakdown ↦
      let priced = map (price_leg breakdown) legs in
      let valued : Plan = record plan { cost_breakdown = some breakdown } in
      do
        modify (save_legs priced)
        modify (put_plan valued)
        if any (is_live_leg plan) legs
            then (do
              minimum ← answer min_net_profit
              if gate_allows minimum breakdown then pure (valued, priced) else raise unprocessable)
            else pure (valued, priced)
]
