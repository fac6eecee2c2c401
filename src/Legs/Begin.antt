-- ===== src/Legs/Begin.antt =====
-- `beginExecution` of legs.service.ts.
use arbibot.Base.{
  is_none, ℕ, zero, suc, ◌+◌, String, Bool, true, false, Option, none, some, List, [], ◌∷◌, str_eq,
  find_by,
}
use arbibot.Base.Int.{ℤ}
use arbibot.Json.{Json, null, num, str, Items, nil, cons, prop}
use arbibot.Store.Types.{
  Plan, PlanState, armed, executing, Leg, created, PlanCostBreakdown, Call, begin_execution,
}
use arbibot.Store.Outcome.{Result, ok, err, not_found, conflict, failure}
use arbibot.Store.Exec.{
  Exec, pure, ◌>>=◌, ◌>>◌, gets, modify, require, check, answer, transaction, find_plan, put_plan,
  insert_legs, record_audit,
}
use arbibot.Legs.Playbook.{parse_playbook_config, read_begin_leg_count}
use arbibot.Legs.Cost.{apply_plan_cost_gate}

abbrev pub is_armed : PlanState → Bool
is_armed armed = true
is_armed _ = false

-- The environment of one `beginExecution`: the ids that the database generates for the new legs,
-- EXECUTION_BEGIN_LEG_COUNT, the cost estimate, and `minNetProfitUsd` of the risk policy.
pub record BeginEnv : Type 0 where
  pub fresh_id : ℕ → String
  pub begin_leg_count : Option String
  pub estimate : Plan → Result PlanCostBreakdown
  pub min_net_profit : Result ℤ

new_leg : Call → String → String → ℕ → Leg
new_leg call id plan_id i = record {
  id = id;
  plan_id = plan_id;
  leg_index = i;
  state = created;
  entity_version = 1;
  venue_ref = none;
  leg_type = "dex";
  chain_id = none;
  target_quantity = 10;
  filled_quantity = 0;
  cost = none;
  updated_at = call.now;
}

-- A JSON value on its way into a column: an absent value takes the column's default, and a value
-- that the column's type refuses makes the insert throw.
abbrev pub text_column : String → Option Json → Option String
text_column d none = some d
text_column d (some (str s)) = some s
text_column d (some _) = none

abbrev pub number_column : Option ℕ → Option Json → Option ℕ
number_column d none = d
number_column d (some (num n)) = some n
number_column d (some _) = none

abbrev pub nullable_number_column : Option Json → Option (Option ℕ)
nullable_number_column none = some none
nullable_number_column (some null) = some none
nullable_number_column (some (num n)) = some (some n)
nullable_number_column (some _) = none

-- One leg of the config. `leg_index` has no default; `leg_type` and `target_quantity` have.
unfoldable pub leg_of_config : Call → String → String → Json → Option Leg
unfolding new_leg prop
leg_of_config call id plan_id def = elim (number_column none (prop "legIndex" (some def))) [
  | none ↦ none
  | some i ↦ elim (text_column "dex" (prop "legType" (some def))) [
    | none ↦ none
    | some t ↦ elim (nullable_number_column (prop "chainId" (some def))) [
      | none ↦ none
      | some c ↦ elim (number_column (some 1) (prop "targetQuantity" (some def))) [
        | none ↦ none
        | some q ↦
            some (record (new_leg call id plan_id i) {
              leg_type = t;
              chain_id = c;
              target_quantity = q;
            })
      ]
    ]
  ]
]

-- The loop over `multiLegConfig.legs`; `n` rows are saved so far.
unfoldable pub legs_of_config : Call → (ℕ → String) → String → ℕ → Items → Result (List Leg)
unfolding leg_of_config
legs_of_config call fresh plan_id n nil = ok []
legs_of_config call fresh plan_id n (cons def defs) =
    let rest = legs_of_config call fresh plan_id (n + 1) defs in
    elim (leg_of_config call (fresh n) plan_id def) [
      | none ↦ err failure
      | some leg ↦ elim rest [ err e ↦ err e | ok legs ↦ ok (leg ∷ legs) ]
    ]

-- The loop of a plan without such a config: `todo` more legs, from index `n`.
unfoldable pub legs_by_count : Call → (ℕ → String) → String → ℕ → ℕ → List Leg
unfolding new_leg
legs_by_count call fresh plan_id n zero = []
legs_by_count call fresh plan_id n (suc todo) =
    new_leg call (fresh n) plan_id n ∷ legs_by_count call fresh plan_id (n + 1) todo

-- A config with at least one leg is used, else the count from the environment.
unfoldable pub new_legs : BeginEnv → Call → Plan → Result (List Leg)
unfolding parse_playbook_config legs_of_config legs_by_count
new_legs env call plan =
    let by_count : Result (List Leg) =
      ok (legs_by_count call env.fresh_id plan.id 0 (read_begin_leg_count env.begin_leg_count)) in
    elim (parse_playbook_config plan.playbook_config) [
      | none ↦ by_count
      | some nil ↦ by_count
      | some (cons def defs) ↦ legs_of_config call env.fresh_id plan.id 0 (cons def defs)
    ]

-- `beginExecution`: the plan and its legs as they are stored.
unfoldable pub begin_execution_of_plan : BeginEnv → Call → String → Exec (Plan × List Leg)
begin_execution_of_plan env call plan_id = transaction do
  found ← gets (find_plan plan_id)
  plan ← require found not_found
  check (is_armed plan.state) conflict
  existing ← gets (λ w. find_by (λ l. str_eq l.plan_id plan_id) w.legs)
  check (is_none existing) conflict
  let started : Plan = record plan {
    state = executing;
    entity_version = plan.entity_version + 1;
    updated_at = call.now;
  }
  modify (put_plan started)
  legs ← answer (new_legs env call started)
  modify (insert_legs legs)
  priced ← apply_plan_cost_gate env.estimate env.min_net_profit started legs
  modify (record_audit begin_execution started.id none)
  pure priced
