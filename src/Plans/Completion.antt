-- ===== src/Plans/Completion.antt =====
-- When `tryMarkPlanCompletedWhenAllLegsFilled` of plans.service.ts completes a plan.
use arbibot.Base.{
  ◌∷◌, ◌+◌, String, ◌≡◌, refl, ◌≢◌, ◌⊎◌, inl, inr, true, false, not, ◌||◌, Option, none, some, List,
  [], ◌++◌, All, any, length, ◌==◌, Bool-cases, Option-cases, arith,
}
use arbibot.Store.Types.{mark_plan_completed, Plan, executing, completed, Leg, filled, World, Call}
use arbibot.Store.Exec.{returned, put_plan, put_event, record_audit, find_plan}
use arbibot.Plans.Lifecycle.{
  is_filled, is_executing, legs_of, completed_event, try_mark_plan_completed,
}
use arbibot.Plans.Linking.{saved_is_found}

abbrev pub completed_plan : Call → Plan → Plan
completed_plan call plan = record plan {
  state = completed;
  entity_version = plan.entity_version + 1;
  updated_at = call.now;
}

-- Some leg of the plan is not filled, or it has none.
abbrev pub IsUnfilled : List Leg → Type 0
IsUnfilled legs = (legs ≡ []) ⊎ (any (λ l. not (is_filled l.state)) legs ≡ true)

all_filled :
    (legs : List Leg)
    → any (λ l. not (is_filled l.state)) legs ≡ false
    → All (λ l. l.state ≡ filled) legs
unfolding any
all_filled [] e = tt
all_filled (l ∷ legs) e = (ground arith, all_filled legs (ground arith))

-- The legs are all filled, or the guard of the method stops.
legs_cases :
    (legs : List Leg)
    → (IsUnfilled legs × ((length legs == 0 || any (λ l. not (is_filled l.state)) legs) ≡ true))
      ⊎ ((legs ≢ [])
          × All (λ l. l.state ≡ filled) legs
          × ((length legs == 0 || any (λ l. not (is_filled l.state)) legs) ≡ false))
legs_cases [] = inl (inl refl, refl)
legs_cases (l ∷ legs) = elim (Bool-cases (any (λ x. not (is_filled x.state)) (l ∷ legs))) [
  | inl e ↦ inl (inr e, ground arith)
  | inr e ↦ inr ((λ p. cc p), all_filled (l ∷ legs) e, ground arith)
]

-- The world after the plan is completed.
abbrev pub completed_world : Call → Plan → World → World
completed_world call plan w =
    let saved = completed_plan call plan in
    record_audit mark_plan_completed saved.id (some saved.entity_version)
      (put_event (completed_event call saved) (put_plan saved w))

completed_is_found :
    (call : Call) (i : String) (plan : Plan) (w : World)
    → find_plan i w ≡ some plan
    → find_plan i (completed_world call plan w) ≡ some (completed_plan call plan)
completed_is_found call i plan w e =
    saved_is_found i plan (completed_plan call plan) w (completed_world call plan w) e refl refl

-- The plan is completed exactly when it is `executing`, has a leg, and all its legs are filled: it is
-- then stored as `completed` with the next version, and the PlanCompleted event of the stored plan
-- is the one event added. In every other case nothing changes, in the tables or in the audit calls.
pub try_mark_plan_completed_exact :
    (call : Call) (plan_id : String) (w : World)
    → ((plan : Plan) × (w' : World) × (find_plan plan_id w ≡ some plan)
        × (plan.state ≡ executing)
        × (legs_of plan_id w.legs ≢ [])
        × All (λ l. l.state ≡ filled) (legs_of plan_id w.legs)
        × (try_mark_plan_completed call plan_id w
            ≡ returned (record { done = true; plan = some (completed_plan call plan) }) w')
        × (find_plan plan_id w' ≡ some (completed_plan call plan))
        × (w'.outbox ≡ w.outbox ++ completed_event call (completed_plan call plan) ∷ [])
        × (w'.legs ≡ w.legs))
      ⊎ ((plan : Option Plan) × (try_mark_plan_completed call plan_id w
            ≡ returned (record { done = false; plan = plan }) w)
          × (IsUnfilled (legs_of plan_id w.legs)
              ⊎ (find_plan plan_id w ≡ none)
              ⊎ ((p : Plan) × (find_plan plan_id w ≡ some p) × (is_executing p.state ≡ false))))
unfolding try_mark_plan_completed
try_mark_plan_completed_exact call plan_id w = elim (legs_cases (legs_of plan_id w.legs)) [
  | inl (why, stop) ↦ inr (none, rw stop refl, inl why)
  | inr (some_leg, filled_legs, go) ↦ elim (Option-cases (find_plan plan_id w)) [
    | inl missing ↦ inr (none, ground arith, inr (inl missing))
    | inr (plan, found) ↦ elim (Bool-cases (is_executing plan.state)) [
      | inl running ↦ inl (
        plan,
        completed_world call plan w,
        found,
        ground arith,
        some_leg,
        filled_legs,
        ground arith,
        completed_is_found call plan_id plan w found,
        refl,
        refl,
      )
      | inr other ↦ inr (some plan, ground arith, inr (inr (plan, found, other)))
    ]
  ]
]
