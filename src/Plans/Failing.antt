-- ===== src/Plans/Failing.antt =====
-- What `markFailed` of plans.service.ts does to the plan and to its legs.
use arbibot.Base.{
  refl, ap, subst, find_key-key, ◌++◌, str_eq_iff, ◌+◌, String, ◌≡◌, ◌⊎◌, inl, inr, true, false,
  none, some, List, [], ◌∷◌, map, All, str_eq, Bool-cases, Option-cases, arith,
}
use arbibot.Store.Types.{plan_key, Plan, failed, Leg, World, Call, mark_plan_failed}
use arbibot.Store.Exec.{after, returned, find_plan, put_plan, put_event, record_audit}
use arbibot.Plans.Linking.{saved_is_found}
use arbibot.Plans.Lifecycle.{FailReason, is_swept, sweep_leg, may_fail, failed_event, mark_failed}

abbrev pub failed_plan : Call → Plan → Plan
failed_plan call plan = record plan {
  state = failed;
  entity_version = plan.entity_version + 1;
  updated_at = call.now;
}

abbrev pub swept_world : Call → Plan → World → World
swept_world call plan w = record w {
  db = record w.db { legs = map (sweep_leg call plan.id) w.legs };
}

-- The world after the plan is failed.
abbrev pub failed_world : Call → FailReason → Plan → World → World
failed_world call reason plan w =
    let saved = failed_plan call plan in
    record_audit mark_plan_failed saved.id (some saved.entity_version)
      (put_event (failed_event call reason saved) (swept_world call plan (put_plan saved w)))

-- Every branch of the method.
pub mark_failed_cases :
    (call : Call) (reason : FailReason) (plan_id : String) (w : World)
    → ((plan : Plan) × (find_plan plan_id w ≡ some plan)
        × (may_fail plan.state ≡ true)
        × (mark_failed call reason plan_id w
            ≡ returned
                (record { done = true; plan = some (failed_plan call plan) })
                (failed_world call reason plan w)))
      ⊎ ((mark_failed call reason plan_id w
            ≡ returned (record { done = false; plan = find_plan plan_id w }) w)
          × ((find_plan plan_id w ≡ none)
              ⊎ ((plan : Plan) × (find_plan plan_id w ≡ some plan)
                  × (may_fail plan.state ≡ false))))
unfolding mark_failed
mark_failed_cases call reason plan_id w = elim (Option-cases (find_plan plan_id w)) [
  | inl missing ↦ inr (ground arith, inl missing)
  | inr (plan, found) ↦ elim (Bool-cases (may_fail plan.state)) [
    | inl running ↦ inl (plan, found, running, ground arith)
    | inr other ↦ inr (ground arith, inr (plan, found, other))
  ]
]

-- No leg of the plan is left in a state that the sweep covers.
swept_legs :
    (call : Call) (plan_id : String) (legs : List Leg)
    → All (λ l. l.plan_id ≡ plan_id → is_swept l.state ≡ false) (map (sweep_leg call plan_id) legs)
unfolding sweep_leg
swept_legs call plan_id [] = tt
swept_legs call plan_id (l ∷ legs) =
    (λ same. ground (arith, str_eq_iff l.plan_id plan_id), swept_legs call plan_id legs)

-- A leg of another plan, and a leg in any other state, is left alone.
sweep_leg_other :
    (call : Call) (plan_id : String) (l : Leg)
    → (str_eq l.plan_id plan_id ≡ false) ⊎ (is_swept l.state ≡ false)
    → sweep_leg call plan_id l ≡ l
unfolding sweep_leg
sweep_leg_other call plan_id l h = ground arith

-- A plan that cannot fail is left alone.
no_effect :
    (call : Call) (reason : FailReason) (plan_id : String) (w : World)
    → (find_plan plan_id w ≡ none)
      ⊎ ((plan : Plan) × (find_plan plan_id w ≡ some plan) × (may_fail plan.state ≡ false))
    → mark_failed call reason plan_id w
      ≡ returned (record { done = false; plan = find_plan plan_id w }) w
unfolding mark_failed
no_effect call reason plan_id w (inl missing) = ground arith
no_effect call reason plan_id w (inr (plan, found, other)) = ground arith

-- An `armed` or `executing` plan is failed: it is stored as `failed` with the next version and its
-- other columns, the PlanFailed event of the stored plan is the one event added, no leg of the plan
-- is left `created`, `submitting` or `partiallyFilled`, and of the legs only those change that
-- belong to the plan and stood in such a state.
pub mark_failed_sweeps :
    (call : Call) (reason : FailReason) (plan_id : String) (w : World) {plan : Plan}
    → find_plan plan_id w ≡ some plan
    → may_fail plan.state ≡ true
    → let w' = after (mark_failed call reason plan_id w) in
      (mark_failed call reason plan_id w
        ≡ returned (record { done = true; plan = some (failed_plan call plan) }) w')
      × (find_plan plan_id w' ≡ some (failed_plan call plan))
      × (w'.outbox ≡ w.outbox ++ failed_event call reason (failed_plan call plan) ∷ [])
      × All (λ l. l.plan_id ≡ plan_id → is_swept l.state ≡ false) w'.legs
      × (w'.legs ≡ map (sweep_leg call plan_id) w.legs)
      × ((l : Leg)
          → (str_eq l.plan_id plan_id ≡ false) ⊎ (is_swept l.state ≡ false)
          → sweep_leg call plan_id l ≡ l)
mark_failed_sweeps call reason plan_id w {plan} found running =
    elim (mark_failed_cases call reason plan_id w) [
      | inl (p, found', _, done) ↦
          let same : p ≡ plan = ground arith in
          let key : plan.id ≡ plan_id = find_key-key plan_key plan_id w.plans found in
          let eq : mark_failed call reason plan_id w
              ≡ returned (record { done = true; plan = some (failed_plan call plan) })
                  (failed_world call reason plan w) =
            subst
              (λ x.
                mark_failed call reason plan_id w
                ≡ returned (record { done = true; plan = some (failed_plan call x) })
                    (failed_world call reason x w))
              same done in
          let swept : map (sweep_leg call plan.id) w.legs ≡ map (sweep_leg call plan_id) w.legs =
            ap (λ i. map (sweep_leg call i) w.legs) key in
          rw eq (
            refl,
            saved_is_found plan_id plan (failed_plan call plan) w (failed_world call reason plan w)
                found refl refl,
            refl,
            rw swept (swept_legs call plan_id w.legs),
            swept,
            sweep_leg_other call plan_id,
          )
      | inr (_, inl missing) ↦ absurd (cc (missing, found))
      | inr (_, inr (p, found', other)) ↦ absurd (ground arith)
    ]

-- Calling `markFailed` again, with any reason, reports that nothing was failed, returns the plan as
-- it is stored, and changes nothing: no second event, no second audit call.
pub mark_failed_twice :
    (call again : Call) (reason reason' : FailReason) (plan_id : String) (w : World)
    → let w' = after (mark_failed call reason plan_id w) in
      mark_failed again reason' plan_id w'
      ≡ returned (record { done = false; plan = find_plan plan_id w' }) w'
mark_failed_twice call again reason reason' plan_id w =
    elim (mark_failed_cases call reason plan_id w) [
      | inl (plan, found, running, done) ↦ rw done (
          no_effect again reason' plan_id (failed_world call reason plan w) (
            inr (
              failed_plan call plan,
              saved_is_found plan_id plan (failed_plan call plan) w
                  (failed_world call reason plan w) found refl refl,
              refl,
            )))
      | inr (none_done, why) ↦ rw none_done (no_effect again reason' plan_id w why)
    ]
