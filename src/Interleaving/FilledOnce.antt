-- ===== src/Interleaving/FilledOnce.antt =====
-- The LegFilled events of a leg over every history.
use arbibot.Base.{
  save_row, ◌≤◌, String, ◌≡◌, ◌≢◌, refl, sym, subst, ap, ◌∙◌, inl, inr, ◌⊎◌, true, ◌&&◌, Option,
  some, List, [], ◌∷◌, ◌++◌, All, All-Occurs, All-save_only_row, Bool-cases, arith, str_eq,
  str_eq_iff, rows_under, find_by-Occurs, if◌then◌else◌,
}
use arbibot.Store.Types.{Leg, leg_filled, filled, OutboxEvent, World, Call, leg_key}
use arbibot.Store.Exec.{returned, after, Reply-cases}
use arbibot.Plans.Lifecycle.{is_filled}
use arbibot.Legs.Send.{move_leg, find_leg_of_plan, OnChainMeta, complete_mark_sent}
use arbibot.Legs.Fill.{Settlement, ApplyFill, apply_fill_tx, may_fill}
use arbibot.Legs.Effects.{apply_fill_tx-ok, apply_fill_tx-err}
use arbibot.Interleaving.{
  Action, creates, links, arms, begins, begins_send, completes_send, fails_send, terminates_send,
  acknowledges, fills, completes, fails, reaps, step, run,
}
use arbibot.Interleaving.Invariants.{Rests, Rests-Preserved}
use arbibot.Interleaving.Closure.{Issues, Issued, step-All}
use arbibot.Interleaving.Keys.{step-rows}
use arbibot.Interleaving.Announcements.{
  announced, announced-append, Silent-announced, emit_tx_event-Silent, create_plan-announced,
  link_reservation_tx-announced, arm_tx-announced, try_mark_plan_completed-announced,
  mark_failed-announced, begin_mark_sent-announced, fail_submitting_leg-announced,
  mark_acknowledged-announced, apply_terminal_submit_error-announced, reap_stuck_leg-announced,
  complete_mark_sent-announced, begin_execution-announced, apply_fill_tx-announced,
}

-- The leg has one row at most, and an event only where it is filled.
Once : String → World → Type 0
Once i w =
    (rows_under leg_key i w.legs ≤ 1)
    × ((announced i w.outbox ≡ 0) ⊎ ((announced i w.outbox ≡ 1) × All (Rests i filled) w.legs))

module _ (i : String) (call : Call) (w : World) where
  quiet :
      (action : Action)
      → Issues (λ j. j ≢ i) action
      → announced i (step call action w).outbox ≡ announced i w.outbox
      → Once i w
      → Once i (step call action w)
  unfolding Once Rests
  quiet action new same (few, h) = (
    subst (λ n. n ≤ 1) (sym (step-rows i call action w new)) few,
    elim h [
      | inl none_yet ↦ inl (same ∙ none_yet)
      | inr (one, resting) ↦ inr (
        same ∙ one,
        step-All (Rests i filled) (λ j. j ≢ i) (Rests-Preserved i filled refl)
            (λ l other _ _ _ at. absurd (other at)) call action w new resting,
      )
    ],
  )

  sent_events :
      (plan leg : String) (correlation : Option String) (order : String) (meta : Option OnChainMeta)
      → announced i (after (complete_mark_sent call plan leg correlation order meta w)).outbox
        ≡ announced i w.outbox
  sent_events plan leg correlation order meta =
      elim (complete_mark_sent-announced i call w plan leg correlation order meta) [
        | inl same ↦ ap (announced i) same
        | inr (c, t, u, before, same) ↦
            ap (announced i) same
            ∙ Silent-announced i u.outbox _ (emit_tx_event-Silent call c t u)
            ∙ ap (announced i) before
      ]

  fill_cases :
      (plan leg : String) (dto : ApplyFill) (ev : OutboxEvent) {l l' : Leg} {s : Option Settlement}
      {w' : World}
      → Once i w
      → apply_fill_tx call plan leg dto w ≡ returned (l', s) w'
      → find_leg_of_plan plan leg w ≡ some l
      → may_fill l.state ≡ true
      → l' ≡ record (move_leg call l'.state l) { filled_quantity = l'.filled_quantity }
      → w'.legs ≡ save_row leg_key l' w.legs
      → ev.event_type ≡ leg_filled
      → ev.entity_id ≡ l'.id
      → w'.outbox ≡ (if is_filled l'.state then w.outbox ++ ev ∷ [] else w.outbox)
      → Once i (step call (fills plan leg dto) w)
  unfolding Once Rests step find_leg_of_plan
  fill_cases plan leg dto ev {l} {l'} {s} {w'} (few, h) e found may is_l' saved kind of added =
      let same_world : after (apply_fill_tx call plan leg dto w) ≡ w' = ap after e in
      elim (Bool-cases (is_filled l'.state && str_eq l'.id i)) [
        | inr other ↦
            quiet (fills plan leg dto) tt
              (ap (λ u. announced i u.outbox) same_world
                ∙ ap (announced i) added
                ∙ ground (arith, announced-append i w.outbox ev, of, str_eq_iff ev.entity_id i))
              (few, h)
        | inl hit ↦
            let id : l'.id ≡ i = ground (arith, str_eq_iff l'.id i) in
            let done : l'.state ≡ filled = ground arith in
            let old_id : l.id ≡ i = sym (ap (λ x. x.id) is_l') ∙ id in
            (
              subst (λ n. n ≤ 1) (sym (step-rows i call (fills plan leg dto) w tt)) few,
              elim h [
                | inr (one, resting) ↦
                    let state =
                      All-Occurs (Rests i filled) w.legs resting (find_by-Occurs _ w.legs found)
                        old_id in
                    absurd (ground arith)
                | inl none_yet ↦ inr (
                  ap (λ u. announced i u.outbox) same_world
                      ∙ ap (announced i) added
                      ∙ ground (
                        arith,
                        announced-append i w.outbox ev,
                        of,
                        kind,
                        str_eq_iff ev.entity_id i,
                      ),
                  subst (λ u. All (Rests i filled) u.legs) (sym same_world)
                      (subst (All (Rests i filled)) (sym saved) (
                        All-save_only_row leg_key i (Rests i filled) l' w.legs
                          (λ x other at. absurd (other at)) id few (λ _. done))),
                )
              ],
            )
      ]

  -- A fill that is not of the leg, or fills it partly, or not at all, announces nothing of it.
  filled_events :
      (plan leg : String) (dto : ApplyFill) → Once i w → Once i (step call (fills plan leg dto) w)
  unfolding Once Rests step find_leg_of_plan
  filled_events plan leg dto (few, h) = elim (Reply-cases (apply_fill_tx call plan leg dto w)) [
    | inr (x, e) ↦
        quiet (fills plan leg dto) tt
          (ap (λ d. announced i d.outbox) (apply_fill_tx-err call plan leg w dto e)) (few, h)
    | inl ((l', s), e) ↦ elim (apply_fill_tx-announced i call w plan leg dto e) [
      | inl same ↦ quiet (fills plan leg dto) tt (ap (λ d. announced i d.outbox) same) (few, h)
      | inr (ev, kind, of, added) ↦
          let (l, found, how) = apply_fill_tx-ok call plan leg w dto e in
          elim how [
            | inl (_, same, _) ↦
                quiet (fills plan leg dto) tt (ap (λ d. announced i d.outbox) same) (few, h)
            | inr (may, next, is_l', saved, _, _) ↦
                fill_cases plan leg dto ev (few, h) e found may is_l' saved kind of added
          ]
    ]
  ]

  step-Once :
      (action : Action) → Issues (λ j. j ≢ i) action → Once i w → Once i (step call action w)
  unfolding step
  step-Once (creates id dto) new h =
      quiet (creates id dto) new (ap (announced i) (create_plan-announced i call w id dto)) h
  step-Once (links plan reservation) new h =
      quiet (links plan reservation) new
        (ap (announced i) (link_reservation_tx-announced i call w plan reservation)) h
  step-Once (arms plan) new h =
      quiet (arms plan) new (Silent-announced i w.outbox _ (arm_tx-announced i call w plan)) h
  step-Once (begins env plan) new h =
      quiet (begins env plan) new (ap (announced i) (begin_execution-announced i call w env plan)) h
  step-Once (begins_send halted plan leg) new h =
      quiet (begins_send halted plan leg) new
        (ap (announced i) (begin_mark_sent-announced i call w halted plan leg)) h
  step-Once (completes_send plan leg correlation order meta) new h =
      quiet (completes_send plan leg correlation order meta) new
        (sent_events plan leg correlation order meta) h
  step-Once (fails_send plan leg) new h =
      quiet (fails_send plan leg) new
        (ap (announced i) (fail_submitting_leg-announced i call w plan leg)) h
  step-Once (terminates_send plan leg s) new h =
      quiet (terminates_send plan leg s) new
        (ap (announced i) (apply_terminal_submit_error-announced i call w plan leg s)) h
  step-Once (acknowledges plan leg) new h =
      quiet (acknowledges plan leg) new
        (ap (announced i) (mark_acknowledged-announced i call w plan leg)) h
  step-Once (fills plan leg dto) new h = filled_events plan leg dto h
  step-Once (completes plan) new h =
      quiet (completes plan) new
        (Silent-announced i w.outbox _ (try_mark_plan_completed-announced i call w plan)) h
  step-Once (fails reason plan) new h =
      quiet (fails reason plan) new
        (Silent-announced i w.outbox _ (mark_failed-announced i call w reason plan)) h
  step-Once (reaps leg) new h =
      quiet (reaps leg) new (ap (announced i) (reap_stuck_leg-announced i call w leg)) h

run-Once :
    (i : String) (history : List (Call × Action)) (w : World)
    → Issued (λ j. j ≢ i) history
    → Once i w
    → Once i (run history w)
unfolding run
run-Once i [] w new h = h
run-Once i ((call, action) ∷ rest) w new h =
    run-Once i rest (step call action w) new.1 (step-Once i call w action new.0 h)

-- Over any history, at most one LegFilled event of a leg is ever written, and once it is, every row of
-- the leg is `filled`. At the start there is none and the leg has at most one row, and no new row gets
-- its id.
pub filled_once :
    (i : String) (history : List (Call × Action)) (w : World)
    → Issued (λ j. j ≢ i) history
    → rows_under leg_key i w.legs ≤ 1
    → announced i w.outbox ≡ 0
    → (announced i (run history w).outbox ≡ 0)
      ⊎ ((announced i (run history w).outbox ≡ 1) × All (Rests i filled) (run history w).legs)
unfolding Once
filled_once i history w new few none_yet = (run-Once i history w new (few, inl none_yet)).1
