-- ===== src/Interleaving/Recovery.antt =====
-- Legs that wait for a broadcast and transactions on a chain: what the reaper can find.
use arbibot.Base.{
  ◌≤◌, String, ◌≡◌, ◌≢◌, refl, sym, subst, ap, ◌∙◌, inl, inr, ◌⊎◌, Bool, true, false, Option, none,
  List, [], ◌∷◌, ◌++◌, All, All-Occurs, All-save_only_row, any, Bool-cases, Option-cases, arith,
  str_eq, str_eq_iff, rows_under, find_by-test, find_key, find_key-Occurs, find_key-key,
}
use arbibot.Store.Types.{Leg, LegState, created, submitting, OnChainTx, World, Call, leg_key}
use arbibot.Store.Exec.{returned, after, Reply-cases}
use arbibot.Legs.Send.{
  complete_mark_sent, find_leg_of_plan, OnChainMeta, on_chain_row, venue_rejected, venue_timed_out,
  venue_failed, is_submitting,
}
use arbibot.Legs.Fill.{confirmed_tx}
use arbibot.Legs.Effects.{complete_mark_sent-ok, complete_mark_sent-err}
use arbibot.Reaper.{reaped_failed, reap_stuck_leg}
use arbibot.Interleaving.{
  Action, creates, links, arms, begins, begins_send, completes_send, fails_send, terminates_send,
  acknowledges, fills, completes, fails, reaps, step, run,
}
use arbibot.Interleaving.Moves.{reserve, send, fail, terminate, acknowledge, fill, sweep, price}
use arbibot.Interleaving.Invariants.{next_fill-states}
use arbibot.Interleaving.Closure.{Issues, Issued, Preserved, step-All}
use arbibot.Interleaving.Keys.{step-rows}
use arbibot.Interleaving.Txs.{
  create_plan-txs, link_reservation_tx-txs, arm_tx-txs, try_mark_plan_completed-txs,
  mark_failed-txs, begin_mark_sent-txs, fail_submitting_leg-txs, apply_terminal_submit_error-txs,
  mark_acknowledged-txs, apply_fill_tx-txs, reap_stuck_leg-txs, complete_mark_sent-txs,
  begin_execution-txs,
}

-- Before phase 3.
abbrev waits : LegState → Bool
waits created = true
waits submitting = true
waits _ = false

Past : String → Leg → Type 0
Past i l = l.id ≡ i → waits l.state ≡ false

Past-Preserved : (i : String) → Preserved (Past i)
unfolding Past
Past-Preserved i call l l' h (reserve e) same = absurd (ground (arith, h same))
Past-Preserved i call l l' h (send v e) same = refl
Past-Preserved i call l l' h (fail e) same = refl
Past-Preserved i call l l' h (terminate venue_rejected e) same = refl
Past-Preserved i call l l' h (terminate venue_timed_out e) same = refl
Past-Preserved i call l l' h (terminate venue_failed e) same = refl
Past-Preserved i call l l' h (acknowledge e) same = refl
Past-Preserved i call l l' h (fill dto q s may next) same = elim (next_fill-states dto l next) [
  | inl e ↦ rw e refl
  | inr e ↦ rw e refl
]
Past-Preserved i call l l' h (sweep e) same = refl
Past-Preserved i call l l' h (price c) same = h same

-- A transaction of the leg is stored.
unfoldable pub has_tx : String → List OnChainTx → Bool
unfolding any str_eq
has_tx i txs = any (λ t. str_eq t.leg_id i) txs

has_tx-append :
    (i : String) (txs : List OnChainTx) (t : OnChainTx)
    → t.leg_id ≢ i
    → has_tx i (txs ++ t ∷ []) ≡ has_tx i txs
unfolding has_tx
has_tx-append i [] t other = ground (arith, str_eq_iff t.leg_id i)
has_tx-append i (x ∷ txs) t other = ground (arith, has_tx-append i txs t other)

-- The leg has one row at most, and no transaction while it waits.
Waiting : String → World → Type 0
Waiting i w = (rows_under leg_key i w.legs ≤ 1) × ((has_tx i w.txs ≡ false) ⊎ All (Past i) w.legs)

module _ (i : String) (call : Call) (w : World) where
  step-Past :
      (action : Action)
      → Issues (λ j. j ≢ i) action
      → All (Past i) w.legs
      → (has_tx i (step call action w).txs ≡ false) ⊎ All (Past i) (step call action w).legs
  unfolding Past
  step-Past action new past = inr (
      step-All (Past i) (λ j. j ≢ i) (Past-Preserved i) (λ l other _ _ _ at. absurd (other at)) call
        action w new past)

  kept :
      (action : Action)
      → Issues (λ j. j ≢ i) action
      → (step call action w).txs ≡ w.txs
      → Waiting i w
      → Waiting i (step call action w)
  unfolding Waiting Past
  kept action new same (few, h) = (
    subst (λ n. n ≤ 1) (sym (step-rows i call action w new)) few,
    elim h [ inl quiet ↦ inl (ap (has_tx i) same ∙ quiet) | inr past ↦ step-Past action new past ],
  )

  -- Phase 3 of the leg itself takes it out of the states that wait.
  complete_mark_sent-Past :
      (plan leg : String) (correlation : Option String) (order : String) (meta : Option OnChainMeta)
      → leg ≡ i
      → Waiting i w
      → (has_tx i (after (complete_mark_sent call plan leg correlation order meta w)).txs ≡ false)
        ⊎ All (Past i) (after (complete_mark_sent call plan leg correlation order meta w)).legs
  unfolding Waiting Past find_leg_of_plan
  complete_mark_sent-Past plan leg correlation order meta is_i (few, h) =
      elim (Reply-cases (complete_mark_sent call plan leg correlation order meta w)) [
        | inr (x, e) ↦
            let same = complete_mark_sent-err call plan leg w correlation order meta e in
            subst (λ d. (has_tx i d.txs ≡ false) ⊎ All (Past i) d.legs) (sym same) h
        | inl (l', e) ↦
            let (l, found, how) = complete_mark_sent-ok call plan leg w correlation order meta e in
            let id : l.id ≡ i = ground (arith, find_by-test _ w.legs found, str_eq_iff l.id leg) in
            elim how [
              | inl (_, _, same) ↦
                  subst (λ d. (has_tx i d.txs ≡ false) ⊎ All (Past i) d.legs) (sym same) h
              | inr (state, is_l', saved, _) ↦ inr (
                  subst (All (Past i)) (sym saved) (
                    All-save_only_row leg_key i (Past i) l' w.legs (λ x other at. absurd (other at))
                      (ap (λ x. x.id) is_l' ∙ id) few (λ _. ap (λ x. waits x.state) is_l')))
            ]
      ]

  completed :
      (plan leg : String) (correlation : Option String) (order : String) (meta : Option OnChainMeta)
      → Waiting i w
      → Waiting i (step call (completes_send plan leg correlation order meta) w)
  unfolding Waiting step find_leg_of_plan on_chain_row
  completed plan leg correlation order meta (few, h) =
      elim (complete_mark_sent-txs call w plan leg correlation order meta) [
        | inl same ↦ kept (completes_send plan leg correlation order meta) tt same (few, h)
        | inr (l, m, found, txs) ↦
            let test = find_by-test _ w.legs found in
            (
              subst (λ n. n ≤ 1)
                  (sym (step-rows i call (completes_send plan leg correlation order meta) w tt))
                  few,
              elim (Bool-cases (str_eq leg i)) [
                | inl hit ↦
                    complete_mark_sent-Past plan leg correlation order meta
                      ((str_eq_iff leg i).0 hit) (few, h)
                | inr miss ↦ elim h [
                  | inr past ↦ (step-Past (completes_send plan leg correlation order meta) tt past)
                  | inl quiet ↦ inl (
                      ap (has_tx i) txs
                      ∙ has_tx-append i w.txs (on_chain_row call l.id m)
                          (λ at. absurd (ground (arith, str_eq_iff leg i, str_eq_iff l.id leg)))
                      ∙ quiet)
                ]
              ],
            )
      ]

  step-Waiting :
      (action : Action) → Issues (λ j. j ≢ i) action → Waiting i w → Waiting i (step call action w)
  unfolding step
  step-Waiting (creates id dto) new h = kept (creates id dto) new (create_plan-txs call w id dto) h
  step-Waiting (links plan reservation) new h =
      kept (links plan reservation) new (link_reservation_tx-txs call w plan reservation) h
  step-Waiting (arms plan) new h = kept (arms plan) new (arm_tx-txs call w plan) h
  step-Waiting (begins env plan) new h =
      kept (begins env plan) new (begin_execution-txs call w env plan) h
  step-Waiting (begins_send halted plan leg) new h =
      kept (begins_send halted plan leg) new (begin_mark_sent-txs call w halted plan leg) h
  step-Waiting (completes_send plan leg correlation order meta) new h =
      completed plan leg correlation order meta h
  step-Waiting (fails_send plan leg) new h =
      kept (fails_send plan leg) new (fail_submitting_leg-txs call w plan leg) h
  step-Waiting (terminates_send plan leg s) new h =
      kept (terminates_send plan leg s) new (apply_terminal_submit_error-txs call w plan leg s) h
  step-Waiting (acknowledges plan leg) new h =
      kept (acknowledges plan leg) new (mark_acknowledged-txs call w plan leg) h
  step-Waiting (fills plan leg dto) new h =
      kept (fills plan leg dto) new (apply_fill_tx-txs call w plan leg dto) h
  step-Waiting (completes plan) new h =
      kept (completes plan) new (try_mark_plan_completed-txs call w plan) h
  step-Waiting (fails reason plan) new h =
      kept (fails reason plan) new (mark_failed-txs call w reason plan) h
  step-Waiting (reaps leg) new h = kept (reaps leg) new (reap_stuck_leg-txs call w leg) h

run-Waiting :
    (i : String) (history : List (Call × Action)) (w : World)
    → Issued (λ j. j ≢ i) history
    → Waiting i w
    → Waiting i (run history w)
unfolding run
run-Waiting i [] w new h = h
run-Waiting i ((call, action) ∷ rest) w new h =
    run-Waiting i rest (step call action w) new.1 (step-Waiting i call w action new.0 h)

no_confirmed :
    (i : String) (txs : List OnChainTx) → has_tx i txs ≡ false → confirmed_tx i txs ≡ none
unfolding has_tx confirmed_tx
no_confirmed i [] e = refl
no_confirmed i (t ∷ txs) e = ground (arith, no_confirmed i txs (ground arith))

reap_cases :
    (i : String) (call : Call) (w : World)
    → Waiting i w
    → ((after (reap_stuck_leg call i w)).db ≡ w.db)
      ⊎ (reap_stuck_leg call i w ≡ returned reaped_failed (after (reap_stuck_leg call i w)))
unfolding Waiting Past reap_stuck_leg
reap_cases i call w (few, h) = elim (Option-cases (find_key leg_key i w.legs)) [
  | inl missing ↦ inl (ground arith)
  | inr (l, found) ↦ elim (Bool-cases (is_submitting l.state)) [
    | inr moved ↦ inl (ground arith)
    | inl waiting ↦
        let id = find_key-key leg_key i w.legs found in
        elim h [
          | inl quiet ↦ inr (ground (arith, no_confirmed i w.txs quiet, id))
          | inr past ↦
              let state =
                All-Occurs (Past i) w.legs past (find_key-Occurs leg_key i w.legs found) id in
              absurd (ground arith)
        ]
  ]
]

-- The reaper never finds a transaction of a leg that is still `submitting`, so it never recovers one:
-- the row of a transaction is stored only with the step from `submitting` to `sent`. At the start the
-- leg has no transaction and at most one row, and no new row gets its id.
pub reaper_never_recovers :
    (i : String) (history : List (Call × Action)) (call : Call) (w : World)
    → Issued (λ j. j ≢ i) history
    → rows_under leg_key i w.legs ≤ 1
    → has_tx i w.txs ≡ false
    → ((after (reap_stuck_leg call i (run history w))).db ≡ (run history w).db)
      ⊎ (reap_stuck_leg call i (run history w)
          ≡ returned reaped_failed (after (reap_stuck_leg call i (run history w))))
unfolding Waiting Past
reaper_never_recovers i history call w new few none_yet =
    reap_cases i call (run history w) (run-Waiting i history w new (few, inl none_yet))
