-- ===== src/Interleaving/Announcements.antt =====
-- Which transactions of execution-orchestrator write a LegFilled event.
use arbibot.Base.{
  get_or, find_by, ℕ, ◌+◌, String, ◌≡◌, refl, ap, ◌∙◌, inl, inr, ◌⊎◌, Bool, true, false, ◌&&◌,
  Option, none, some, List, [], ◌∷◌, ◌++◌, map, count, count-append, any, Bool-cases, Option-cases,
  arith, str_eq, if◌then◌else◌,
}
use arbibot.Store.Types.{
  OnChainTx, TxStatus, pending, confirmed, tx_failed, reverted, armed, sent, Leg, OutboxEvent,
  EventName, leg_filled, World, Call,
}
use arbibot.Store.Exec.{
  returned, after, Reply-cases, transaction, find_plan, insert_legs, put_plan, put_leg,
}
use arbibot.Plans.Lifecycle.{
  is_reserved, FailReason, mark_failed, CreatePlan, create_plan, link_reservation_tx, arm_tx,
  try_mark_plan_completed, is_filled, armed_event, completed_event, failed_event,
}
use arbibot.Plans.Completion.{completed_plan, try_mark_plan_completed_exact}
use arbibot.Plans.Failing.{failed_plan, mark_failed_cases}
use arbibot.Interleaving.PlanMoves.{move_plan}
use arbibot.Legs.Begin.{BeginEnv, begin_execution_of_plan}
use arbibot.Legs.BeginEffects.{
  started_plan, apply_plan_cost_gate-returned, begin_execution-returned, begin_execution-threw,
}
use arbibot.Legs.Cost.{price_leg, save_legs}
use arbibot.Legs.Send.{
  tx_event, same_tx_event, tx_event_name, move_leg, is_submitting, on_chain_row, insert_tx,
  begin_mark_sent, complete_mark_sent, fail_submitting_leg, apply_terminal_submit_error,
  find_leg_of_plan, OnChainMeta, TerminalState, emit_tx_event,
}
use arbibot.Legs.Fill.{
  key_seen, usable_key, Settlement, ApplyFill, mark_acknowledged, apply_fill_tx, filled_event,
  confirmed_tx,
}
use arbibot.Reaper.{reap_stuck_leg}

abbrev pub is_leg_filled : EventName → Bool
is_leg_filled leg_filled = true
is_leg_filled _ = false

-- The number of LegFilled events of a leg.
unfoldable pub announced : String → List OutboxEvent → ℕ
unfolding count str_eq
announced i events = count (λ e. is_leg_filled e.event_type && str_eq e.entity_id i) events

pub announced-append :
    (i : String) (events : List OutboxEvent) (e : OutboxEvent)
    → announced i (events ++ e ∷ [])
      ≡ announced i events + (if is_leg_filled e.event_type && str_eq e.entity_id i then 1 else 0)
unfolding announced
announced-append i events e =
    omega (
      arith,
      count-append (λ x. is_leg_filled x.event_type && str_eq x.entity_id i) events (e ∷ []),
    )

save_legs-outbox : (legs : List Leg) (u : World) → (save_legs legs u).outbox ≡ u.outbox
unfolding save_legs
save_legs-outbox [] u = refl
save_legs-outbox (l ∷ legs) u = save_legs-outbox legs (put_leg l u)

-- No event, or one of another kind.
unfoldable pub Silent : List OutboxEvent → List OutboxEvent → Type 0
Silent before after_events =
    (after_events ≡ before)
    ⊎ ((e : OutboxEvent) × (is_leg_filled e.event_type ≡ false) × (after_events ≡ before ++ e ∷ []))

pub Silent-announced :
    (i : String) (before after_events : List OutboxEvent)
    → Silent before after_events
    → announced i after_events ≡ announced i before
unfolding Silent
Silent-announced i before after_events (inl same) = ap (announced i) same
Silent-announced i before after_events (inr (e, other, added)) =
    ap (announced i) added ∙ ground (arith, announced-append i before e)

dex_is_other : (s : TxStatus) → is_leg_filled (tx_event_name s) ≡ false
dex_is_other pending = refl
dex_is_other confirmed = refl
dex_is_other tx_failed = refl
dex_is_other reverted = refl

pub emit_tx_event-Silent :
    (call : Call) (c : String) (t : OnChainTx) (w : World)
    → Silent w.outbox (emit_tx_event call c t w).outbox
unfolding Silent emit_tx_event tx_event
emit_tx_event-Silent call c t w = elim (Bool-cases (any (same_tx_event t) w.outbox)) [
  | inl there ↦ inl (ground arith)
  | inr absent ↦ inr (tx_event call c t, dex_is_other t.status, rw absent refl)
]

module _ (i : String) (call : Call) (w : World) where
  pub create_plan-announced :
      (id : String) (dto : CreatePlan) → (after (create_plan call id dto w)).outbox ≡ w.outbox
  unfolding create_plan
  create_plan-announced id dto = ground arith

  pub link_reservation_tx-announced :
      (plan reservation : String)
      → (after (transaction (link_reservation_tx call plan reservation) w)).outbox ≡ w.outbox
  unfolding link_reservation_tx
  link_reservation_tx-announced plan reservation = ground arith

  pub arm_tx-announced :
      (plan : String) → Silent w.outbox (after (transaction (arm_tx call plan) w)).outbox
  unfolding Silent arm_tx armed_event
  arm_tx-announced plan = elim (Option-cases (find_plan plan w)) [
    | inl missing ↦ inl (ground arith)
    | inr (p, found) ↦ elim (Bool-cases (is_reserved p.state)) [
      | inr other ↦ inl (ground arith)
      | inl state ↦ elim (Option-cases p.capital_reservation_id) [
        | inl unlinked ↦ inl (ground arith)
        | inr (r, linked) ↦ inr (armed_event call (move_plan call armed p), refl, ground arith)
      ]
    ]
  ]

  pub try_mark_plan_completed-announced :
      (plan : String) → Silent w.outbox (after (try_mark_plan_completed call plan w)).outbox
  unfolding Silent completed_event
  try_mark_plan_completed-announced plan = elim (try_mark_plan_completed_exact call plan w) [
    | inl (p, w', _, _, _, _, e, _, events, _) ↦
        inr (
          completed_event call (completed_plan call p),
          refl,
          ap (λ r. (after r).outbox) e ∙ events,
        )
    | inr (p, e, _) ↦ inl (ap (λ r. (after r).outbox) e)
  ]

  pub mark_failed-announced :
      (reason : FailReason) (plan : String)
      → Silent w.outbox (after (mark_failed call reason plan w)).outbox
  unfolding Silent failed_event
  mark_failed-announced reason plan = elim (mark_failed_cases call reason plan w) [
    | inl (p, _, _, e) ↦
        inr (failed_event call reason (failed_plan call p), refl, ap (λ r. (after r).outbox) e)
    | inr (e, _) ↦ inl (ap (λ r. (after r).outbox) e)
  ]

  pub begin_mark_sent-announced :
      (halted : Bool) (plan leg : String)
      → (after (begin_mark_sent halted call plan leg w)).outbox ≡ w.outbox
  unfolding begin_mark_sent
  begin_mark_sent-announced halted plan leg = ground arith

  pub fail_submitting_leg-announced :
      (plan leg : String) → (after (fail_submitting_leg call plan leg w)).outbox ≡ w.outbox
  unfolding fail_submitting_leg
  fail_submitting_leg-announced plan leg = ground arith

  pub mark_acknowledged-announced :
      (plan leg : String) → (after (mark_acknowledged call plan leg w)).outbox ≡ w.outbox
  unfolding mark_acknowledged
  mark_acknowledged-announced plan leg = ground arith

  pub apply_terminal_submit_error-announced :
      (plan leg : String) (s : TerminalState)
      → (after (apply_terminal_submit_error call plan leg s w)).outbox ≡ w.outbox
  unfolding apply_terminal_submit_error
  apply_terminal_submit_error-announced plan leg s = ground arith

  pub reap_stuck_leg-announced :
      (leg : String) → (after (reap_stuck_leg call leg w)).outbox ≡ w.outbox
  unfolding reap_stuck_leg
  reap_stuck_leg-announced leg = ground arith

  pub complete_mark_sent-announced :
      (plan leg : String) (correlation : Option String) (order : String) (meta : Option OnChainMeta)
      → ((after (complete_mark_sent call plan leg correlation order meta w)).outbox ≡ w.outbox)
        ⊎ ((c : String) × (t : OnChainTx) × (u : World) × (u.outbox ≡ w.outbox)
            × ((after (complete_mark_sent call plan leg correlation order meta w)).outbox
                ≡ (emit_tx_event call c t u).outbox))
  unfolding complete_mark_sent
  complete_mark_sent-announced plan leg correlation order none = inl (ground arith)
  complete_mark_sent-announced plan leg correlation order (some m) =
      elim (Option-cases (find_leg_of_plan plan leg w)) [
        | inl missing ↦ inl (ground arith)
        | inr (l, found) ↦ elim (Bool-cases (is_submitting l.state)) [
          | inr moved ↦ inl (ground arith)
          | inl waiting ↦
              let saved : Leg = record (move_leg call sent l) { venue_ref = some order } in
              elim (Option-cases (find_by (λ t. str_eq t.tx_hash m.tx_hash) w.txs)) [
                | inr (t, known) ↦
                    inr (get_or correlation plan, t, put_leg saved w, refl, ground arith)
                | inl unknown ↦ inr (
                  get_or correlation plan,
                  on_chain_row call l.id m,
                  insert_tx (on_chain_row call l.id m) (put_leg saved w),
                  refl,
                  ground arith,
                )
              ]
        ]
      ]

  pub begin_execution-announced :
      (env : BeginEnv) (plan_id : String)
      → (after (begin_execution_of_plan env call plan_id w)).outbox ≡ w.outbox
  begin_execution-announced env plan_id =
      elim (Reply-cases (begin_execution_of_plan env call plan_id w)) [
        | inr (x, e) ↦ ap (λ d. d.outbox) (begin_execution-threw env call plan_id w e)
        | inl (r, e) ↦
            let (plan, legs, v, _, _, _, _, gate, same) =
              begin_execution-returned env call plan_id w e in
            let start = insert_legs legs (put_plan (started_plan call plan) w) in
            ap (λ d. d.outbox) same
            ∙ elim (apply_plan_cost_gate-returned env.estimate env.min_net_profit
                (started_plan call plan) legs start gate) [
                  | inl nothing ↦ ap (λ u. u.outbox) nothing
                  | inr (b, _, stored) ↦
                      ap (λ u. u.outbox) stored ∙ save_legs-outbox (map (price_leg b) legs) start
                ]
      ]

  pub apply_fill_tx-announced :
      (plan_id leg_id : String) (dto : ApplyFill) {l' : Leg} {s : Option Settlement} {w' : World}
      → apply_fill_tx call plan_id leg_id dto w ≡ returned (l', s) w'
      → (w'.db ≡ w.db)
        ⊎ ((e : OutboxEvent) × (e.event_type ≡ leg_filled)
            × (e.entity_id ≡ l'.id)
            × (w'.outbox ≡ (if is_filled l'.state then w.outbox ++ e ∷ [] else w.outbox)))
  unfolding apply_fill_tx filled_event
  apply_fill_tx-announced plan_id leg_id dto {l'} e = elim (Option-cases (find_plan plan_id w)) [
    | inl missing ↦ absurd (ground arith)
    | inr (plan, found) ↦
        elim (Bool-cases (key_seen leg_id (usable_key dto.idempotency_key) w.fills)) [
          | inl seen ↦ inl (ground arith)
          | inr unseen ↦
              inr (filled_event call plan l' (confirmed_tx l'.id w.txs), refl, refl, ground arith)
        ]
  ]
