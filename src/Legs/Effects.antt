-- ===== src/Legs/Effects.antt =====
-- What each transaction of legs.service.ts and of the reaper did, when it returned.
use arbibot.Base.{
  Bool-cases, true, none, Option-cases, String, ◌≡◌, ◌⊎◌, Bool, false, ◌&&◌, Option, some, save_row,
  arith, inl, inr,
}
use arbibot.Store.Types.{
  leg_failed, Plan, executing, Leg, created, submitting, sent, acknowledged, World, Call, leg_key,
}
use arbibot.Store.Outcome.{Error, ok}
use arbibot.Store.Exec.{after, returned, threw, Reply, find_plan, find_leg}
use arbibot.Legs.Cost.{is_live_leg}
use arbibot.Store.Types.{OnChainTx}
use arbibot.Legs.Fill.{confirmed_tx}
use arbibot.Reaper.{venue_ref_or, Reaped, reap_stuck_leg}
use arbibot.Legs.Send.{
  terminal_leg_state, TerminalState, fail_submitting_leg, apply_terminal_submit_error, OnChainMeta,
  move_leg, is_submitting, find_leg_of_plan, begin_mark_sent, complete_mark_sent,
}
use arbibot.Legs.Fill.{next_fill, may_fill, Settlement, ApplyFill, apply_fill_tx, mark_acknowledged}

module _ (call : Call) (plan_id leg_id : String) (w : World) where
  pub begin_mark_sent-ok :
      (halted : Bool) {plan : Plan} {l' : Leg} {w' : World}
      → begin_mark_sent halted call plan_id leg_id w ≡ returned (plan, l') w'
      → (l : Leg) × (find_plan plan_id w ≡ some plan)
        × (plan.state ≡ executing)
        × (find_leg_of_plan plan_id leg_id w ≡ some l)
        × (l.state ≡ created)
        × ((is_live_leg plan l && halted) ≡ false)
        × (l' ≡ move_leg call submitting l)
        × (w'.legs ≡ save_row leg_key l' w.legs)
        × (w'.plans ≡ w.plans)
        × (w'.txs ≡ w.txs)
        × (w'.outbox ≡ w.outbox)
  unfolding begin_mark_sent
  begin_mark_sent-ok halted e = elim (Option-cases (find_leg_of_plan plan_id leg_id w)) [
    | inl missing ↦ absurd (ground arith)
    | inr (l, found) ↦ (
      l,
      ground arith,
      ground arith,
      found,
      ground arith,
      ground arith,
      ground arith,
      ground arith,
      ground arith,
      ground arith,
      ground arith,
    )
  ]

  pub begin_mark_sent-fills :
      (halted : Bool) {r : Plan × Leg} {w' : World}
      → begin_mark_sent halted call plan_id leg_id w ≡ returned r w'
      → w'.fills ≡ w.fills
  unfolding begin_mark_sent
  begin_mark_sent-fills halted e = ground arith

  pub begin_mark_sent-err :
      (halted : Bool) {x : Error} {w' : World}
      → begin_mark_sent halted call plan_id leg_id w ≡ threw x w'
      → w'.db ≡ w.db
  unfolding begin_mark_sent
  begin_mark_sent-err halted e = ground arith

  pub mark_acknowledged-ok :
      {l' : Leg} {w' : World}
      → mark_acknowledged call plan_id leg_id w ≡ returned l' w'
      → (l : Leg) × (find_leg_of_plan plan_id leg_id w ≡ some l)
        × (l.state ≡ sent)
        × (l' ≡ move_leg call acknowledged l)
        × (w'.legs ≡ save_row leg_key l' w.legs)
        × (w'.plans ≡ w.plans)
        × (w'.txs ≡ w.txs)
        × (w'.outbox ≡ w.outbox)
  unfolding mark_acknowledged
  mark_acknowledged-ok e = elim (Option-cases (find_leg_of_plan plan_id leg_id w)) [
    | inl missing ↦ absurd (ground arith)
    | inr (l, found) ↦ (
      l,
      found,
      ground arith,
      ground arith,
      ground arith,
      ground arith,
      ground arith,
      ground arith,
    )
  ]

  pub mark_acknowledged-err :
      {x : Error} {w' : World} → mark_acknowledged call plan_id leg_id w ≡ threw x w' → w'.db ≡ w.db
  unfolding mark_acknowledged
  mark_acknowledged-err e = ground arith

  -- Either the leg was not `submitting` and nothing changed, or it was sent.
  pub complete_mark_sent-ok :
      (correlation : Option String) (order : String) (meta : Option OnChainMeta) {l' : Leg}
      {w' : World}
      → complete_mark_sent call plan_id leg_id correlation order meta w ≡ returned l' w'
      → (l : Leg) × (find_leg_of_plan plan_id leg_id w ≡ some l)
        × (((is_submitting l.state ≡ false) × (l' ≡ l) × (w'.db ≡ w.db))
            ⊎ ((l.state ≡ submitting)
                × (l' ≡ record (move_leg call sent l) { venue_ref = some order })
                × (w'.legs ≡ save_row leg_key l' w.legs)
                × (w'.plans ≡ w.plans)))
  unfolding complete_mark_sent
  complete_mark_sent-ok correlation order meta e = ground arith

  pub complete_mark_sent-err :
      (correlation : Option String) (order : String) (meta : Option OnChainMeta) {x : Error}
      {w' : World}
      → complete_mark_sent call plan_id leg_id correlation order meta w ≡ threw x w'
      → w'.db ≡ w.db
  unfolding complete_mark_sent
  complete_mark_sent-err correlation order meta e = ground arith

  pub fail_submitting_leg-ok :
      {r : Reply (Unit {0})}
      → fail_submitting_leg call plan_id leg_id w ≡ r
      → ((after r).db ≡ w.db)
        ⊎ ((l : Leg) × (find_leg_of_plan plan_id leg_id w ≡ some l)
            × (l.state ≡ submitting)
            × ((after r).legs ≡ save_row leg_key (move_leg call leg_failed l) w.legs)
            × ((after r).plans ≡ w.plans)
            × ((after r).txs ≡ w.txs)
            × ((after r).outbox ≡ w.outbox))
  unfolding fail_submitting_leg
  fail_submitting_leg-ok e = elim (Option-cases (find_leg_of_plan plan_id leg_id w)) [
    | inl missing ↦ inl (ground arith)
    | inr (l, found) ↦ elim (Bool-cases (is_submitting l.state)) [
      | inl yes_it_is ↦
          inr (l, found, ground arith, ground arith, ground arith, ground arith, ground arith)
      | inr other ↦ inl (ground arith)
    ]
  ]

  pub apply_terminal_submit_error-ok :
      (state : TerminalState) {r : Reply Leg}
      → apply_terminal_submit_error call plan_id leg_id state w ≡ r
      → ((after r).db ≡ w.db)
        ⊎ ((l : Leg) × (find_leg_of_plan plan_id leg_id w ≡ some l)
            × (l.state ≡ submitting)
            × ((after r).legs
                ≡ save_row leg_key (move_leg call (terminal_leg_state state) l) w.legs)
            × ((after r).plans ≡ w.plans)
            × ((after r).txs ≡ w.txs)
            × ((after r).outbox ≡ w.outbox))
  unfolding apply_terminal_submit_error
  apply_terminal_submit_error-ok state e = elim (Option-cases (find_leg_of_plan plan_id leg_id w)) [
    | inl missing ↦ inl (ground arith)
    | inr (l, found) ↦ elim (Bool-cases (is_submitting l.state)) [
      | inl yes_it_is ↦
          inr (l, found, ground arith, ground arith, ground arith, ground arith, ground arith)
      | inr other ↦ inl (ground arith)
    ]
  ]

  -- A fill: the key was seen and nothing changed, or the leg moved.
  pub apply_fill_tx-ok :
      (dto : ApplyFill) {l' : Leg} {s : Option Settlement} {w' : World}
      → apply_fill_tx call plan_id leg_id dto w ≡ returned (l', s) w'
      → (l : Leg) × (find_leg_of_plan plan_id leg_id w ≡ some l)
        × (((l' ≡ l) × (w'.db ≡ w.db) × (s ≡ none))
            ⊎ ((may_fill l.state ≡ true)
                × (next_fill dto l ≡ ok (l'.filled_quantity, l'.state))
                × (l' ≡ record (move_leg call l'.state l) { filled_quantity = l'.filled_quantity })
                × (w'.legs ≡ save_row leg_key l' w.legs)
                × (w'.plans ≡ w.plans)
                × (w'.txs ≡ w.txs)))
  unfolding apply_fill_tx
  apply_fill_tx-ok dto e = elim (Option-cases (find_leg_of_plan plan_id leg_id w)) [
    | inl missing ↦ absurd (ground arith)
    | inr (l, found) ↦ (l, found, ground arith)
  ]

  pub apply_fill_tx-err :
      (dto : ApplyFill) {x : Error} {w' : World}
      → apply_fill_tx call plan_id leg_id dto w ≡ threw x w'
      → w'.db ≡ w.db
  unfolding apply_fill_tx
  apply_fill_tx-err dto e = ground arith

-- The venue reference that the reaper writes with a confirmed transaction.
venue_of : Leg → Option OnChainTx → Option String
venue_of l none = none
venue_of l (some t) = venue_ref_or l.venue_ref t.tx_hash

pub reap_stuck_leg-ok :
    (call : Call) (leg_id : String) (w : World) {r : Reply Reaped}
    → reap_stuck_leg call leg_id w ≡ r
    → ((after r).db ≡ w.db)
      ⊎ ((l : Leg) × (v : Option String) × (find_leg leg_id w ≡ some l)
          × (l.state ≡ submitting)
          × (((after r).legs ≡ save_row leg_key (move_leg call leg_failed l) w.legs)
              ⊎ ((after r).legs
                  ≡ save_row leg_key (record (move_leg call sent l) { venue_ref = v }) w.legs))
          × ((after r).plans ≡ w.plans)
          × ((after r).txs ≡ w.txs)
          × ((after r).outbox ≡ w.outbox))
unfolding reap_stuck_leg venue_of
reap_stuck_leg-ok call leg_id w e = elim (Option-cases (find_leg leg_id w)) [
  | inl missing ↦ inl (ground arith)
  | inr (l, found) ↦ elim (Bool-cases (is_submitting l.state)) [
    | inr other ↦ inl (ground arith)
    | inl it_is ↦ inr (
      l,
      venue_of l (confirmed_tx l.id w.txs),
      found,
      ground arith,
      ground arith,
      ground arith,
      ground arith,
      ground arith,
    )
  ]
]
