-- ===== src/Interleaving/Txs.antt =====
-- Which transactions of execution-orchestrator write on_chain_transactions.
use arbibot.Base.{
  List, refl, ap, map, ◌∙◌, String, ◌≡◌, inl, inr, ◌⊎◌, Bool, Option, none, some, [], ◌∷◌, ◌++◌,
  Bool-cases, Option-cases, arith, str_eq, find_by,
}
use arbibot.Store.Types.{Leg, World, Call}
use arbibot.Store.Exec.{insert_legs, put_plan, put_leg, Reply-cases, after, transaction}
use arbibot.Plans.Lifecycle.{
  FailReason, mark_failed, CreatePlan, create_plan, link_reservation_tx, arm_tx,
  try_mark_plan_completed,
}
use arbibot.Legs.Begin.{BeginEnv, begin_execution_of_plan}
use arbibot.Legs.BeginEffects.{
  started_plan, apply_plan_cost_gate-returned, begin_execution-returned, begin_execution-threw,
}
use arbibot.Legs.Cost.{price_leg, save_legs}
use arbibot.Legs.Send.{
  is_submitting, begin_mark_sent, complete_mark_sent, fail_submitting_leg,
  apply_terminal_submit_error, find_leg_of_plan, OnChainMeta, on_chain_row, TerminalState,
}
use arbibot.Legs.Fill.{ApplyFill, mark_acknowledged, apply_fill_tx}
use arbibot.Reaper.{reap_stuck_leg}

-- The transactions that do not write on_chain_transactions.
module _ (call : Call) (w : World) where
  pub create_plan-txs :
      (id : String) (dto : CreatePlan) → (after (create_plan call id dto w)).txs ≡ w.txs
  unfolding create_plan
  create_plan-txs id dto = ground arith

  pub link_reservation_tx-txs :
      (plan reservation : String)
      → (after (transaction (link_reservation_tx call plan reservation) w)).txs ≡ w.txs
  unfolding link_reservation_tx
  link_reservation_tx-txs plan reservation = ground arith

  pub arm_tx-txs : (plan : String) → (after (transaction (arm_tx call plan) w)).txs ≡ w.txs
  unfolding arm_tx
  arm_tx-txs plan = ground arith

  pub try_mark_plan_completed-txs :
      (plan : String) → (after (try_mark_plan_completed call plan w)).txs ≡ w.txs
  unfolding try_mark_plan_completed
  try_mark_plan_completed-txs plan = ground arith

  pub mark_failed-txs :
      (reason : FailReason) (plan : String) → (after (mark_failed call reason plan w)).txs ≡ w.txs
  unfolding mark_failed
  mark_failed-txs reason plan = ground arith

  pub begin_mark_sent-txs :
      (halted : Bool) (plan leg : String)
      → (after (begin_mark_sent halted call plan leg w)).txs ≡ w.txs
  unfolding begin_mark_sent
  begin_mark_sent-txs halted plan leg = ground arith

  pub fail_submitting_leg-txs :
      (plan leg : String) → (after (fail_submitting_leg call plan leg w)).txs ≡ w.txs
  unfolding fail_submitting_leg
  fail_submitting_leg-txs plan leg = ground arith

  pub apply_terminal_submit_error-txs :
      (plan leg : String) (s : TerminalState)
      → (after (apply_terminal_submit_error call plan leg s w)).txs ≡ w.txs
  unfolding apply_terminal_submit_error
  apply_terminal_submit_error-txs plan leg s = ground arith

  pub mark_acknowledged-txs :
      (plan leg : String) → (after (mark_acknowledged call plan leg w)).txs ≡ w.txs
  unfolding mark_acknowledged
  mark_acknowledged-txs plan leg = ground arith

  pub apply_fill_tx-txs :
      (plan leg : String) (dto : ApplyFill)
      → (after (apply_fill_tx call plan leg dto w)).txs ≡ w.txs
  unfolding apply_fill_tx
  apply_fill_tx-txs plan leg dto = ground arith

  pub reap_stuck_leg-txs : (leg : String) → (after (reap_stuck_leg call leg w)).txs ≡ w.txs
  unfolding reap_stuck_leg
  reap_stuck_leg-txs leg = ground arith

  pub complete_mark_sent-txs :
      (plan leg : String) (correlation : Option String) (order : String) (meta : Option OnChainMeta)
      → ((after (complete_mark_sent call plan leg correlation order meta w)).txs ≡ w.txs)
        ⊎ ((l : Leg) × (m : OnChainMeta) × (find_leg_of_plan plan leg w ≡ some l)
            × ((after (complete_mark_sent call plan leg correlation order meta w)).txs
                ≡ w.txs ++ on_chain_row call l.id m ∷ []))
  unfolding complete_mark_sent
  complete_mark_sent-txs plan leg correlation order none = inl (ground arith)
  complete_mark_sent-txs plan leg correlation order (some m) =
      elim (Option-cases (find_leg_of_plan plan leg w)) [
        | inl missing ↦ inl (ground arith)
        | inr (l, found) ↦ elim (Option-cases (find_by (λ t. str_eq t.tx_hash m.tx_hash) w.txs)) [
          | inr (t, known) ↦ inl (ground arith)
          | inl unknown ↦ elim (Bool-cases (is_submitting l.state)) [
            | inl waiting ↦ inr (l, m, found, ground arith)
            | inr moved ↦ inl (ground arith)
          ]
        ]
      ]

  save_legs-txs : (legs : List Leg) (u : World) → (save_legs legs u).txs ≡ u.txs
  unfolding save_legs
  save_legs-txs [] u = refl
  save_legs-txs (l ∷ legs) u = save_legs-txs legs (put_leg l u)

  pub begin_execution-txs :
      (env : BeginEnv) (plan_id : String)
      → (after (begin_execution_of_plan env call plan_id w)).txs ≡ w.txs
  begin_execution-txs env plan_id =
      elim (Reply-cases (begin_execution_of_plan env call plan_id w)) [
        | inr (x, e) ↦ ap (λ d. d.txs) (begin_execution-threw env call plan_id w e)
        | inl (r, e) ↦
            let (plan, legs, v, _, _, _, _, gate, same) =
              begin_execution-returned env call plan_id w e in
            let start = insert_legs legs (put_plan (started_plan call plan) w) in
            ap (λ d. d.txs) same
            ∙ elim (apply_plan_cost_gate-returned env.estimate env.min_net_profit
                (started_plan call plan) legs start gate) [
                  | inl nothing ↦ ap (λ u. u.txs) nothing
                  | inr (b, _, stored) ↦
                      ap (λ u. u.txs) stored ∙ save_legs-txs (map (price_leg b) legs) start
                ]
      ]
