-- ===== src/Interleaving/Moves.antt =====
-- The state machine of a leg: each transaction moves at most one leg of the table, or sweeps the
-- legs of one plan, along `LegMove`.
use arbibot.Base.{
  Occurs, find_by-Occurs, find_key-Occurs, sym, ap, subst, ℕ, String, ◌≡◌, refl, inl, inr, Bool,
  true, Option, some, List, save_row,
}
use arbibot.Store.Types.{
  Leg, LegState, LegCost, created, submitting, sent, acknowledged, leg_failed, World, Call, leg_key,
}
use arbibot.Store.Outcome.{ok}
use arbibot.Plans.Lifecycle.{is_swept}
use arbibot.Store.Exec.{after, Reply-cases}
use arbibot.Legs.Effects.{
  begin_mark_sent-ok, begin_mark_sent-err, mark_acknowledged-ok, mark_acknowledged-err,
  complete_mark_sent-ok, complete_mark_sent-err, fail_submitting_leg-ok,
  apply_terminal_submit_error-ok, apply_fill_tx-ok, apply_fill_tx-err, reap_stuck_leg-ok,
}
use arbibot.Legs.Send.{
  move_leg, OnChainMeta, TerminalState, terminal_leg_state, find_leg_of_plan, begin_mark_sent,
  complete_mark_sent, fail_submitting_leg, apply_terminal_submit_error,
}
use arbibot.Legs.Fill.{ApplyFill, may_fill, next_fill, mark_acknowledged, apply_fill_tx}
use arbibot.Reaper.{reap_stuck_leg}

-- What a transaction may do to one leg.
pub data LegMove (call : Call) (l : Leg) : Leg → Type 0 where
  reserve : l.state ≡ created → LegMove call l (move_leg call submitting l)
  send :
      (v : Option String)
      → l.state ≡ submitting
      → LegMove call l (record (move_leg call sent l) { venue_ref = v })
  fail : l.state ≡ submitting → LegMove call l (move_leg call leg_failed l)
  terminate :
      (s : TerminalState)
      → l.state ≡ submitting
      → LegMove call l (move_leg call (terminal_leg_state s) l)
  acknowledge : l.state ≡ sent → LegMove call l (move_leg call acknowledged l)
  fill :
      (dto : ApplyFill) (q : ℕ) (s : LegState)
      → may_fill l.state ≡ true
      → next_fill dto l ≡ ok (q, s)
      → LegMove call l (record (move_leg call s l) { filled_quantity = q })
  sweep : is_swept l.state ≡ true → LegMove call l (move_leg call leg_failed l)
  price : (c : Option LegCost) → LegMove call l (record l { cost = c })

-- Nothing changed, or one leg that was found moved.
pub data Touches (call : Call) (before after_legs : List Leg) : Type 0 where
  untouched : after_legs ≡ before → Touches call before after_legs
  moved :
      {l l' : Leg}
      → Occurs l before
      → LegMove call l l'
      → after_legs ≡ save_row leg_key l' before
      → Touches call before after_legs

module _ (call : Call) (plan_id leg_id : String) (w : World) where
  touched :
      {l l' : Leg} {legs : List Leg}
      → find_leg_of_plan plan_id leg_id w ≡ some l
      → LegMove call l l'
      → legs ≡ save_row leg_key l' w.legs
      → Touches call w.legs legs
  unfolding find_leg_of_plan
  touched found move e = moved (find_by-Occurs _ w.legs found) move e

  pub begin_mark_sent-Touches :
      (halted : Bool)
      → Touches call w.legs (after (begin_mark_sent halted call plan_id leg_id w)).legs
  begin_mark_sent-Touches halted =
      elim (Reply-cases (begin_mark_sent halted call plan_id leg_id w)) [
        | inl ((plan, l'), e) ↦
            let (l, _, _, found, state, _, is_l', saved, _, _, _) =
              begin_mark_sent-ok call plan_id leg_id w halted e in
            touched found (subst (LegMove call l) (sym is_l') (reserve state)) saved
        | inr (x, e) ↦
            untouched (ap (λ d. d.legs) (begin_mark_sent-err call plan_id leg_id w halted e))
      ]

  pub mark_acknowledged-Touches :
      Touches call w.legs (after (mark_acknowledged call plan_id leg_id w)).legs
  mark_acknowledged-Touches = elim (Reply-cases (mark_acknowledged call plan_id leg_id w)) [
    | inl (l', e) ↦
        let (l, found, state, is_l', saved, _, _, _) =
          mark_acknowledged-ok call plan_id leg_id w e in
        touched found (subst (LegMove call l) (sym is_l') (acknowledge state)) saved
    | inr (x, e) ↦ untouched (ap (λ d. d.legs) (mark_acknowledged-err call plan_id leg_id w e))
  ]

  pub complete_mark_sent-Touches :
      (correlation : Option String) (order : String) (meta : Option OnChainMeta)
      → Touches call w.legs
          (after (complete_mark_sent call plan_id leg_id correlation order meta w)).legs
  complete_mark_sent-Touches correlation order meta =
      elim (Reply-cases (complete_mark_sent call plan_id leg_id correlation order meta w)) [
        | inl (l', e) ↦
            let (l, found, how) =
              complete_mark_sent-ok call plan_id leg_id w correlation order meta e in
            elim how [
              | inl (_, _, same) ↦ untouched (ap (λ d. d.legs) same)
              | inr (state, is_l', saved, _) ↦
                  touched found (subst (LegMove call l) (sym is_l') (send (some order) state)) saved
            ]
        | inr (x, e) ↦ untouched (
            ap (λ d. d.legs)
              (complete_mark_sent-err call plan_id leg_id w correlation order meta e))
      ]

  pub fail_submitting_leg-Touches :
      Touches call w.legs (after (fail_submitting_leg call plan_id leg_id w)).legs
  fail_submitting_leg-Touches = elim (fail_submitting_leg-ok call plan_id leg_id w refl) [
    | inl same ↦ untouched (ap (λ d. d.legs) same)
    | inr (l, found, state, saved, _, _, _) ↦ touched found (fail state) saved
  ]

  pub apply_terminal_submit_error-Touches :
      (s : TerminalState)
      → Touches call w.legs (after (apply_terminal_submit_error call plan_id leg_id s w)).legs
  apply_terminal_submit_error-Touches s =
      elim (apply_terminal_submit_error-ok call plan_id leg_id w s refl) [
        | inl same ↦ untouched (ap (λ d. d.legs) same)
        | inr (l, found, state, saved, _, _, _) ↦ touched found (terminate s state) saved
      ]

  pub apply_fill_tx-Touches :
      (dto : ApplyFill) → Touches call w.legs (after (apply_fill_tx call plan_id leg_id dto w)).legs
  apply_fill_tx-Touches dto = elim (Reply-cases (apply_fill_tx call plan_id leg_id dto w)) [
    | inl ((l', s), e) ↦
        let (l, found, how) = apply_fill_tx-ok call plan_id leg_id w dto e in
        elim how [
          | inl (_, same, _) ↦ untouched (ap (λ d. d.legs) same)
          | inr (may, next, is_l', saved, _, _) ↦
              touched found
                (subst (LegMove call l) (sym is_l') (fill dto l'.filled_quantity l'.state may next))
                saved
        ]
    | inr (x, e) ↦ untouched (ap (λ d. d.legs) (apply_fill_tx-err call plan_id leg_id w dto e))
  ]

pub reap_stuck_leg-Touches :
    (call : Call) (leg_id : String) (w : World)
    → Touches call w.legs (after (reap_stuck_leg call leg_id w)).legs
reap_stuck_leg-Touches call leg_id w = elim (reap_stuck_leg-ok call leg_id w refl) [
  | inl same ↦ untouched (ap (λ d. d.legs) same)
  | inr (l, v, found, state, inl saved, _, _, _) ↦
      moved (find_key-Occurs leg_key leg_id w.legs found) (fail state) saved
  | inr (l, v, found, state, inr saved, _, _, _) ↦
      moved (find_key-Occurs leg_key leg_id w.legs found) (send v state) saved
]

-- No move touches the key or the plan of a leg.
pub LegMove-id : (call : Call) (l l' : Leg) → LegMove call l l' → l'.id ≡ l.id
LegMove-id call l l' (reserve e) = refl
LegMove-id call l l' (send v e) = refl
LegMove-id call l l' (fail e) = refl
LegMove-id call l l' (terminate s e) = refl
LegMove-id call l l' (acknowledge e) = refl
LegMove-id call l l' (fill dto q s may next) = refl
LegMove-id call l l' (sweep e) = refl
LegMove-id call l l' (price c) = refl
