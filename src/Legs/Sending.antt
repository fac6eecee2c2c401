-- ===== src/Legs/Sending.antt =====
-- How `markSent` of legs.service.ts ends.
use arbibot.Base.{
  none, refl, sym, subst, Option, Option, String, ◌≡◌, ap, ◌∙◌, Bool, true, false, ◌&&◌, some, List,
  arith, str_eq, str_eq_iff, save_row, find_by, find_by-save_row, find_by-test,
}
use arbibot.Store.Types.{
  sent, leg_failed, Leg, Plan, created, submitting, executing, World, Call, leg_key,
}
use arbibot.Store.Exec.{Reply, threw, after, returned, find_plan}
use arbibot.Legs.Cost.{is_live_leg}
use arbibot.Store.Outcome.{unprocessable, service_unavailable}
use arbibot.Legs.Effects.{begin_mark_sent-ok, begin_mark_sent-fills}
use arbibot.Legs.Send.{
  SendEnv, submit_bridge_leg, mark_sent, OnChainMeta, TerminalState, apply_terminal_submit_error,
  complete_mark_sent, fail_submitting_leg, finish_mark_sent, Submission, accepted, terminal_error,
  client_error, other_error, terminal_leg_state, find_leg_of_plan, move_leg, begin_mark_sent,
}

saved_leg :
    (plan_id leg_id : String) (r : Leg) (rows : List Leg)
    → (str_eq r.id leg_id && str_eq r.plan_id plan_id) ≡ true
    → find_by (λ x. str_eq x.id leg_id && str_eq x.plan_id plan_id) (save_row leg_key r rows)
      ≡ some r
saved_leg plan_id leg_id r rows hit =
    find_by-save_row leg_key (λ x. str_eq x.id leg_id && str_eq x.plan_id plan_id) r rows
      (λ x at. ground (arith, str_eq_iff x.id leg_id, str_eq_iff r.id leg_id)) hit

-- Phase 1 reserves a leg only in an `executing` plan, from `created`, and never a live leg while the
-- kill switch is on. The leg is then stored, and answered, as `submitting`, saved over its row in the
-- table of legs, and no other table changes.
pub begin_mark_sent_sound :
    (halted : Bool) (call : Call) (plan_id leg_id : String) (w : World) {plan : Plan} {l' : Leg}
    {w' : World}
    → begin_mark_sent halted call plan_id leg_id w ≡ returned (plan, l') w'
    → (l : Leg) × (find_plan plan_id w ≡ some plan)
      × (plan.state ≡ executing)
      × (find_leg_of_plan plan_id leg_id w ≡ some l)
      × (l.state ≡ created)
      × ((is_live_leg plan l && halted) ≡ false)
      × (find_leg_of_plan plan_id leg_id w' ≡ some (move_leg call submitting l))
      × (w'.plans ≡ w.plans)
      × (w'.txs ≡ w.txs)
      × (w'.outbox ≡ w.outbox)
      × (w'.fills ≡ w.fills)
      × (l' ≡ move_leg call submitting l)
      × (w'.legs ≡ save_row leg_key l' w.legs)
unfolding find_leg_of_plan
begin_mark_sent_sound halted call plan_id leg_id w {plan} {l'} e =
    let (l, found, running, found_leg, state, guard, is_l', saved, plans, txs, outbox) =
      begin_mark_sent-ok call plan_id leg_id w halted e in
    (
      l,
      found,
      running,
      found_leg,
      state,
      guard,
      ap (find_by (λ x. str_eq x.id leg_id && str_eq x.plan_id plan_id)) saved
          ∙ saved_leg plan_id leg_id l' w.legs (ground (arith, find_by-test _ w.legs found_leg))
          ∙ ap some is_l',
      plans,
      txs,
      outbox,
      begin_mark_sent-fills call plan_id leg_id w halted e,
      is_l',
      saved,
    )

-- How a call ends after the broadcast: the leg as it is then stored, and the reply. `l` is the leg
-- as phase 3 finds it.
unfoldable pub EndsAs : Call → String → String → Leg → Submission → World → Reply Leg → Type 0
unfolding find_leg_of_plan
EndsAs call plan_id leg_id l (accepted order meta) w r =
    let saved : Leg = record (move_leg call sent l) { venue_ref = some order } in
    (r ≡ returned saved (after r)) × (find_leg_of_plan plan_id leg_id (after r) ≡ some saved)
EndsAs call plan_id leg_id l (terminal_error state) w r =
    let saved = move_leg call (terminal_leg_state state) l in
    (r ≡ returned saved (after r)) × (find_leg_of_plan plan_id leg_id (after r) ≡ some saved)
EndsAs call plan_id leg_id l client_error w r =
    (r ≡ threw unprocessable (after r))
    × (find_leg_of_plan plan_id leg_id (after r) ≡ some (move_leg call leg_failed l))
EndsAs call plan_id leg_id l other_error w r = r ≡ threw service_unavailable w

sends :
    (call : Call) (plan_id leg_id : String) (correlation : Option String) (order : String)
    (meta : Option OnChainMeta) (w : World) (l : Leg)
    → find_leg_of_plan plan_id leg_id w ≡ some l
    → l.state ≡ submitting
    → let r = complete_mark_sent call plan_id leg_id correlation order meta w in
      let saved : Leg = record (move_leg call sent l) { venue_ref = some order } in
      (r ≡ returned saved (after r)) × ((after r).legs ≡ save_row leg_key saved w.legs)
unfolding complete_mark_sent
sends call plan_id leg_id correlation order none w l found state = (ground arith, ground arith)
sends call plan_id leg_id correlation order (some meta) w l found state =
    (ground arith, ground arith)

terminates :
    (call : Call) (plan_id leg_id : String) (terminal : TerminalState) (w : World) (l : Leg)
    → find_leg_of_plan plan_id leg_id w ≡ some l
    → l.state ≡ submitting
    → let r = apply_terminal_submit_error call plan_id leg_id terminal w in
      let saved = move_leg call (terminal_leg_state terminal) l in
      (r ≡ returned saved (after r)) × ((after r).legs ≡ save_row leg_key saved w.legs)
unfolding apply_terminal_submit_error
terminates call plan_id leg_id terminal w l found state = (ground arith, ground arith)

fails_leg :
    (call : Call) (plan_id leg_id : String) (w : World) (l : Leg)
    → find_leg_of_plan plan_id leg_id w ≡ some l
    → l.state ≡ submitting
    → let r = fail_submitting_leg call plan_id leg_id w in
      (r ≡ returned tt (after r))
      × ((after r).legs ≡ save_row leg_key (move_leg call leg_failed l) w.legs)
unfolding fail_submitting_leg
fails_leg call plan_id leg_id w l found state = (ground arith, ground arith)

-- A leg of the plan is found as it was saved.
found_again :
    (plan_id leg_id : String) (w w' : World) (l r : Leg)
    → find_leg_of_plan plan_id leg_id w ≡ some l
    → r.id ≡ l.id
    → r.plan_id ≡ l.plan_id
    → w'.legs ≡ save_row leg_key r w.legs
    → find_leg_of_plan plan_id leg_id w' ≡ some r
unfolding find_leg_of_plan
found_again plan_id leg_id w w' l r found id owner saved =
    ap (find_by (λ x. str_eq x.id leg_id && str_eq x.plan_id plan_id)) saved
    ∙ saved_leg plan_id leg_id r w.legs (ground (arith, find_by-test _ w.legs found))

finish_ends :
    (call : Call) (plan_id leg_id : String) (correlation : Option String) (outcome : Submission)
    (w : World) {l : Leg}
    → find_leg_of_plan plan_id leg_id w ≡ some l
    → l.state ≡ submitting
    → EndsAs call plan_id leg_id l outcome w
        (finish_mark_sent call plan_id leg_id correlation outcome w)
unfolding finish_mark_sent EndsAs
finish_ends call plan_id leg_id correlation (accepted order meta) w {l} found state =
    let (reply, saved) = sends call plan_id leg_id correlation order meta w l found state in
    (
      reply,
      found_again plan_id leg_id w
          (after (complete_mark_sent call plan_id leg_id correlation order meta w)) l _ found refl
          refl saved,
    )
finish_ends call plan_id leg_id correlation (terminal_error terminal) w {l} found state =
    let (reply, saved) = terminates call plan_id leg_id terminal w l found state in
    (
      reply,
      found_again plan_id leg_id w
          (after (apply_terminal_submit_error call plan_id leg_id terminal w)) l _ found refl refl
          saved,
    )
finish_ends call plan_id leg_id correlation client_error w {l} found state =
    let (reply, saved) = fails_leg call plan_id leg_id w l found state in
    (
      rw reply refl,
      rw reply (
          found_again plan_id leg_id w (after (fail_submitting_leg call plan_id leg_id w)) l _ found
            refl refl saved),
    )
finish_ends call plan_id leg_id correlation other_error w found state = refl

mark_sent_runs :
    (env : SendEnv) (call : Call) (others : World → World) (plan_id leg_id : String) (w : World)
    {plan : Plan} {reserved_leg : Leg} {w' : World}
    → begin_mark_sent env.live_halted call plan_id leg_id w ≡ returned (plan, reserved_leg) w'
    → str_eq reserved_leg.leg_type "bridge" ≡ false
    → mark_sent env call others plan_id leg_id w
      ≡ finish_mark_sent call plan_id leg_id plan.correlation_id
          (env.submit_leg plan reserved_leg)
          (others w')
unfolding mark_sent
mark_sent_runs env call others plan_id leg_id w begun no_bridge = rw (begun, no_bridge) refl

-- The whole of `markSent` on a leg that needs no bridge, where phase 1 passes and phase 3 finds the
-- leg still `submitting`: an accepted order is stored as `sent` with the order's id; a terminal error
-- of the venue as `rejected`, `timedOut` or `failed`; another client error as `failed`, with a 422;
-- and any other error leaves all as it is, with a 503.
pub mark_sent_ends :
    (env : SendEnv) (call : Call) (others : World → World) (plan_id leg_id : String) (w : World)
    {plan : Plan} {reserved_leg l : Leg} {w' : World}
    → begin_mark_sent env.live_halted call plan_id leg_id w ≡ returned (plan, reserved_leg) w'
    → str_eq reserved_leg.leg_type "bridge" ≡ false
    → find_leg_of_plan plan_id leg_id (others w') ≡ some l
    → l.state ≡ submitting
    → EndsAs call plan_id leg_id l
        (env.submit_leg plan reserved_leg)
        (others w')
        (mark_sent env call others plan_id leg_id w)
mark_sent_ends env call others plan_id leg_id w {plan} {reserved_leg} {l} {w'} begun no_bridge found
      state =
    subst (EndsAs call plan_id leg_id l (env.submit_leg plan reserved_leg) (others w'))
      (sym (mark_sent_runs env call others plan_id leg_id w begun no_bridge))
      (finish_ends call plan_id leg_id plan.correlation_id (env.submit_leg plan reserved_leg)
        (others w') found state)

begun_leg :
    (halted : Bool) (call : Call) (plan_id leg_id : String) (w : World) {plan : Plan} {l' : Leg}
    {w' : World}
    → begin_mark_sent halted call plan_id leg_id w ≡ returned (plan, l') w'
    → (l : Leg) × (find_leg_of_plan plan_id leg_id w' ≡ some l') × (l'.state ≡ submitting)
begun_leg halted call plan_id leg_id w {plan} {l'} {w'} e =
    let (l, _, _, found_leg, _, _, is_l', saved, _, _, _) =
      begin_mark_sent-ok call plan_id leg_id w halted e in
    (
      l,
      found_again plan_id leg_id w w' l l' found_leg (ap (λ x. x.id) is_l')
          (ap (λ x. x.plan_id) is_l') saved,
      ap (λ x. x.state) is_l',
    )

-- A bridge leg whose parameters are missing is stored as `failed`, and the caller is told 503, as if
-- the leg were still `submitting`: the 422 that the code raises for it does not get out.
pub missing_bridge_params :
    (env : SendEnv) (call : Call) (others : World → World) (plan_id leg_id : String) (w : World)
    {plan : Plan} {reserved_leg : Leg} {w' : World}
    → begin_mark_sent env.live_halted call plan_id leg_id w ≡ returned (plan, reserved_leg) w'
    → str_eq reserved_leg.leg_type "bridge" ≡ true
    → env.bridge_params plan reserved_leg ≡ false
    → (v : World) × (mark_sent env call others plan_id leg_id w
        ≡ threw service_unavailable (others v))
      × (find_leg_of_plan plan_id leg_id v ≡ some (move_leg call leg_failed reserved_leg))
unfolding mark_sent submit_bridge_leg
missing_bridge_params env call others plan_id leg_id w {plan} {reserved_leg} {w'} begun bridge
      missing =
    let (l, now, state) = begun_leg env.live_halted call plan_id leg_id w begun in
    let (reply, saved) = fails_leg call plan_id leg_id w' reserved_leg now state in
    (
      after (fail_submitting_leg call plan_id leg_id w'),
      rw (begun, bridge, missing, reply) refl,
      found_again plan_id leg_id w' (after (fail_submitting_leg call plan_id leg_id w'))
          reserved_leg _ now refl refl saved,
    )
