-- ===== src/Interleaving/Broadcast.antt =====
-- No double broadcast: `markSent` hands a leg to its venue after phase 1 returned, so the number of
-- returned phases is the number of broadcasts.
use arbibot.Base.{
  ℕ, ◌+◌, ◌≤◌, String, ◌≡◌, ◌≢◌, refl, sym, subst, ap, ◌∙◌, inl, inr, Bool, true, false, ◌&&◌, List,
  [], ◌∷◌, All, All-Occurs, All-save_only_row, Bool-cases, arith, str_eq, str_eq_iff, rows_under,
  find_by-Occurs, find_by-test, if◌then◌else◌,
}
use arbibot.Store.Types.{Leg, Plan, created, World, Call, leg_key}
use arbibot.Store.Exec.{Reply, returned, threw, Reply-cases}
use arbibot.Legs.Send.{begin_mark_sent, find_leg_of_plan}
use arbibot.Legs.Effects.{begin_mark_sent-ok}
use arbibot.Interleaving.{
  Action, creates, links, arms, begins, begins_send, completes_send, fails_send, terminates_send,
  acknowledges, fills, completes, fails, reaps, step,
}
use arbibot.Interleaving.Moves.{reserve, send, fail, terminate, acknowledge, fill, sweep, price}
use arbibot.Interleaving.Invariants.{next_fill-states}
use arbibot.Interleaving.Closure.{Issues, Issued, Preserved, step-All}
use arbibot.Interleaving.Keys.{step-rows}
use arbibot.Legs.Send.{venue_rejected, venue_timed_out, venue_failed}

abbrev is_returned : {A : Type 0} → Reply A → Bool
is_returned (returned a w) = true
is_returned (threw e w) = false

-- Whether an action is a phase 1 that reserves the leg for broadcast.
broadcast : String → Call → Action → World → Bool
broadcast i call (begins_send halted plan leg) w =
    str_eq leg i && is_returned (begin_mark_sent halted call plan leg w)
broadcast i call _ w = false

-- How often a history hands a leg to its venue.
unfoldable pub broadcasts : String → List (Call × Action) → World → ℕ
unfolding broadcast step
broadcasts i [] w = 0
broadcasts i ((call, action) ∷ rest) w =
    (if broadcast i call action w then 1 else 0) + broadcasts i rest (step call action w)

-- The leg has left `created`.
Left : String → Leg → Type 0
Left i l = l.id ≡ i → l.state ≢ created

Left-Preserved : (i : String) → Preserved (Left i)
unfolding Left
Left-Preserved i call l l' h (reserve e) same = λ no_way. cc no_way
Left-Preserved i call l l' h (send v e) same = λ no_way. cc no_way
Left-Preserved i call l l' h (fail e) same = λ no_way. cc no_way
Left-Preserved i call l l' h (terminate venue_rejected e) same = λ no_way. cc no_way
Left-Preserved i call l l' h (terminate venue_timed_out e) same = λ no_way. cc no_way
Left-Preserved i call l l' h (terminate venue_failed e) same = λ no_way. cc no_way
Left-Preserved i call l l' h (acknowledge e) same = λ no_way. cc no_way
Left-Preserved i call l l' h (fill dto q s may next) same =
    λ no_way. elim (next_fill-states dto l next) [ inl e ↦ cc (e, no_way) | inr e ↦ cc (e, no_way) ]
Left-Preserved i call l l' h (sweep e) same = λ no_way. cc no_way
Left-Preserved i call l l' h (price c) same = h same

-- A broadcast finds the leg in `created`, and takes it out of it.
begin_mark_sent-leaves :
    (i : String) (call : Call) (halted : Bool) (plan leg : String) (w : World) {r : Plan × Leg}
    {w' : World}
    → leg ≡ i
    → begin_mark_sent halted call plan leg w ≡ returned r w'
    → (¬ All (Left i) w.legs) × (rows_under leg_key i w.legs ≤ 1 → All (Left i) w'.legs)
unfolding Left find_leg_of_plan
begin_mark_sent-leaves i call halted plan leg w {r} {w'} same e =
    let (p, l') = r in
    let (l, _, _, found, state, _, is_l', saved, _, _, _) =
      begin_mark_sent-ok call plan leg w halted e in
    let id : l.id ≡ i = ground (arith, find_by-test _ w.legs found, str_eq_iff l.id leg) in
    (
      λ left. All-Occurs (Left i) w.legs left (find_by-Occurs _ w.legs found) id state,
      λ few. subst (All (Left i)) (sym saved) (
          All-save_only_row leg_key i (Left i) l' w.legs (λ x other at. absurd (other at))
            (ap (λ x. x.id) is_l' ∙ id) few (λ _ no_way. cc (ap (λ x. x.state) is_l', no_way))),
    )

-- An action that broadcasts the leg found it in `created`, and left no row of it there.
broadcast-leaves :
    (i : String) (call : Call) (action : Action) (w : World)
    → broadcast i call action w ≡ true
    → (¬ All (Left i) w.legs)
      × (rows_under leg_key i w.legs ≤ 1 → All (Left i) (step call action w).legs)
unfolding broadcast step
broadcast-leaves i call (begins_send halted plan leg) w e =
    elim (Reply-cases (begin_mark_sent halted call plan leg w)) [
      | inl (r, ok_reply) ↦
          begin_mark_sent-leaves i call halted plan leg w (ground (arith, str_eq_iff leg i))
            ok_reply
      | inr (x, bad) ↦ absurd (ground arith)
    ]
broadcast-leaves i call (creates id dto) w e = absurd (cc e)
broadcast-leaves i call (links plan reservation) w e = absurd (cc e)
broadcast-leaves i call (arms plan) w e = absurd (cc e)
broadcast-leaves i call (begins env plan) w e = absurd (cc e)
broadcast-leaves i call (completes_send plan leg correlation order meta) w e = absurd (cc e)
broadcast-leaves i call (fails_send plan leg) w e = absurd (cc e)
broadcast-leaves i call (terminates_send plan leg state) w e = absurd (cc e)
broadcast-leaves i call (acknowledges plan leg) w e = absurd (cc e)
broadcast-leaves i call (fills plan leg dto) w e = absurd (cc e)
broadcast-leaves i call (completes plan) w e = absurd (cc e)
broadcast-leaves i call (fails reason plan) w e = absurd (cc e)
broadcast-leaves i call (reaps leg) w e = absurd (cc e)

step-Left :
    (i : String) (call : Call) (action : Action) (w : World)
    → Issues (λ j. j ≢ i) action
    → All (Left i) w.legs
    → All (Left i) (step call action w).legs
unfolding Left
step-Left i call action w new h =
    step-All (Left i) (λ j. j ≢ i) (Left-Preserved i) (λ l other _ _ _ same. absurd (other same))
      call action w new h

no_more_broadcasts :
    (i : String) (history : List (Call × Action)) (w : World)
    → Issued (λ j. j ≢ i) history
    → All (Left i) w.legs
    → broadcasts i history w ≡ 0
unfolding broadcasts
no_more_broadcasts i [] w new h = refl
no_more_broadcasts i ((call, action) ∷ rest) w new h =
    elim (Bool-cases (broadcast i call action w)) [
      | inl sent_again ↦ absurd ((broadcast-leaves i call action w sent_again).0 h)
      | inr quiet ↦ rw quiet (
          omega (
            arith,
            no_more_broadcasts i rest (step call action w) new.1
                (step-Left i call action w new.0 h),
          ))
    ]

-- Over any history of requests, retries, workers and sweeps, in any order, a leg is handed to its
-- venue at most once. Its id is the key of at most one row, and no new row gets it.
pub broadcast_once :
    (i : String) (history : List (Call × Action)) (w : World)
    → Issued (λ j. j ≢ i) history
    → rows_under leg_key i w.legs ≤ 1
    → broadcasts i history w ≤ 1
unfolding broadcasts
broadcast_once i [] w new few = omega arith
broadcast_once i ((call, action) ∷ rest) w new few = elim (Bool-cases (broadcast i call action w)) [
  | inl hit ↦ rw hit (
      omega (
        arith,
        no_more_broadcasts i rest (step call action w) new.1
            ((broadcast-leaves i call action w hit).1 few),
      ))
  | inr quiet ↦ rw quiet (
      omega (
        arith,
        broadcast_once i rest (step call action w) new.1
            (subst (λ n. n ≤ 1) (sym (step-rows i call action w new.0)) few),
      ))
]
