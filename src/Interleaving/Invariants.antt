-- ===== src/Interleaving/Invariants.antt =====
-- Invariants of single legs over every history of execution-orchestrator.
use arbibot.Base.{
  [], ◌∷◌, ◌≢◌, All, false, true, Bool, List, String, ℕ, ◌≡◌, ◌≤◌, inl, inr, ◌⊎◌, arith,
}
use arbibot.Interleaving.{
  creates, links, arms, begins, begins_send, completes_send, fails_send, terminates_send,
  acknowledges, fills, completes, fails, reaps, Action, run,
}
use arbibot.Store.Types.{
  Leg, LegState, filled, partially_filled, leg_failed, rejected, timed_out, leg_canceled, World,
  Call,
}
use arbibot.Store.Outcome.{ok}
use arbibot.Legs.Send.{venue_rejected, venue_timed_out, venue_failed}
use arbibot.Legs.Fill.{ApplyFill, next_fill}
use arbibot.Interleaving.Moves.{
  LegMove, reserve, send, fail, terminate, acknowledge, fill, sweep, price,
}
use arbibot.Interleaving.Closure.{run-All, Issues, Issued, Preserved}

-- What an accepted fill leads to.
next_fill-bounds :
    (dto : ApplyFill) (l : Leg) {q : ℕ} {s : LegState}
    → next_fill dto l ≡ ok (q, s)
    → l.filled_quantity ≤ l.target_quantity
    → (l.filled_quantity ≤ q)
      × (q ≤ l.target_quantity)
      × (((s ≡ filled) × (q ≡ l.target_quantity))
          ⊎ ((s ≡ partially_filled) × (l.filled_quantity ≤ q)))
unfolding next_fill
next_fill-bounds dto l e h = ground arith

pub next_fill-states :
    (dto : ApplyFill) (l : Leg) {q : ℕ} {s : LegState}
    → next_fill dto l ≡ ok (q, s)
    → (s ≡ filled) ⊎ (s ≡ partially_filled)
unfolding next_fill
next_fill-states dto l e = ground arith

abbrev Any : String → Type 0
Any i = Unit

Any-Issues : (action : Action) → Issues Any action
Any-Issues (creates id dto) = tt
Any-Issues (links plan reservation) = tt
Any-Issues (arms plan) = tt
Any-Issues (begins env plan) = λ n. tt
Any-Issues (begins_send halted plan leg) = tt
Any-Issues (completes_send plan leg correlation order meta) = tt
Any-Issues (fails_send plan leg) = tt
Any-Issues (terminates_send plan leg state) = tt
Any-Issues (acknowledges plan leg) = tt
Any-Issues (fills plan leg dto) = tt
Any-Issues (completes plan) = tt
Any-Issues (fails reason plan) = tt
Any-Issues (reaps leg) = tt

Any-Issued : (history : List (Call × Action)) → Issued Any history
Any-Issued [] = tt
Any-Issued ((call, action) ∷ rest) = (Any-Issues action, Any-Issued rest)

-- No more is filled than was ordered, and a filled leg is filled to its target.
unfoldable pub Bounded : Leg → Type 0
Bounded l =
    (l.filled_quantity ≤ l.target_quantity)
    × (l.state ≡ filled → l.filled_quantity ≡ l.target_quantity)

Bounded-Preserved : Preserved Bounded
unfolding Bounded
Bounded-Preserved call l l' h (reserve e) = (h.0, λ no_way. absurd (cc no_way))
Bounded-Preserved call l l' h (send v e) = (h.0, λ no_way. absurd (cc no_way))
Bounded-Preserved call l l' h (fail e) = (h.0, λ no_way. absurd (cc no_way))
Bounded-Preserved call l l' h (terminate venue_rejected e) = (h.0, λ no_way. absurd (cc no_way))
Bounded-Preserved call l l' h (terminate venue_timed_out e) = (h.0, λ no_way. absurd (cc no_way))
Bounded-Preserved call l l' h (terminate venue_failed e) = (h.0, λ no_way. absurd (cc no_way))
Bounded-Preserved call l l' h (acknowledge e) = (h.0, λ no_way. absurd (cc no_way))
Bounded-Preserved call l l' h (fill dto q s may next) =
    let (grows, fits, which) = next_fill-bounds dto l next h.0 in
    (fits, elim which [ inl (_, e) ↦ λ _. e | inr (e, _) ↦ λ no_way. absurd (cc (e, no_way)) ])
Bounded-Preserved call l l' h (sweep e) = (h.0, λ no_way. absurd (cc no_way))
Bounded-Preserved call l l' h (price c) = h

-- Whatever requests and workers do in whatever order, no leg is ever filled beyond its target, and
-- a leg in state `filled` is filled to exactly its target, if that holds of the table at the start.
pub run-Bounded :
    (history : List (Call × Action)) (w : World)
    → All Bounded w.legs
    → All Bounded (run history w).legs
unfolding Bounded
run-Bounded history w h =
    run-All Bounded Any Bounded-Preserved
      (λ l _ state _ none_yet. (ground arith, λ e. absurd (cc (e, state)))) history w
      (Any-Issued history) h

-- The terminal states that a leg of the program can reach.
abbrev pub is_terminal : LegState → Bool
is_terminal filled = true
is_terminal leg_failed = true
is_terminal rejected = true
is_terminal timed_out = true
is_terminal leg_canceled = true
is_terminal _ = false

-- The rows of one leg, in one state.
unfoldable pub Rests : String → LegState → Leg → Type 0
Rests i s l = l.id ≡ i → l.state ≡ s

pub Rests-Preserved : (i : String) (s : LegState) → is_terminal s ≡ true → Preserved (Rests i s)
unfolding Rests
Rests-Preserved i s t call l l' h (reserve e) same = absurd (ground (arith, h same))
Rests-Preserved i s t call l l' h (send v e) same = absurd (ground (arith, h same))
Rests-Preserved i s t call l l' h (fail e) same = absurd (ground (arith, h same))
Rests-Preserved i s t call l l' h (terminate x e) same = absurd (ground (arith, h same))
Rests-Preserved i s t call l l' h (acknowledge e) same = absurd (ground (arith, h same))
Rests-Preserved i s t call l l' h (fill dto q x may next) same = absurd (ground (arith, h same))
Rests-Preserved i s t call l l' h (sweep e) same = absurd (ground (arith, h same))
Rests-Preserved i s t call l l' h (price c) same = h same

-- A leg in a terminal state (`filled`, `failed`, `rejected`, `timed_out`, `canceled`) stays in it,
-- whatever requests, workers and sweeps follow in whatever order, provided that the database gives
-- no new row the id of the leg.
pub terminal_leg_final :
    (i : String) (s : LegState) (history : List (Call × Action)) (w : World)
    → is_terminal s ≡ true
    → Issued (λ j. j ≢ i) history
    → All (Rests i s) w.legs
    → All (Rests i s) (run history w).legs
unfolding Rests
terminal_leg_final i s history w t fresh h =
    run-All (Rests i s) (λ j. j ≢ i) (Rests-Preserved i s t)
      (λ l other _ _ _ same. absurd (other same)) history w fresh h

-- A row of the leg that is at version `v` still has the state and the quantity that it had there,
-- and no row of it is at an earlier version or has less filled.
unfoldable pub Pinned : String → ℕ → LegState → ℕ → Leg → Type 0
unfolding Bounded
Pinned i v s q l =
    Bounded l
    × (l.id ≡ i
        → (v ≤ l.entity_version)
          × (q ≤ l.filled_quantity)
          × (l.entity_version ≡ v → (l.state ≡ s) × (l.filled_quantity ≡ q)))

pinned_move :
    (i : String) (v : ℕ) (s : LegState) (q : ℕ) (call : Call) (l l' : Leg)
    → Bounded l
    → (l.id ≡ i
        → (v ≤ l.entity_version)
          × (q ≤ l.filled_quantity)
          × (l.entity_version ≡ v → (l.state ≡ s) × (l.filled_quantity ≡ q)))
    → LegMove call l l'
    → l'.id ≡ i
    → (v ≤ l'.entity_version)
      × (q ≤ l'.filled_quantity)
      × (l'.entity_version ≡ v → (l'.state ≡ s) × (l'.filled_quantity ≡ q))
unfolding Bounded
pinned_move i v s q call l l' b h (reserve e) same =
    let k = h same in (omega arith, k.1, λ no_way. absurd (omega arith))
pinned_move i v s q call l l' b h (send x e) same =
    let k = h same in (omega arith, k.1, λ no_way. absurd (omega arith))
pinned_move i v s q call l l' b h (fail e) same =
    let k = h same in (omega arith, k.1, λ no_way. absurd (omega arith))
pinned_move i v s q call l l' b h (terminate x e) same =
    let k = h same in (omega arith, k.1, λ no_way. absurd (omega arith))
pinned_move i v s q call l l' b h (acknowledge e) same =
    let k = h same in (omega arith, k.1, λ no_way. absurd (omega arith))
pinned_move i v s q call l l' b h (fill dto p x may next) same =
    let k = h same in
    let (grows, fits, which) = next_fill-bounds dto l next b.0 in
    (omega arith, omega arith, λ no_way. absurd (omega arith))
pinned_move i v s q call l l' b h (sweep e) same =
    let k = h same in (omega arith, k.1, λ no_way. absurd (omega arith))
pinned_move i v s q call l l' b h (price c) same = h same

Pinned-Preserved : (i : String) (v : ℕ) (s : LegState) (q : ℕ) → Preserved (Pinned i v s q)
unfolding Pinned
Pinned-Preserved i v s q call l l' h move =
    (Bounded-Preserved call l l' h.0 move, λ same. pinned_move i v s q call l l' h.0 h.1 move same)

-- While a leg keeps its `entityVersion`, it keeps its state and its filled quantity, and neither
-- version nor quantity ever goes down: a client that names the version it knows does know the leg.
-- The id of the leg is given to no new row, and no leg is overfilled at the start.
pub version_pins_leg :
    (i : String) (v : ℕ) (s : LegState) (q : ℕ) (history : List (Call × Action)) (w : World)
    → Issued (λ j. j ≢ i) history
    → All (Pinned i v s q) w.legs
    → All (Pinned i v s q) (run history w).legs
unfolding Pinned
version_pins_leg i v s q history w fresh h =
    run-All (Pinned i v s q) (λ j. j ≢ i) (Pinned-Preserved i v s q)
      (λ l other state _ none_yet.
        ((ground arith, λ e. absurd (cc (e, state))), λ same. absurd (other same)))
      history w fresh h
