-- ===== src/PaperTrading/Settled.antt =====
-- A paper trade that has ended, over every history.
use arbibot.Base.{
  ℕ, String, ◌≡◌, refl, sym, subst, ap, ◌∙◌, Bool, true, false, some, List, [], ◌∷◌, ◌++◌, any,
  find_key, find_key-key, find_key-save_row, str_eq, str_eq_iff, Bool-cases, Option-cases, inl, inr,
  arith,
}
use arbibot.Store.Outcome.{Result, ok, err, ◌>>=◌}
use arbibot.PaperTrading.Trades.{
  draft, Book, PaperTrade, PaperTradeState, CreatePaperTrade, PatchPaperTrade, Tick, active,
  canceled, settled, allowed, trade_key, insert_trade, new_trade, put_trade, committed, existing,
  next_state, locked_trade,
}
use arbibot.PaperTrading.Trading.{
  patch, patched, rejection, reject, transition_to_active, activated, cancel_tx, settle_tx, ended,
  with_result, audited,
}
use arbibot.PaperTrading.Changes.{
  committed-Keeps, locked-ok, patched_lem, activated_lem, ended_lem, reject_kept,
}
use arbibot.PaperTrading.AutoDrive.{cancel_draft, canceled_draft}
use arbibot.PaperTrading.Histories.{
  cancels_draft, CurrentAt, CurrentCopies, TradeAction, creates, patches, approves, rejects,
  cancels, settles, expires, perform, history_of,
}

abbrev pub has_ended : PaperTradeState → Bool
has_ended settled = true
has_ended canceled = true
has_ended _ = false

-- The same end: the state and the result.
abbrev pub SameEnd : PaperTrade → PaperTrade → Type 0
SameEnd t u =
    (u.state ≡ t.state)
    × (u.entry_price ≡ t.entry_price)
    × (u.exit_price ≡ t.exit_price)
    × (u.profit_usd ≡ t.profit_usd)
    × (u.settled_at ≡ t.settled_at)

-- The trade of an id stands as it ended.
abbrev pub Stands : PaperTrade → String → Book → Type 0
Stands t i b = (u : PaperTrade) × (find_key trade_key i b.trades ≡ some u) × SameEnd t u

nothing_follows : (s to : PaperTradeState) → has_ended s ≡ true → allowed s to ≡ false
unfolding allowed
nothing_follows s to e = ground arith

appended-found :
    (i : String) (t : PaperTrade) (trades : List PaperTrade) {u : PaperTrade}
    → find_key trade_key i trades ≡ some u
    → find_key trade_key i (trades ++ t ∷ []) ≡ some u
unfolding find_key
appended-found i t [] found = absurd (cc found)
appended-found i t (x ∷ trades) {u} found = elim (Bool-cases (str_eq x.id i)) [
  | inl hit ↦ ground (arith, hit)
  | inr miss ↦ ground (arith, miss, appended-found i t trades {u = u} (ground arith))
]

-- A save over a row of another trade, or of the same end.
put-Stands :
    (t : PaperTrade) (i k : String) (b b' : Book) (row u : PaperTrade)
    → has_ended t.state ≡ true
    → find_key trade_key k b.trades ≡ some row
    → u.id ≡ row.id
    → (has_ended row.state ≡ true → SameEnd row u)
    → b'.trades ≡ (put_trade u b).trades
    → Stands t i b
    → Stands t i b'
put-Stands t i k b b' row u over found same keeps saved (v, there, end) =
    let its_key = find_key-key trade_key k b.trades found in
    let reads = ap (find_key trade_key i) saved ∙ find_key-save_row trade_key i u b.trades in
    elim (Bool-cases (str_eq u.id i)) [
      | inr other ↦ (v, ground (arith, reads, other, there), end)
      | inl hit ↦
          let is_i : k ≡ i = sym (same ∙ its_key) ∙ (str_eq_iff u.id i).0 hit in
          let is_row : v ≡ row =
            ground
              (arith, there, subst (λ j. find_key trade_key j b.trades ≡ some row) is_i found) in
          let row_end : SameEnd t row = subst (SameEnd t) is_row end in
          let (s, a, x, p, d) = keeps (ground (arith, row_end, over)) in
          let (s', a', x', p', d') = row_end in
          (u, ground (arith, reads, hit), (s ∙ s', a ∙ a', x ∙ x', p ∙ p', d ∙ d'))
    ]

insert-Stands :
    (t : PaperTrade) (i : String) (tick : Tick) (dto : CreatePaperTrade) (b : Book)
    → Stands t i b
    → Stands t i (insert_trade tick dto b).1
unfolding insert_trade
insert-Stands t i tick dto b (u, found, end) =
    elim (Option-cases (existing dto.idempotency_key b.trades)) [
      | inr (v, replay) ↦ (u, ground (arith, replay, found), end)
      | inl new ↦ elim (Bool-cases (any (λ x. str_eq x.id tick.fresh_id) b.trades)) [
        | inl taken ↦ (u, ground (arith, new, taken, found), end)
        | inr fresh ↦ (
          u,
          ground (arith, new, fresh, appended-found i (new_trade tick dto) b.trades found),
          end,
        )
      ]
    ]

-- `patch` may change the notional of a trade that has ended, and no more.
patched-SameEnd :
    (dto : PatchPaperTrade) (b : Book) (row : PaperTrade) {u : PaperTrade} {b' : Book}
    → patched dto b row ≡ ok (u, b')
    → has_ended row.state ≡ true
    → SameEnd row u
unfolding next_state
patched-SameEnd dto b row done over =
    let (_, _, moved, a, x, p, d) = patched_lem dto b row done in
    elim (Option-cases dto.state) [
      | inl no_state ↦ (ground (arith, moved, no_state), a, x, p, d)
      | inr (to, set) ↦ absurd (ground (arith, moved, set, nothing_follows row.state to over))
    ]

patch-Stands :
    (t : PaperTrade) (i k : String) (dto : PatchPaperTrade) (b : Book)
    → has_ended t.state ≡ true
    → Stands t i b
    → Stands t i (patch k dto b).1
unfolding patch
patch-Stands t i k dto b over stands = committed-Keeps (Stands t i) b _ stands (λ u b' e.
    let (row, found, done) = locked-ok k dto.expected_version b (patched dto b) e in
    let (is_b, same, _, _, _, _, _) = patched_lem dto b row done in
    put-Stands t i k b b' row u over found same (patched-SameEnd dto b row done)
      (ap (λ (x : Book). x.trades) is_b) stands)

activate-Stands :
    (t : PaperTrade) (i : String) (tick : Tick) (before : PaperTrade) (b : Book)
    → has_ended t.state ≡ true
    → Stands t i b
    → Stands t i (transition_to_active tick before b).1
unfolding transition_to_active
activate-Stands t i tick before b over stands = committed-Keeps (Stands t i) b _ stands (λ u b' e.
    let (row, found, done) =
      locked-ok before.id before.entity_version b (activated tick before b) e in
    let (rows, reserved, may, same, on, is_b) = activated_lem tick before b row done in
    put-Stands t i before.id b b' row u over found same
      (λ ended_row. absurd (ground (arith, may, nothing_follows row.state active ended_row)))
      (ap (λ (x : Book). x.trades) is_b) stands)

-- `cancel` and `settle`, with what the latter adds to the row.
end-Stands :
    (t : PaperTrade) (i k : String) (version : ℕ) (to : PaperTradeState)
    (result : PaperTrade → PaperTrade) (b : Book)
    → ((x : PaperTrade) → (result x).id ≡ x.id)
    → has_ended t.state ≡ true
    → Stands t i b
    → Stands t i (committed b (locked_trade k version b >>= ended to result b)).1
end-Stands t i k version to result b keeps_id over stands =
    committed-Keeps (Stands t i) b _ stands (λ u b' e.
      let (row, found, done) = locked-ok k version b (ended to result b) e in
      let (may, is_u, is_b) = ended_lem to result b row done in
      put-Stands t i k b b' row u over found (ap (λ (x : PaperTrade). x.id) is_u ∙ keeps_id _)
        (λ ended_row. absurd (ground (arith, may, nothing_follows row.state to ended_row)))
        (ap (λ (x : Book). x.trades) is_b) stands)

audited-Stands :
    (t : PaperTrade) (i operator action k : String) (r : Result PaperTrade × Book)
    → Stands t i r.1
    → Stands t i (audited operator action k r).1
unfolding audited
audited-Stands t i operator action k (ok u, b) stands = stands
audited-Stands t i operator action k (err e, b) stands = stands

reject-Stands :
    (t : PaperTrade) (i k operator : String) (b : Book)
    → has_ended t.state ≡ true
    → Stands t i b
    → Stands t i (reject (λ x. x) k operator b).1
reject-Stands t i k operator b over stands =
    reject_kept (Stands t i) k operator b stands (λ before read fresh.
      audited-Stands t i operator "paper_trade_rejected" k _
        (patch-Stands t i k (rejection before) b over stands))

draft-Stands :
    (t : PaperTrade) (i : String) (d : PaperTrade) (b : Book)
    → find_key trade_key d.id b.trades ≡ some d
    → d.state ≡ draft
    → has_ended t.state ≡ true
    → Stands t i b
    → Stands t i (cancel_draft d b)
unfolding cancel_draft
draft-Stands t i d b found is_draft over stands =
    put-Stands t i d.id b (cancel_draft d b) d (canceled_draft d) over found refl
      (λ ended_row. absurd (ground (arith, is_draft, ended_row))) refl stands

perform-Stands :
    (a : TradeAction) (t : PaperTrade) (i : String) (b : Book)
    → CurrentAt a b
    → has_ended t.state ≡ true
    → Stands t i b
    → Stands t i (perform a b)
unfolding perform cancel_tx settle_tx
perform-Stands (creates tick dto) t i b current over stands = insert-Stands t i tick dto b stands
perform-Stands (patches k dto) t i b current over stands = patch-Stands t i k dto b over stands
perform-Stands (approves tick before) t i b current over stands =
    activate-Stands t i tick before b over stands
perform-Stands (rejects k operator) t i b current over stands =
    reject-Stands t i k operator b over stands
perform-Stands (cancels before) t i b current over stands =
    end-Stands t i before.id before.entity_version canceled (λ x. x) b (λ x. refl) over stands
perform-Stands (settles now k dto) t i b current over stands =
    end-Stands t i k dto.expected_version settled (with_result now dto) b (λ x. refl) over stands
perform-Stands (cancels_draft d) t i b (found, is_draft) over stands =
    draft-Stands t i d b found is_draft over stands
perform-Stands (expires now) t i b current over stands = stands

-- A settled or canceled trade stays: over any history, PATCH requests included, its id still finds a
-- row with the same state, prices, profit and time of settlement. No other transaction comes between the
-- read of a draft by the auto-drive worker and its save as canceled.
pub ended_trade-Stands :
    (actions : List TradeAction) (t : PaperTrade) (i : String) (b : Book)
    → CurrentCopies actions b
    → has_ended t.state ≡ true
    → Stands t i b
    → Stands t i (history_of actions b)
unfolding history_of
ended_trade-Stands [] t i b current over stands = stands
ended_trade-Stands (a ∷ actions) t i b current over stands =
    ended_trade-Stands actions t i (perform a b) current.1 over
      (perform-Stands a t i b current.0 over stands)
