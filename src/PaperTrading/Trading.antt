-- ===== src/PaperTrading/Trading.antt =====
-- patch, approve, reject, cancel and settle of paper-trades.service.ts. Numbers that become columns by `String` are the texts that it gives.
use arbibot.Base.{
  ℕ, ◌+◌, String, not, ◌&&◌, Option, none, some, [], ◌∷◌, ◌++◌, find_key, save_row, str_eq, get_or,
  is_none, if◌then◌else◌,
}
use arbibot.Json.{Json, Fields, end, field, num}
use arbibot.Store.Outcome.{
  Result, ok, err, not_found, conflict, bad_request, ◌>>=◌, ◌>>◌, assert, demand,
}
use arbibot.PaperTrading.Reserving.{reserve_capital, expire_active}
use arbibot.PaperTrading.Trades.{
  active, settled, canceled, PaperTradeState, PaperTrade, PatchPaperTrade, SettlePaperTrade, Book,
  Tick, trade_key, allowed, is_draft, is_live, is_settled, locked_trade, put_trade, committed,
  next_state,
}

unfoldable pub patched : PatchPaperTrade → Book → PaperTrade → Result (PaperTrade × Book)
unfolding save_row next_state
patched dto b row = do
  assert (not (is_none dto.state && is_none dto.notional)) bad_request
  to ← next_state row dto.state
  let t : PaperTrade = record row {
    state = to;
    notional = get_or dto.notional row.notional;
    entity_version = row.entity_version + 1;
  }
  ok (t, put_trade t b)

-- `patch`.
unfoldable pub patch : String → PatchPaperTrade → Book → Result PaperTrade × Book
unfolding locked_trade patched
patch i dto b = committed b (locked_trade i dto.expected_version b >>= patched dto b)

-- The rest of `transitionToActive`, with the instrument and the notional that were read before.
unfoldable pub activated : Tick → PaperTrade → Book → PaperTrade → Result (PaperTrade × Book)
unfolding allowed reserve_capital save_row
activated tick before b row = do
  assert (allowed row.state active) conflict
  rows ←
      demand
        (reserve_capital tick.now tick.fresh_id row.id before.instrument_key before.notional
          b.reservations)
        conflict
  let t : PaperTrade = record row { state = active; entity_version = row.entity_version + 1 }
  ok (t, put_trade t (record b { reservations = rows }))

-- The transaction of `approve`: `before` is what it read outside. A unique violation ends as a conflict.
unfoldable pub transition_to_active : Tick → PaperTrade → Book → Result PaperTrade × Book
unfolding locked_trade activated
transition_to_active tick before b =
    committed b (locked_trade before.id before.entity_version b >>= activated tick before b)

-- The terminal state of a trade whose reservation is expired.
unfoldable pub ended :
    PaperTradeState → (PaperTrade → PaperTrade) → Book → PaperTrade → Result (PaperTrade × Book)
unfolding allowed expire_active save_row
ended to result b row = do
  assert (allowed row.state to) conflict
  let t : PaperTrade = result (record row { state = to; entity_version = row.entity_version + 1 })
  ok (t, put_trade t (record b { reservations = expire_active row.id b.reservations }))

-- The transaction of `cancel`.
unfoldable pub cancel_tx : PaperTrade → Book → Result PaperTrade × Book
unfolding locked_trade ended
cancel_tx before b =
    committed b (locked_trade before.id before.entity_version b >>= ended canceled (λ t. t) b)

-- `{ ...summary, spreadBps }`.
unfoldable pub with_field : String → Json → Fields → Fields
unfolding str_eq
with_field k v end = field k v end
with_field k v (field j u fs) =
    let rest = with_field k v fs in if str_eq j k then field j v fs else field j u rest

abbrev pub with_spread : Option ℕ → Fields → Fields
unfolding with_field
with_spread none summary = summary
with_spread (some bps) summary = with_field "spreadBps" (num bps) summary

abbrev pub with_result : ℕ → SettlePaperTrade → PaperTrade → PaperTrade
with_result now dto t = record t {
  entry_price = some dto.entry_price;
  exit_price = some dto.exit_price;
  profit_usd = some dto.profit_usd;
  settled_at = some now;
  summary = with_spread dto.spread_bps t.summary;
}

-- The transaction of `settle`.
unfoldable pub settle_tx : ℕ → String → SettlePaperTrade → Book → Result PaperTrade × Book
unfolding locked_trade ended
settle_tx now i dto b =
    committed b (locked_trade i dto.expected_version b >>= ended settled (with_result now dto) b)

-- The audit call of an operation that succeeded.
unfoldable pub audited :
    String → String → String → Result PaperTrade × Book → Result PaperTrade × Book
audited operator action i (ok t, b) = (
  ok t,
  record b {
    audit = b.audit ++ record { actor = operator; action = action; resource_id = i } ∷ [];
  },
)
audited operator action i (err e, b) = (err e, b)

-- `approve`, `reject`, `cancel` and `settle` read the row outside of their transactions; `others` is
-- what is committed in between.
unfoldable pub approve : Tick → (Book → Book) → String → String → Book → Result PaperTrade × Book
unfolding find_key transition_to_active audited
approve tick others i operator b = elim (find_key trade_key i b.trades) [
  | none ↦ (err not_found, b)
  | some before ↦
      if is_draft before.state
      then audited operator "paper_trade_approved" i (transition_to_active tick before (others b))
      else (err bad_request, b)
]

abbrev pub rejection : PaperTrade → PatchPaperTrade
rejection before = record {
  expected_version = before.entity_version;
  state = some canceled;
  notional = none;
}

unfoldable pub reject : (Book → Book) → String → String → Book → Result PaperTrade × Book
unfolding find_key patch audited
reject others i operator b = elim (find_key trade_key i b.trades) [
  | none ↦ (err not_found, b)
  | some before ↦
      if is_draft before.state
      then audited operator "paper_trade_rejected" i (patch i (rejection before) (others b))
      else (err bad_request, b)
]

unfoldable pub cancel : (Book → Book) → String → String → Book → Result PaperTrade × Book
unfolding find_key cancel_tx audited
cancel others i operator b = elim (find_key trade_key i b.trades) [
  | none ↦ (err not_found, b)
  | some before ↦
      if is_live before.state
      then audited operator "paper_trade_canceled" i (cancel_tx before (others b))
      else (err bad_request, b)
]

unfoldable pub settle :
    ℕ → (Book → Book) → String → SettlePaperTrade → String → Book → Result PaperTrade × Book
unfolding find_key settle_tx audited
settle now others i dto operator b = elim (find_key trade_key i b.trades) [
  | none ↦ (err not_found, b)
  | some before ↦
      if is_settled before.state
      then (ok before, b)
      else if is_live before.state
      then audited operator "paper_trade_settled" i (settle_tx now i dto (others b))
      else (err bad_request, b)
]
