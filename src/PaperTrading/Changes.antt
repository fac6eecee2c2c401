-- ===== src/PaperTrading/Changes.antt =====
-- What the transactions of paper-trades.service.ts change, where they commit.
use arbibot.Base.{
  ℕ, ◌+◌, String, ◌≡◌, refl, sym, subst, true, not, ◌&&◌, some, List, find_key, ◌==◌, is_none,
  Bool-cases, Option-cases, inl, inr, arith,
}
use arbibot.Store.Outcome.{Result, ok, err, Result-cases, ◌>>=◌}
use arbibot.PaperTrading.Reserving.{PaperReservation, reserve_capital, expire_active}
use arbibot.PaperTrading.Trades.{
  Book, PaperTrade, PaperTradeState, PatchPaperTrade, Tick, active, allowed, trade_key,
  locked_trade, committed, next_state, put_trade, is_draft,
}
use arbibot.PaperTrading.Trading.{patched, activated, ended, patch, reject, rejection, audited}

-- What holds of the book before and of each book that can be committed holds after the transaction.
pub committed-Keeps :
    (P : Book → Type 0) (b : Book) (r : Result (PaperTrade × Book))
    → P b
    → ((t : PaperTrade) (b' : Book) → r ≡ ok (t, b') → P b')
    → P (committed b r).1
committed-Keeps P b (ok (t, b')) before after = after t b' refl
committed-Keeps P b (err e) before after = before

pub locked_trade_lem :
    (i : String) (version : ℕ) (b : Book) {row : PaperTrade}
    → locked_trade i version b ≡ ok row
    → find_key trade_key i b.trades ≡ some row
unfolding locked_trade
locked_trade_lem i version b {row} e = elim (Option-cases (find_key trade_key i b.trades)) [
  | inl missing ↦ absurd (ground (arith, missing))
  | inr (t, found) ↦ elim (Bool-cases (t.entity_version == version)) [
    | inl same ↦ ground (arith, found, same)
    | inr other ↦ absurd (ground (arith, found, other))
  ]
]

-- A transaction on a locked row.
pub locked-ok :
    (i : String) (version : ℕ) (b : Book) (k : PaperTrade → Result (PaperTrade × Book))
    {t : PaperTrade} {b' : Book}
    → (locked_trade i version b >>= k) ≡ ok (t, b')
    → (row : PaperTrade) × (find_key trade_key i b.trades ≡ some row) × (k row ≡ ok (t, b'))
locked-ok i version b k {t} {b'} e = elim (Result-cases (locked_trade i version b)) [
  | inl (row, found) ↦ (row, locked_trade_lem i version b found, ground (arith, found))
  | inr (x, failed) ↦ absurd (ground (arith, failed))
]

-- `patch` moves along an allowed transition or not at all, and leaves the reservations and the result.
pub patched_lem :
    (dto : PatchPaperTrade) (b : Book) (row : PaperTrade) {t : PaperTrade} {b' : Book}
    → patched dto b row ≡ ok (t, b')
    → (b' ≡ put_trade t b)
      × (t.id ≡ row.id)
      × (next_state row dto.state ≡ ok t.state)
      × (t.entry_price ≡ row.entry_price)
      × (t.exit_price ≡ row.exit_price)
      × (t.profit_usd ≡ row.profit_usd)
      × (t.settled_at ≡ row.settled_at)
unfolding patched
patched_lem dto b row {t} {b'} e =
    elim (Bool-cases (not (is_none dto.state && is_none dto.notional))) [
      | inr nothing ↦ absurd (ground (arith, nothing))
      | inl some_field ↦ elim (Result-cases (next_state row dto.state)) [
        | inr (x, refused) ↦ absurd (ground (arith, some_field, refused))
        | inl (to, moved) ↦ (
          ground (arith, some_field, moved),
          ground (arith, some_field, moved),
          ground (arith, some_field, moved),
          ground (arith, some_field, moved),
          ground (arith, some_field, moved),
          ground (arith, some_field, moved),
          ground (arith, some_field, moved),
        )
      ]
    ]

pub activated_lem :
    (tick : Tick) (before : PaperTrade) (b : Book) (row : PaperTrade) {t : PaperTrade} {b' : Book}
    → activated tick before b row ≡ ok (t, b')
    → (rows : List PaperReservation) × (reserve_capital tick.now tick.fresh_id row.id
          before.instrument_key before.notional b.reservations
        ≡ some rows)
      × (allowed row.state active ≡ true)
      × (t.id ≡ row.id)
      × (t.state ≡ active)
      × (b' ≡ put_trade t (record b { reservations = rows }))
unfolding activated
activated_lem tick before b row {t} {b'} e = elim (Bool-cases (allowed row.state active)) [
  | inr refused ↦ absurd (ground (arith, refused))
  | inl may ↦
      elim (Option-cases (
        reserve_capital tick.now tick.fresh_id row.id before.instrument_key before.notional
          b.reservations)) [
            | inl busy ↦ absurd (ground (arith, may, busy))
            | inr (rows, reserved) ↦ (
              rows,
              reserved,
              may,
              ground (arith, may, reserved),
              ground (arith, may, reserved),
              ground (arith, may, reserved),
            )
          ]
]

pub ended_lem :
    (to : PaperTradeState) (result : PaperTrade → PaperTrade) (b : Book) (row : PaperTrade)
    {t : PaperTrade} {b' : Book}
    → ended to result b row ≡ ok (t, b')
    → (allowed row.state to ≡ true)
      × (t ≡ result (record row { state = to; entity_version = row.entity_version + 1 }))
      × (b' ≡ put_trade t (record b { reservations = expire_active row.id b.reservations }))
unfolding ended
ended_lem to result b row {t} {b'} e = elim (Bool-cases (allowed row.state to)) [
  | inr refused ↦ absurd (ground (arith, refused))
  | inl may ↦ (may, ground (arith, may), ground (arith, may))
]

-- A rejection that is not overtaken changes nothing, or it is a patch of a draft with its audit call.
pub reject_kept :
    (P : Book → Type 0) (i operator : String) (b : Book)
    → P b
    → ((before : PaperTrade)
        → find_key trade_key i b.trades ≡ some before
        → is_draft before.state ≡ true
        → P (audited operator "paper_trade_rejected" i (patch i (rejection before) b)).1)
    → P (reject (λ x. x) i operator b).1
unfolding reject
reject_kept P i operator b kept changed = elim (Option-cases (find_key trade_key i b.trades)) [
  | inl missing ↦
      let is_b : (reject (λ x. x) i operator b).1 ≡ b = ground (arith, missing) in
      subst P (sym is_b) kept
  | inr (before, read) ↦ elim (Bool-cases (is_draft before.state)) [
    | inr other ↦
        let is_b : (reject (λ x. x) i operator b).1 ≡ b = ground (arith, read, other) in
        subst P (sym is_b) kept
    | inl fresh ↦
        let call = patch i (rejection before) b in
        let is_call : reject (λ x. x) i operator b
            ≡ audited operator "paper_trade_rejected" i call =
          ground (arith, read, fresh) in
        subst (λ (r : Result PaperTrade × Book). P r.1) (sym is_call) (changed before read fresh)
  ]
]
