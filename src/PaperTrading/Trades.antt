-- ===== src/PaperTrading/Trades.antt =====
-- paper-trades.service.ts. Numbers that become columns by `String` are the texts that it gives.
use arbibot.Base.{
  ℕ, String, Bool, true, false, Option, none, some, List, [], ◌∷◌, ◌++◌, any, find_by, find_key,
  save_row, str_eq, opt_str_eq, get_or, ◌==◌, if◌then◌else◌,
}
use arbibot.Json.{Fields, end}
use arbibot.Store.Outcome.{
  Result, ok, err, not_found, conflict, failure, ◌>>=◌, ◌>>◌, assert, demand,
}
use arbibot.PaperTrading.Reserving.{PaperReservation}

pub data PaperTradeState : Type 0 where
  draft active settled canceled : PaperTradeState

-- `PaperTradeEntity`.
pub record PaperTrade : Type 0 where
  pub id : String
  pub opportunity_id : Option String
  pub instrument_key : String
  pub route_key : Option String
  pub state : PaperTradeState
  pub notional : String
  pub summary : Fields
  pub entry_price : Option String
  pub exit_price : Option String
  pub profit_usd : Option String
  pub settled_at : Option ℕ
  pub entity_version : ℕ
  pub idempotency_key : Option String

pub record CreatePaperTrade : Type 0 where
  pub opportunity_id : Option String
  pub instrument_key : String
  pub route_key : Option String
  pub notional : Option String
  pub summary : Option Fields
  pub idempotency_key : Option String

pub record PatchPaperTrade : Type 0 where
  pub expected_version : ℕ
  pub state : Option PaperTradeState
  pub notional : Option String

pub record SettlePaperTrade : Type 0 where
  pub expected_version : ℕ
  pub entry_price : String
  pub exit_price : String
  pub profit_usd : String
  pub spread_bps : Option ℕ

-- A call of the audit service.
pub record TradeAudit : Type 0 where
  pub actor : String
  pub action : String
  pub resource_id : String

pub record Book : Type 0 where
  pub trades : List PaperTrade
  pub reservations : List PaperReservation
  pub audit : List TradeAudit

-- The clock and the id that the database gives to a new row.
pub record Tick : Type 0 where
  pub now : ℕ
  pub fresh_id : String

abbrev pub trade_key : PaperTrade → String
trade_key t = t.id

-- `TRADE_STATE_ALLOWED[from].includes(to)`.
unfoldable pub allowed : PaperTradeState → PaperTradeState → Bool
allowed draft active = true
allowed draft canceled = true
allowed active settled = true
allowed active canceled = true
allowed _ _ = false

abbrev pub is_draft : PaperTradeState → Bool
is_draft draft = true
is_draft _ = false

abbrev pub is_live : PaperTradeState → Bool
is_live active = true
is_live _ = false

abbrev pub is_settled : PaperTradeState → Bool
is_settled settled = true
is_settled _ = false

-- `findOne({ where: { idempotencyKey } })`.
unfoldable pub trade_for : String → List PaperTrade → Option PaperTrade
unfolding find_by opt_str_eq
trade_for k trades = find_by (λ t. opt_str_eq t.idempotency_key (some k)) trades

unfoldable pub existing : Option String → List PaperTrade → Option PaperTrade
unfolding trade_for
existing none trades = none
existing (some k) trades = trade_for k trades

unfoldable pub new_trade : Tick → CreatePaperTrade → PaperTrade
new_trade tick dto = record {
  id = tick.fresh_id;
  opportunity_id = dto.opportunity_id;
  instrument_key = dto.instrument_key;
  route_key = dto.route_key;
  state = draft;
  notional = get_or dto.notional "0";
  summary = get_or dto.summary end;
  entry_price = none;
  exit_price = none;
  profit_usd = none;
  settled_at = none;
  entity_version = 1;
  idempotency_key = dto.idempotency_key;
}

-- `save(row)` and its `catch`: the unique indexes on the id and on the idempotency key.
unfoldable pub insert_trade : Tick → CreatePaperTrade → Book → Result PaperTrade × Book
unfolding new_trade existing any str_eq
insert_trade tick dto b = elim (existing dto.idempotency_key b.trades) [
  | some replay ↦ (ok replay, b)
  | none ↦
      if any (λ t. str_eq t.id tick.fresh_id) b.trades
      then (err failure, b)
      else (ok (new_trade tick dto), record b { trades = b.trades ++ new_trade tick dto ∷ [] })
]

-- `create`. `others` is what is committed between the lookup and the insert.
unfoldable pub create : Tick → (Book → Book) → CreatePaperTrade → Book → Result PaperTrade × Book
unfolding insert_trade existing
create tick others dto b = elim (existing dto.idempotency_key b.trades) [
  | some t ↦ (ok t, b)
  | none ↦ insert_trade tick dto (others b)
]

-- The row under an id and a version, once it is locked.
unfoldable pub locked_trade : String → ℕ → Book → Result PaperTrade
unfolding find_key
locked_trade i version b = do
  row ← demand (find_key trade_key i b.trades) not_found
  assert (row.entity_version == version) conflict
  ok row

-- `em.save(PaperTradeEntity, row)`.
abbrev pub put_trade : PaperTrade → Book → Book
put_trade t b = record b { trades = save_row trade_key t b.trades }

-- What a transaction that throws leaves is the book before it.
abbrev pub committed : Book → Result (PaperTrade × Book) → Result PaperTrade × Book
committed b (ok (t, b')) = (ok t, b')
committed b (err e) = (err e, b)

unfoldable pub next_state : PaperTrade → Option PaperTradeState → Result PaperTradeState
unfolding allowed
next_state row none = ok row.state
next_state row (some to) = assert (allowed row.state to) conflict >> ok to
