-- ===== src/PaperTrading/Reserving.antt =====
-- paper-capital.service.ts, with the keys of paper_capital_reservations: the primary key, and the
-- unique index of migration 050 on the instrument of active rows.
use arbibot.Base.{
  ℕ, ◌+◌, ◌*◌, String, Bool, true, false, ◌&&◌, ◌||◌, Option, none, some, List, [], ◌∷◌, ◌++◌, any,
  find_key, save_row, str_eq, opt_str_eq, leb, if◌then◌else◌,
}

pub data PaperReservationState : Type 0 where
  active expired : PaperReservationState

-- `PaperCapitalReservationEntity`. Rows stand in the order of `createdAt`.
pub record PaperReservation : Type 0 where
  pub id : String
  pub instrument_key : String
  pub notional : String
  pub state : PaperReservationState
  pub expires_at : ℕ
  pub trade_id : Option String
  pub entity_version : ℕ

abbrev pub is_active : PaperReservationState → Bool
is_active active = true
is_active expired = false

abbrev pub paper_reservation_key : PaperReservation → String
paper_reservation_key r = r.id

-- `DEFAULT_TTL_MS`.
abbrev pub default_ttl_ms : ℕ
default_ttl_ms = 60 * 60 * 1000

abbrev pub of_instrument : String → PaperReservation → Bool
of_instrument k r = str_eq r.instrument_key k && is_active r.state

-- `where: { tradeId, state: 'active' }`.
abbrev pub of_trade : String → PaperReservation → Bool
of_trade i r = opt_str_eq r.trade_id (some i) && is_active r.state

-- The row that `reserveCapital` saves.
unfoldable pub paper_reservation : ℕ → String → String → String → String → PaperReservation
paper_reservation now fresh_id trade instrument notional = record {
  id = fresh_id;
  instrument_key = instrument;
  notional = notional;
  state = active;
  expires_at = now + default_ttl_ms;
  trade_id = some trade;
  entity_version = 1;
}

-- `reserveCapital`; `none` where a unique index refuses the row.
unfoldable pub reserve_capital :
    ℕ → String → String → String → String → List PaperReservation → Option (List PaperReservation)
unfolding paper_reservation any str_eq
reserve_capital now fresh_id trade instrument notional rows =
    if any (λ r. str_eq r.id fresh_id) rows || any (of_instrument instrument) rows
    then none
    else some (rows ++ paper_reservation now fresh_id trade instrument notional ∷ [])

-- `getActiveReservation`: the newest.
unfoldable pub get_active_reservation : String → List PaperReservation → Option PaperReservation
unfolding opt_str_eq
get_active_reservation i [] = none
get_active_reservation i (x ∷ rows) =
    let later = get_active_reservation i rows in
    elim later [ some r ↦ some r | none ↦ if of_trade i x then some x else none ]

abbrev pub expired_row : PaperReservation → PaperReservation
expired_row r = record r { state = expired; entity_version = r.entity_version + 1 }

-- `expireReservation`.
unfoldable pub expire_reservation : String → List PaperReservation → List PaperReservation
unfolding find_key save_row
expire_reservation k rows = elim (find_key paper_reservation_key k rows) [
  | none ↦ rows
  | some r ↦ if is_active r.state then save_row paper_reservation_key (expired_row r) rows else rows
]

-- What `cancel` and `settle` do to the reservation of their trade.
unfoldable pub expire_active : String → List PaperReservation → List PaperReservation
unfolding get_active_reservation expire_reservation
expire_active i rows = elim (get_active_reservation i rows) [
  | none ↦ rows
  | some r ↦ expire_reservation r.id rows
]

abbrev pub over_time : ℕ → PaperReservation → Bool
over_time now r = is_active r.state && leb r.expires_at now

-- `expireReservations`.
unfoldable pub expire_reservations : ℕ → List PaperReservation → List PaperReservation
expire_reservations now [] = []
expire_reservations now (r ∷ rows) =
    (if over_time now r then expired_row r else r) ∷ expire_reservations now rows
