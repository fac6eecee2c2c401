-- ===== src/Capital/Reservations.antt =====
-- capital.service.ts with packages/persistence/src/capital-reservation-expiry.ts and the unique index
-- of migration 051. Amounts are in units of the column's last decimal place.
use arbibot.Base.{
  ℕ, ◌+◌, ◌*◌, String, Bool, true, false, ◌&&◌, Option, none, some, List, [], ◌∷◌, ◌++◌, any,
  sum_of, find_by, find_key, save_row, str_eq, ltb, get_or, if◌then◌else◌,
}
use arbibot.Store.Outcome.{Error, Result, ok, err, not_found, conflict}

pub data ReservationState : Type 0 where
  active released expired : ReservationState

-- `CapitalReservationEntity`.
pub record Reservation : Type 0 where
  pub id : String
  pub plan_id : Option String
  pub correlation_id : String
  pub amount_usd : ℕ
  pub state : ReservationState
  pub expires_at : ℕ
  pub entity_version : ℕ

-- `ReserveCapitalDto`.
pub record ReserveCapital : Type 0 where
  pub correlation_id : String
  pub plan_id : Option String
  pub amount_usd : ℕ
  pub ttl_seconds : Option ℕ

-- The CapitalReserved row of the outbox.
pub record CapitalReserved : Type 0 where
  pub message_id : String
  pub reservation_id : String
  pub correlation_id : String
  pub plan_id : Option String
  pub amount_usd : ℕ
  pub expires_at : ℕ
  pub entity_version : ℕ

-- The table of reservations, the events of the service, and the ids of its audit calls.
pub record Ledger : Type 0 where
  pub reservations : List Reservation
  pub events : List CapitalReserved
  pub audited : List String

-- What one call reads from outside: the clock, the database's next id, `randomUUID()`, the answer of
-- CapitalLimitsService, and the sum of open positions in the table of portfolio-service.
pub record Request : Type 0 where
  pub now : ℕ
  pub fresh_id : String
  pub uuid : String
  pub ceiling : Result ℕ
  pub open_positions_usd : ℕ

abbrev pub is_active : ReservationState → Bool
is_active active = true
is_active _ = false

abbrev pub reservation_key : Reservation → String
reservation_key r = r.id

-- `materializeCapitalReservationExpiryIfNeeded`: the changed row, if it has to be saved.
unfoldable pub expiry_if_needed : ℕ → Reservation → Option Reservation
expiry_if_needed now row =
    if is_active row.state
    then (if ltb now row.expires_at
        then none
        else some (record row { state = expired; entity_version = row.entity_version + 1 }))
    else none

-- What an active row holds of the ceiling.
abbrev pub held : Reservation → ℕ
held r = if is_active r.state then r.amount_usd else 0

-- `SUM(amount_usd) ... WHERE state = 'active'`.
unfoldable pub active_total : List Reservation → ℕ
unfolding sum_of
active_total rows = sum_of held rows

-- `where: { correlationId, state: 'active' }`.
abbrev pub holds : String → Reservation → Bool
holds correlation r = str_eq r.correlation_id correlation && is_active r.state

unfoldable pub active_for : String → List Reservation → Option Reservation
unfolding find_by str_eq
active_for correlation rows = find_by (holds correlation) rows

-- How `attemptReserve` fails: the limits are not known, the ceiling is exceeded, or the unique index
-- on the correlation id of active rows refuses the insert.
pub data Refusal : Type 0 where
  limits_failed : Error → Refusal
  ceiling_exceeded : Refusal
  duplicate : Refusal

pub data Attempt : Type 0 where
  reserved : Reservation → Ledger → Attempt
  refused : Refusal → Attempt

unfoldable pub new_reservation : Request → ReserveCapital → Reservation
new_reservation req dto = record {
  id = req.fresh_id;
  plan_id = dto.plan_id;
  correlation_id = dto.correlation_id;
  amount_usd = dto.amount_usd;
  state = active;
  expires_at = req.now + get_or dto.ttl_seconds 300 * 1000;
  entity_version = 1;
}

unfoldable pub reserved_event : Request → Reservation → CapitalReserved
reserved_event req r = record {
  message_id = req.uuid;
  reservation_id = r.id;
  correlation_id = r.correlation_id;
  plan_id = r.plan_id;
  amount_usd = r.amount_usd;
  expires_at = r.expires_at;
  entity_version = r.entity_version;
}

-- The row, its event and its audit call.
unfoldable pub insert_reservation : Request → Reservation → Ledger → Ledger
unfolding reserved_event
insert_reservation req r l = record {
  reservations = l.reservations ++ r ∷ [];
  events = l.events ++ reserved_event req r ∷ [];
  audited = l.audited ++ r.id ∷ [];
}

-- `attemptReserve`. The sum over active rows is of the rows that the query sees, `seen`: the locks
-- that it takes do not keep another transaction from inserting a row in the meantime. A refusal rolls
-- back and leaves the ledger as it is.
unfoldable pub attempt_reserve : Request → ReserveCapital → List Reservation → Ledger → Attempt
unfolding new_reservation insert_reservation active_total any str_eq
attempt_reserve req dto seen l = elim req.ceiling [
  | err e ↦ refused (limits_failed e)
  | ok ceiling ↦
      if ltb ceiling (active_total seen + req.open_positions_usd + dto.amount_usd)
      then refused ceiling_exceeded
      else if any (holds dto.correlation_id) l.reservations
      then refused duplicate
      else reserved (new_reservation req dto) (insert_reservation req (new_reservation req dto) l)
]

-- What `reserve` answers: a row and the ledger, or why not.
pub data ReserveReply : Type 0 where
  reservation : Reservation → Ledger → ReserveReply
  rejected : Refusal → Ledger → ReserveReply

abbrev reply_of : Ledger → Attempt → ReserveReply
reply_of l (reserved r l') = reservation r l'
reply_of l (refused why) = rejected why l

existing_or_retry : Request → ReserveCapital → Option Reservation → Ledger → ReserveReply
unfolding attempt_reserve
existing_or_retry req dto (some r) l = reservation r l
existing_or_retry req dto none l = reply_of l (attempt_reserve req dto l.reservations l)

-- `reserve`. `others` is what other requests commit between a unique violation and the lookup.
unfoldable pub reserve :
    Request → (Ledger → Ledger) → ReserveCapital → List Reservation → Ledger → ReserveReply
unfolding attempt_reserve existing_or_retry active_for
reserve req others dto seen l = elim (attempt_reserve req dto seen l) [
  | reserved r l' ↦ reservation r l'
  | refused duplicate ↦
      existing_or_retry req dto (active_for dto.correlation_id (others l).reservations) (others l)
  | refused why ↦ rejected why l
]

abbrev put_reservation : Reservation → Ledger → Ledger
put_reservation r l = record l { reservations = save_row reservation_key r l.reservations }

-- `getById`: the row, expired by now where its time is over.
unfoldable pub get_by_id : ℕ → String → Ledger → Result Reservation × Ledger
unfolding expiry_if_needed
get_by_id now i l = elim (find_key reservation_key i l.reservations) [
  | none ↦ (err not_found, l)
  | some row ↦ elim (expiry_if_needed now row) [
    | none ↦ (ok row, l)
    | some row' ↦ (ok row', put_reservation row' l)
  ]
]

abbrev pub released_row : Reservation → Reservation
released_row row = record row { state = released; entity_version = row.entity_version + 1 }

release_active : ℕ → Reservation → Ledger → Result Reservation × Ledger
unfolding expiry_if_needed
release_active now row l = elim (expiry_if_needed now row) [
  | some row' ↦ (err conflict, l)
  | none ↦
      let saved = released_row row in
      (ok saved, record (put_reservation saved l) { audited = l.audited ++ saved.id ∷ [] })
]

-- `release`. The row that is expired here is saved and then lost: the exception rolls the save back.
unfoldable pub release : ℕ → String → Ledger → Result Reservation × Ledger
unfolding release_active
release now i l = elim (find_key reservation_key i l.reservations) [
  | none ↦ (err not_found, l)
  | some row ↦ elim row.state [
    | released ↦ (ok row, l)
    | expired ↦ (err conflict, l)
    | active ↦ release_active now row l
  ]
]
