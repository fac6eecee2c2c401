-- ===== src/Capital/Ceiling.antt =====
-- The ceiling that capital.service.ts sets to reservations.
use arbibot.Base.{
  ℕ, ◌+◌, ◌≤◌, ◌≡◌, inl, inr, false, List, [], ◌∷◌, ◌++◌, any, ap, sum_of-append, arith, ltb,
}
use arbibot.Store.Outcome.{ok, Result-cases}
use arbibot.Capital.Reservations.{
  Request, ReserveCapital, Reservation, Ledger, active_total, attempt_reserve, reserved, active,
  new_reservation, reserved_event, holds, held,
}

active_total-append :
    (rows : List Reservation) (r : Reservation)
    → active_total (rows ++ r ∷ []) ≡ active_total rows + held r
unfolding active_total
active_total-append rows r = omega (arith, sum_of-append held rows (r ∷ []))

-- What an accepted reservation did.
pub attempt_reserve-reserved :
    (req : Request) (dto : ReserveCapital) (seen : List Reservation) (l : Ledger) {r : Reservation}
    {l' : Ledger}
    → attempt_reserve req dto seen l ≡ reserved r l'
    → (c : ℕ) × (req.ceiling ≡ ok c)
      × (ltb c (active_total seen + req.open_positions_usd + dto.amount_usd) ≡ false)
      × (any (holds dto.correlation_id) l.reservations ≡ false)
      × (r ≡ new_reservation req dto)
      × (l'.reservations ≡ l.reservations ++ r ∷ [])
      × (l'.events ≡ l.events ++ reserved_event req r ∷ [])
unfolding attempt_reserve
attempt_reserve-reserved req dto seen l e = elim (Result-cases req.ceiling) [
  | inr (x, unknown) ↦ absurd (ground arith)
  | inl (c, known) ↦
      (c, known, ground arith, ground arith, ground arith, ground arith, ground arith)
]

-- A reservation that no other request interferes with is accepted only under a known ceiling, and
-- after it the active reservations, which grew by just the requested amount, and the open positions
-- stay within this ceiling. The reservation is active, for the request's correlation id, plan and amount;
-- it is the one row added, and exactly its CapitalReserved event is added.
pub attempt_reserve_within_ceiling :
    (req : Request) (dto : ReserveCapital) (l : Ledger) {r : Reservation} {l' : Ledger}
    → attempt_reserve req dto l.reservations l ≡ reserved r l'
    → (c : ℕ) × (req.ceiling ≡ ok c)
      × (active_total l'.reservations ≡ active_total l.reservations + dto.amount_usd)
      × (active_total l'.reservations + req.open_positions_usd ≤ c)
      × (r.state ≡ active)
      × (r.correlation_id ≡ dto.correlation_id)
      × (r.plan_id ≡ dto.plan_id)
      × (r.amount_usd ≡ dto.amount_usd)
      × (l'.reservations ≡ l.reservations ++ r ∷ [])
      × (l'.events ≡ l.events ++ reserved_event req r ∷ [])
unfolding new_reservation
attempt_reserve_within_ceiling req dto l {r} {l'} e =
    let (c, known, fits, free, is_r, rows, events) =
      attempt_reserve-reserved req dto l.reservations l e in
    let total : active_total l'.reservations ≡ active_total l.reservations + dto.amount_usd =
      rw (rows, is_r) (active_total-append l.reservations (new_reservation req dto)) in
    (
      c,
      known,
      total,
      ground (arith, total),
      ap (λ (x : Reservation). x.state) is_r,
      ap (λ (x : Reservation). x.correlation_id) is_r,
      ap (λ (x : Reservation). x.plan_id) is_r,
      ap (λ (x : Reservation). x.amount_usd) is_r,
      rows,
      events,
    )
