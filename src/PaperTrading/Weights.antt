-- ===== src/PaperTrading/Weights.antt =====
-- What the statements of paper-capital.service.ts do to sums over the reservations.
use arbibot.Base.{
  ℕ, ◌≤◌, String, ◌≡◌, refl, ap, subst, Bool, true, false, some, none, List, [], ◌∷◌, ◌++◌, any,
  count, sum_of, sum_of-save_found, find_key, find_key-key, find_key-Occurs, find_key-only, Occurs,
  rows_under, rows_under-save_row, str_eq, Bool-cases, Option-cases, inl, inr, arith, if◌then◌else◌,
}
use arbibot.PaperTrading.Reserving.{
  PaperReservation, paper_reservation, paper_reservation_key, reserve_capital,
  get_active_reservation, is_active, expire_reservation, expire_active, expire_reservations,
  expired_row, of_trade, of_instrument,
}

-- One for each active reservation of a trade, and of an instrument.
abbrev pub for_trade : String → PaperReservation → ℕ
for_trade i r = if of_trade i r then 1 else 0

abbrev pub for_instrument : String → PaperReservation → ℕ
for_instrument k r = if of_instrument k r then 1 else 0

-- Each id has at most one row.
abbrev pub Single : List PaperReservation → Type 0
Single rows = (k : String) → rows_under paper_reservation_key k rows ≤ 1

none_weighs :
    (p : PaperReservation → Bool) (rows : List PaperReservation)
    → any p rows ≡ false
    → sum_of (λ r. if p r then 1 else 0) rows ≡ 0
unfolding any sum_of
none_weighs p [] e = refl
none_weighs p (x ∷ rows) e = ground (arith, none_weighs p rows (ground arith))

none_under :
    (k : String) (rows : List PaperReservation)
    → any (λ r. str_eq r.id k) rows ≡ false
    → rows_under paper_reservation_key k rows ≡ 0
unfolding any rows_under count
none_under k [] e = refl
none_under k (x ∷ rows) e = ground (arith, none_under k rows (ground arith))

-- A sum that only active rows enter.
module _ (f : PaperReservation → ℕ)
    (active_only : (r : PaperReservation) → is_active r.state ≡ false → f r ≡ 0) where
  pub expire_reservation-sum :
      (k : String) (rows : List PaperReservation)
      → sum_of f (expire_reservation k rows) ≤ sum_of f rows
  unfolding expire_reservation
  expire_reservation-sum k rows = elim (Option-cases (find_key paper_reservation_key k rows)) [
    | inl missing ↦ ground arith
    | inr (r, found) ↦ elim (Bool-cases (is_active r.state)) [
      | inr off ↦ ground arith
      | inl on ↦ ground (
        arith,
        active_only (expired_row r) refl,
        sum_of-save_found paper_reservation_key f k rows r (expired_row r) found
            (find_key-key paper_reservation_key k rows found),
      )
    ]
  ]

  pub expire_active-sum :
      (i : String) (rows : List PaperReservation) → sum_of f (expire_active i rows) ≤ sum_of f rows
  unfolding expire_active
  expire_active-sum i rows = elim (Option-cases (get_active_reservation i rows)) [
    | inl missing ↦ ground arith
    | inr (r, found) ↦ ground (arith, expire_reservation-sum r.id rows)
  ]

  pub expire_reservations-sum :
      (now : ℕ) (rows : List PaperReservation)
      → sum_of f (expire_reservations now rows) ≤ sum_of f rows
  unfolding expire_reservations sum_of
  expire_reservations-sum now [] = omega arith
  expire_reservations-sum now (r ∷ rows) =
      ground (arith, active_only (expired_row r) refl, expire_reservations-sum now rows)

-- The ids stay single.
expire_reservation-ids :
    (j k : String) (rows : List PaperReservation)
    → rows_under paper_reservation_key j (expire_reservation k rows)
      ≡ rows_under paper_reservation_key j rows
unfolding expire_reservation
expire_reservation-ids j k rows = elim (Option-cases (find_key paper_reservation_key k rows)) [
  | inl missing ↦ ground arith
  | inr (r, found) ↦ elim (Bool-cases (is_active r.state)) [
    | inr off ↦ ground arith
    | inl on ↦ ground (
      arith,
      rows_under-save_row paper_reservation_key j (expired_row r) rows
          (find_key-Occurs paper_reservation_key k rows found) refl,
    )
  ]
]

pub expire_active-ids :
    (j i : String) (rows : List PaperReservation)
    → rows_under paper_reservation_key j (expire_active i rows)
      ≡ rows_under paper_reservation_key j rows
unfolding expire_active
expire_active-ids j i rows = elim (Option-cases (get_active_reservation i rows)) [
  | inl missing ↦ ground arith
  | inr (r, found) ↦ ground (arith, expire_reservation-ids j r.id rows)
]

pub expire_reservations-ids :
    (j : String) (now : ℕ) (rows : List PaperReservation)
    → rows_under paper_reservation_key j (expire_reservations now rows)
      ≡ rows_under paper_reservation_key j rows
unfolding expire_reservations rows_under count
expire_reservations-ids j now [] = refl
expire_reservations-ids j now (r ∷ rows) = ground (arith, expire_reservations-ids j now rows)

found_active :
    (i : String) (rows : List PaperReservation) {r : PaperReservation}
    → get_active_reservation i rows ≡ some r
    → Occurs r rows × (of_trade i r ≡ true)
unfolding get_active_reservation
found_active i [] e = absurd (cc e)
found_active i (x ∷ rows) {r} e = elim (Option-cases (get_active_reservation i rows)) [
  | inr (y, later) ↦
      let is_r : y ≡ r = ground arith in
      let (o, h) = found_active i rows later in
      (inr (subst (λ z. Occurs z rows) is_r o), ground (arith, ap (of_trade i) is_r))
  | inl none_later ↦ elim (Bool-cases (of_trade i x)) [
    | inl hit ↦ let is_r : x ≡ r = ground arith in (inl is_r, ground (arith, ap (of_trade i) is_r))
    | inr miss ↦ absurd (ground arith)
  ]
]

unfound_active :
    (i : String) (rows : List PaperReservation)
    → get_active_reservation i rows ≡ none
    → sum_of (for_trade i) rows ≡ 0
unfolding get_active_reservation sum_of
unfound_active i [] e = refl
unfound_active i (x ∷ rows) e = elim (Option-cases (get_active_reservation i rows)) [
  | inr (y, later) ↦ absurd (ground arith)
  | inl none_later ↦ ground (arith, unfound_active i rows none_later)
]

-- A trade with one active reservation at most has none after its end.
pub expire_active-trade :
    (i : String) (rows : List PaperReservation)
    → Single rows
    → sum_of (for_trade i) rows ≤ 1
    → sum_of (for_trade i) (expire_active i rows) ≡ 0
unfolding expire_active expire_reservation
expire_active-trade i rows single few = elim (Option-cases (get_active_reservation i rows)) [
  | inl missing ↦ ground (arith, unfound_active i rows missing)
  | inr (r, newest) ↦
      let (o, of_it) = found_active i rows newest in
      let found = find_key-only paper_reservation_key r rows o (single r.id) in
      let sums =
        sum_of-save_found paper_reservation_key (for_trade i) r.id rows r (expired_row r) found
          refl in
      ground (arith, of_it, found, sums)
]

-- What an accepted reservation does.
pub reserve_capital_lem :
    (now : ℕ) (fresh_id trade instrument notional : String) (rows : List PaperReservation)
    {rows' : List PaperReservation}
    → reserve_capital now fresh_id trade instrument notional rows ≡ some rows'
    → (rows' ≡ rows ++ paper_reservation now fresh_id trade instrument notional ∷ [])
      × (rows_under paper_reservation_key fresh_id rows ≡ 0)
      × (sum_of (for_instrument instrument) rows ≡ 0)
unfolding reserve_capital
reserve_capital_lem now fresh_id trade instrument notional rows e =
    elim (Bool-cases (any (λ r. str_eq r.id fresh_id) rows)) [
      | inl taken ↦ absurd (ground (arith, taken))
      | inr fresh ↦ elim (Bool-cases (any (of_instrument instrument) rows)) [
        | inl busy ↦ absurd (ground (arith, fresh, busy))
        | inr free ↦ (
          ground (arith, fresh, free),
          none_under fresh_id rows fresh,
          none_weighs (of_instrument instrument) rows free,
        )
      ]
    ]
