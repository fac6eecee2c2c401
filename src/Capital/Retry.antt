-- ===== src/Capital/Retry.antt =====
-- Repeated calls of capital.service.ts.
use arbibot.Base.{
  ◌<◌, ◌≤◌, save_row, ℕ, String, ◌≡◌, refl, sym, ap, ◌∙◌, inl, inr, ◌⊎◌, none, some, find_key,
  find_key-save_row, find_key-key, str_eq_iff, Bool-cases, Option-cases, arith, ltb,
}
use arbibot.Store.Outcome.{ok-injective, ok, err, not_found, conflict}
use arbibot.Capital.Reservations.{
  ReservationState, expired, Reservation, Ledger, release, released_row, reservation_key,
  expiry_if_needed, active, released,
}

released_is_found :
    (i : String) (l : Ledger) (row : Reservation)
    → find_key reservation_key i l.reservations ≡ some row
    → find_key reservation_key i (save_row reservation_key (released_row row) l.reservations)
      ≡ some (released_row row)
released_is_found i l row found =
    let key = find_key-key reservation_key i l.reservations found in
    rw
      (
        find_key-save_row reservation_key i (released_row row) l.reservations,
        (str_eq_iff row.id i).1 key,
      )
      refl

release_of :
    (now : ℕ) (i : String) (l : Ledger) (row : Reservation) (s : ReservationState)
    → find_key reservation_key i l.reservations ≡ some row
    → row.state ≡ s
    → ((row : Reservation) × (find_key reservation_key i l.reservations ≡ some row)
        × (row.state ≡ active)
        × (now < row.expires_at)
        × ((release now i l).0 ≡ ok (released_row row))
        × (find_key reservation_key i (release now i l).1.reservations ≡ some (released_row row)))
      ⊎ ((row : Reservation) × (find_key reservation_key i l.reservations ≡ some row)
          × (row.state ≡ released)
          × (release now i l ≡ (ok row, l)))
      ⊎ ((find_key reservation_key i l.reservations ≡ none)
          × (release now i l ≡ (err not_found, l)))
      ⊎ ((row : Reservation) × (find_key reservation_key i l.reservations ≡ some row)
          × ((row.state ≡ expired) ⊎ ((row.state ≡ active) × (row.expires_at ≤ now)))
          × (release now i l ≡ (err conflict, l)))
unfolding release expiry_if_needed
release_of now i l row expired found state = inr (inr (inr (row, found, inl state, ground arith)))
release_of now i l row released found state = inr (inl (row, found, state, ground arith))
release_of now i l row active found state = elim (Bool-cases (ltb now row.expires_at)) [
  | inl in_time ↦ inl (
    row,
    found,
    state,
    ground arith,
    ground arith,
    ap (find_key reservation_key i) (
          let saved : (release now i l).1.reservations
              ≡ save_row reservation_key (released_row row) l.reservations =
            ground arith in
          saved)
        ∙ released_is_found i l row found,
  )
  | inr late ↦ inr (inr (inr (row, found, inr (state, ground (arith, late)), ground (arith, late))))
]

-- Every branch of `release`: only an active reservation whose time is not over changes, and it is
-- stored as `released` with the next version; a released one is answered as it is; a missing one is not
-- found; and an expired one, or an active one whose time is over, is a conflict. In the last three cases
-- the ledger stays as it is.
pub release_cases :
    (now : ℕ) (i : String) (l : Ledger)
    → ((row : Reservation) × (find_key reservation_key i l.reservations ≡ some row)
        × (row.state ≡ active)
        × (now < row.expires_at)
        × ((release now i l).0 ≡ ok (released_row row))
        × (find_key reservation_key i (release now i l).1.reservations ≡ some (released_row row)))
      ⊎ ((row : Reservation) × (find_key reservation_key i l.reservations ≡ some row)
          × (row.state ≡ released)
          × (release now i l ≡ (ok row, l)))
      ⊎ ((find_key reservation_key i l.reservations ≡ none)
          × (release now i l ≡ (err not_found, l)))
      ⊎ ((row : Reservation) × (find_key reservation_key i l.reservations ≡ some row)
          × ((row.state ≡ expired) ⊎ ((row.state ≡ active) × (row.expires_at ≤ now)))
          × (release now i l ≡ (err conflict, l)))
unfolding release expiry_if_needed
release_cases now i l = elim (Option-cases (find_key reservation_key i l.reservations)) [
  | inl missing ↦ inr (inr (inl (missing, ground arith)))
  | inr (row, found) ↦ release_of now i l row row.state found refl
]

still_released :
    (now : ℕ) (i : String) (l : Ledger) (row : Reservation)
    → find_key reservation_key i l.reservations ≡ some row
    → row.state ≡ released
    → release now i l ≡ (ok row, l)
unfolding release
still_released now i l row found state = ground arith

-- A release that succeeded can be repeated at any time: it answers with the same row and changes
-- nothing, and no second audit call is made.
pub release_again :
    (now later : ℕ) (i : String) (l : Ledger) {row : Reservation} {l' : Ledger}
    → release now i l ≡ (ok row, l')
    → release later i l' ≡ (ok row, l')
release_again now later i l {row} {l'} e = elim (release_cases now i l) [
  | inl (old, found, _, _, answered, found') ↦
      let same : row ≡ released_row old = ok-injective (sym (ap (λ p. p.0) e) ∙ answered) in
      let now_there : find_key reservation_key i l'.reservations ≡ some (released_row old) =
        ap (λ p. find_key reservation_key i p.1.reservations) (sym e) ∙ found' in
      still_released later i l' row (now_there ∙ ap some (sym same)) (ap (λ r. r.state) same)
  | inr (inl (old, found, state, answered)) ↦
      let same : row ≡ old = ok-injective (sym (ap (λ p. p.0) e) ∙ ap (λ p. p.0) answered) in
      let ledger : l' ≡ l = sym (ap (λ p. p.1) e) ∙ ap (λ p. p.1) answered in
      still_released later i l' row
        (ap (λ u. find_key reservation_key i u.reservations) ledger ∙ found ∙ ap some (sym same))
        (ap (λ r. r.state) same ∙ state)
  | inr (inr (inl (_, failed))) ↦ absurd (ground arith)
  | inr (inr (inr (_, _, _, failed))) ↦ absurd (ground arith)
]
