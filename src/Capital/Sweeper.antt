-- ===== src/Capital/Sweeper.antt =====
-- capital-reservation-sweeper.worker.ts: reservations whose time is over are expired in one statement.
use arbibot.Base.{
  ℕ, ◌+◌, ◌≤◌, ◌≡◌, refl, ◌⊎◌, inl, inr, ap, Bool, true, false, ◌&&◌, String, none, some, List, [],
  ◌∷◌, All, length, sum_of, find_key, str_eq, ltb, Bool-cases, Option-cases, arith, if◌then◌else◌,
}
use arbibot.Capital.Reservations.{
  Reservation, Ledger, expired, is_active, active_total, reservation_key, expiry_if_needed,
  get_by_id, release,
}

-- The flags of the worker.
pub record Worker : Type 0 where
  pub is_running : Bool
  pub is_shutting_down : Bool

-- `WHERE state = 'active' AND expires_at < NOW()`.
abbrev pub is_stale : ℕ → Reservation → Bool
is_stale now row = is_active row.state && ltb row.expires_at now

-- What the statement makes of a row.
unfoldable pub swept : ℕ → Reservation → Reservation
swept now row =
    if is_stale now row
    then (record row { state = expired; entity_version = row.entity_version + 1 })
    else row

-- The table after the statement.
unfoldable pub sweep_rows : ℕ → List Reservation → List Reservation
unfolding swept
sweep_rows now [] = []
sweep_rows now (row ∷ rows) = swept now row ∷ sweep_rows now rows

-- `RETURNING id`.
unfoldable pub returned_ids : ℕ → List Reservation → List String
returned_ids now [] = []
returned_ids now (row ∷ rows) =
    let rest = returned_ids now rows in if is_stale now row then row.id ∷ rest else rest

unfoldable pub sweep : ℕ → Ledger → Ledger
unfolding sweep_rows
sweep now l = record l { reservations = sweep_rows now l.reservations }

-- `runSweep` at the time that the database takes for NOW(). `answer_length` is the length of what the
-- driver answers where so many ids are returned; `committed` is false where the transaction throws.
unfoldable pub run_sweep : ℕ → (ℕ → ℕ) → Bool → Worker → Ledger → ℕ × Ledger
unfolding sweep returned_ids
run_sweep now answer_length committed w l =
    if w.is_running
    then (0, l)
    else if w.is_shutting_down
    then (0, l)
    else if committed
    then (answer_length (length (returned_ids now l.reservations)), sweep now l)
    else (0, l)

-- What a stale row holds of the ceiling.
abbrev pub stale_held : ℕ → Reservation → ℕ
stale_held now row = if is_stale now row then row.amount_usd else 0

-- Not an active row whose time is over.
abbrev pub InTime : ℕ → Reservation → Type 0
InTime now row = (is_active row.state ≡ false) ⊎ (now ≤ row.expires_at)

swept-InTime : (now : ℕ) (row : Reservation) → InTime now (swept now row)
unfolding swept
swept-InTime now row = elim (Bool-cases (is_active row.state)) [
  | inr off ↦ inl (ground arith)
  | inl on ↦ elim (Bool-cases (ltb row.expires_at now)) [
    | inl late ↦ inl (ground arith)
    | inr in_time ↦ inr (ground arith)
  ]
]

sweep_rows-InTime : (now : ℕ) (rows : List Reservation) → All (InTime now) (sweep_rows now rows)
unfolding sweep_rows
sweep_rows-InTime now [] = tt
sweep_rows-InTime now (row ∷ rows) = (swept-InTime now row, sweep_rows-InTime now rows)

sweep_rows-total :
    (now : ℕ) (rows : List Reservation)
    → active_total (sweep_rows now rows) + sum_of (stale_held now) rows ≡ active_total rows
unfolding sweep_rows active_total sum_of swept
sweep_rows-total now [] = refl
sweep_rows-total now (row ∷ rows) = ground (arith, sweep_rows-total now rows)

swept_again : (now : ℕ) (row : Reservation) → swept now (swept now row) ≡ swept now row
unfolding swept
swept_again now row = elim (Bool-cases (is_stale now row)) [
  | inl stale ↦ ground arith
  | inr fresh ↦ ground arith
]

sweep_rows_again :
    (now : ℕ) (rows : List Reservation) → sweep_rows now (sweep_rows now rows) ≡ sweep_rows now rows
unfolding sweep_rows
sweep_rows_again now [] = refl
sweep_rows_again now (row ∷ rows) = cc (swept_again now row, sweep_rows_again now rows)

-- A sweep that runs and commits leaves no active reservation whose time is over. The active total
-- drops by just the amounts of the rows that were, and a second sweep at the same time changes nothing.
pub run_sweep_sound :
    (now : ℕ) (answer_length : ℕ → ℕ) (w : Worker) (l : Ledger)
    → w.is_running ≡ false
    → w.is_shutting_down ≡ false
    → let after = (run_sweep now answer_length true w l).1 in
      All (InTime now) after.reservations
      × (active_total after.reservations + sum_of (stale_held now) l.reservations
          ≡ active_total l.reservations)
      × ((run_sweep now answer_length true w after).1 ≡ after)
unfolding run_sweep sweep
run_sweep_sound now answer_length w l idle on =
    rw (idle, on)
      (
        sweep_rows-InTime now l.reservations,
        sweep_rows-total now l.reservations,
        ap (λ rows. record l { reservations = rows }) (sweep_rows_again now l.reservations),
      )

find_key-none :
    (now : ℕ) (i : String) (rows : List Reservation)
    → find_key reservation_key i rows ≡ none
    → find_key reservation_key i (sweep_rows now rows) ≡ none
unfolding find_key sweep_rows swept
find_key-none now i [] e = refl
find_key-none now i (row ∷ rows) e = elim (Bool-cases (str_eq row.id i)) [
  | inl hit ↦ absurd (ground arith)
  | inr miss ↦ ground (arith, find_key-none now i rows (ground arith))
]

find_key-some :
    (now : ℕ) (i : String) (rows : List Reservation) {r : Reservation}
    → find_key reservation_key i rows ≡ some r
    → find_key reservation_key i (sweep_rows now rows) ≡ some (swept now r)
unfolding find_key sweep_rows swept
find_key-some now i [] e = absurd (cc e)
find_key-some now i (row ∷ rows) {r} e = elim (Bool-cases (str_eq row.id i)) [
  | inl hit ↦ ground arith
  | inr miss ↦ ground (arith, find_key-some now i rows {r = r} (ground arith))
]

read_unseen :
    (t now : ℕ) (i : String) (l : Ledger)
    → t ≤ now
    → (get_by_id now i (sweep t l)).0 ≡ (get_by_id now i l).0
unfolding get_by_id sweep expiry_if_needed swept
read_unseen t now i l later = elim (Option-cases (find_key reservation_key i l.reservations)) [
  | inl missing ↦ ground (arith, find_key-none t i l.reservations missing)
  | inr (row, found) ↦ ground (arith, find_key-some t i l.reservations found)
]

release_unseen :
    (t now : ℕ) (i : String) (l : Ledger)
    → t ≤ now
    → (release now i (sweep t l)).0 ≡ (release now i l).0
unfolding release sweep expiry_if_needed swept
release_unseen t now i l later = elim (Option-cases (find_key reservation_key i l.reservations)) [
  | inl missing ↦ ground (arith, find_key-none t i l.reservations missing)
  | inr (row, found) ↦ ground (arith, find_key-some t i l.reservations found)
]

-- A sweep cannot be told from the lazy expiry: at any later time, a read and a release of any
-- reservation answer the same with a sweep before them and without.
pub sweep_unseen :
    (t now : ℕ) (i : String) (l : Ledger)
    → t ≤ now
    → ((get_by_id now i (sweep t l)).0 ≡ (get_by_id now i l).0)
      × ((release now i (sweep t l)).0 ≡ (release now i l).0)
sweep_unseen t now i l later = (read_unseen t now i l later, release_unseen t now i l later)
