-- ===== src/Capital/Uniqueness.antt =====
-- The active reservations of one correlation id, over every history of capital.service.ts.
use arbibot.Base.{
  ℕ, ◌+◌, ◌≤◌, String, ◌≡◌, refl, sym, subst, ap, ◌∙◌, inl, inr, false, List, [], ◌∷◌, any, count,
  count-append, save_row, find_key, str_eq, str_eq_iff, Bool-cases, Option-cases, arith,
}
use arbibot.Capital.Reservations.{
  Request, ReserveCapital, Reservation, Ledger, Attempt, reserved, refused, attempt_reserve,
  new_reservation, get_by_id, release, released_row, holds, reservation_key, expiry_if_needed,
}
use arbibot.Capital.Retry.{release_cases}
use arbibot.Capital.Ceiling.{attempt_reserve-reserved}
use arbibot.Capital.Sweeper.{sweep, sweep_rows, swept}

-- The transactions of the service and of its sweeper; `reserves` with the rows that its query saw.
pub data Action : Type 0 where
  reserves : Request → ReserveCapital → List Reservation → Action
  reads : ℕ → String → Action
  releases : ℕ → String → Action
  sweeps : ℕ → Action

abbrev ledger_of : Ledger → Attempt → Ledger
ledger_of l (reserved r l') = l'
ledger_of l (refused why) = l

unfoldable pub step : Action → Ledger → Ledger
step (reserves req dto seen) l = ledger_of l (attempt_reserve req dto seen l)
step (reads now i) l = (get_by_id now i l).1
step (releases now i) l = (release now i l).1
step (sweeps now) l = sweep now l

unfoldable pub run : List Action → Ledger → Ledger
unfolding step
run [] l = l
run (a ∷ rest) l = run rest (step a l)

-- The number of active reservations of a correlation id.
unfoldable pub active_rows : String → Ledger → ℕ
unfolding count
active_rows c l = count (holds c) l.reservations

none_counted :
    (c : String) (rows : List Reservation) → any (holds c) rows ≡ false → count (holds c) rows ≡ 0
unfolding any count
none_counted c [] e = refl
none_counted c (x ∷ rows) e = ground (arith, none_counted c rows (ground arith))

saved_count :
    (c : String) (r : Reservation) (rows : List Reservation)
    → holds c r ≡ false
    → count (holds c) (save_row reservation_key r rows) ≤ count (holds c) rows
unfolding count save_row
saved_count c r [] idle = ground arith
saved_count c r (x ∷ rows) idle = ground (arith, saved_count c r rows idle)

attempt_rows :
    (c : String) (req : Request) (dto : ReserveCapital) (seen : List Reservation) (l : Ledger)
    → active_rows c l ≤ 1
    → (a : Attempt) → attempt_reserve req dto seen l ≡ a
    → active_rows c (ledger_of l a) ≤ 1
unfolding active_rows new_reservation count
attempt_rows c req dto seen l few (refused why) e = few
attempt_rows c req dto seen l few (reserved r l') e =
    let (k, _, _, free, is_r, rows, _) = attempt_reserve-reserved req dto seen l e in
    let appended = count-append (holds c) l.reservations (r ∷ []) in
    let total : count (holds c) l'.reservations
        ≡ count (holds c) l.reservations + count (holds c) (r ∷ []) =
      ap (count (holds c)) rows ∙ appended in
    elim (Bool-cases (str_eq dto.correlation_id c)) [
      | inl same ↦
          let is_c : dto.correlation_id ≡ c = (str_eq_iff dto.correlation_id c).0 same in
          let zero_before =
            none_counted c l.reservations
              (subst (λ j. any (holds j) l.reservations ≡ false) is_c free) in
          ground (arith, total, zero_before)
      | inr other ↦ ground (arith, total, is_r)
    ]

reserve-rows :
    (c : String) (req : Request) (dto : ReserveCapital) (seen : List Reservation) (l : Ledger)
    → active_rows c l ≤ 1
    → active_rows c (ledger_of l (attempt_reserve req dto seen l)) ≤ 1
unfolding active_rows
reserve-rows c req dto seen l few =
    attempt_rows c req dto seen l few (attempt_reserve req dto seen l) refl

get_by_id-rows :
    (c : String) (now : ℕ) (i : String) (l : Ledger)
    → active_rows c (get_by_id now i l).1 ≤ active_rows c l
unfolding active_rows get_by_id expiry_if_needed
get_by_id-rows c now i l = elim (Option-cases (find_key reservation_key i l.reservations)) [
  | inl missing ↦ ground arith
  | inr (row, found) ↦ elim (Option-cases (expiry_if_needed now row)) [
    | inl kept ↦ ground arith
    | inr (row', changed) ↦
        let idle : holds c row' ≡ false = ground arith in
        let less = saved_count c row' l.reservations idle in ground (arith, less)
  ]
]

release-rows :
    (c : String) (now : ℕ) (i : String) (l : Ledger)
    → active_rows c (release now i l).1 ≤ active_rows c l
unfolding active_rows release expiry_if_needed
release-rows c now i l = elim (release_cases now i l) [
  | inl (row, found, state, in_time, _, _) ↦
      let rows : (release now i l).1.reservations
          ≡ save_row reservation_key (released_row row) l.reservations =
        ground arith in
      let idle : holds c (released_row row) ≡ false = ground arith in
      subst (λ rs. count (holds c) rs ≤ count (holds c) l.reservations) (sym rows)
        (saved_count c (released_row row) l.reservations idle)
  | inr (inl (row, found, _, e)) ↦ ground arith
  | inr (inr (inl (missing, e))) ↦ ground arith
  | inr (inr (inr (row, found, over, e))) ↦ ground arith
]

swept_count :
    (c : String) (now : ℕ) (rows : List Reservation)
    → count (holds c) (sweep_rows now rows) ≤ count (holds c) rows
unfolding count sweep_rows swept
swept_count c now [] = ground arith
swept_count c now (x ∷ rows) = ground (arith, swept_count c now rows)

sweep-rows : (c : String) (now : ℕ) (l : Ledger) → active_rows c (sweep now l) ≤ active_rows c l
unfolding active_rows sweep
sweep-rows c now l = swept_count c now l.reservations

-- Whatever requests and sweeps do in whatever order, and whatever rows the sums of `reserve` saw, a correlation id
-- that has at most one active reservation at the start never has two.
pub one_active :
    (c : String) (history : List Action) (l : Ledger)
    → active_rows c l ≤ 1
    → active_rows c (run history l) ≤ 1
unfolding run step
one_active c [] l few = few
one_active c (reserves req dto seen ∷ rest) l few =
    one_active c rest (step (reserves req dto seen) l) (reserve-rows c req dto seen l few)
one_active c (reads now i ∷ rest) l few =
    one_active c rest (step (reads now i) l) (omega (arith, get_by_id-rows c now i l))
one_active c (releases now i ∷ rest) l few =
    one_active c rest (step (releases now i) l) (omega (arith, release-rows c now i l))
one_active c (sweeps now ∷ rest) l few =
    one_active c rest (step (sweeps now) l) (omega (arith, sweep-rows c now l))
