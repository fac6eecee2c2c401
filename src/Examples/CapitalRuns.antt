-- ===== src/Examples/CapitalRuns.antt =====
-- Runs of capital.service.ts.
use arbibot.Base.{
  ℕ, ◌+◌, ◌≤◌, ◌<◌, ◌≡◌, refl, ◌⊎◌, none, some, List, [], ◌∷◌, ◌++◌, arith, find_key,
}
use arbibot.Store.Outcome.{ok, err, not_found, conflict}
use arbibot.Capital.Reservations.{
  Request, ReserveCapital, Reservation, Ledger, Attempt, attempt_reserve, reserved, refused,
  active_total, reserved_event, reserve, rejected, ceiling_exceeded, release, released_row,
  reservation_key, active, released, expired,
}
use arbibot.Capital.Ceiling.{attempt_reserve_within_ceiling}
use arbibot.Capital.Retry.{release_cases, release_again}
use arbibot.Capital.Uniqueness.{
  Action, reserves, reads, releases, sweeps, run, active_rows, one_active,
}

abbrev empty : Ledger
empty = record { reservations = []; events = []; audited = [] }

abbrev request : Request
request = record {
  now = 1000;
  fresh_id = "r1";
  uuid = "m1";
  ceiling = ok 100;
  open_positions_usd = 30;
}

abbrev second_request : Request
second_request = record {
  now = 1010;
  fresh_id = "r2";
  uuid = "m2";
  ceiling = ok 100;
  open_positions_usd = 30;
}

abbrev dto : ReserveCapital
dto = record { correlation_id = "c1"; plan_id = some "p1"; amount_usd = 60; ttl_seconds = none }

abbrev ledger_after : Attempt → Ledger
ledger_after (reserved r l) = l
ledger_after (refused why) = empty

abbrev row : Reservation
row = record {
  id = "r1";
  plan_id = some "p1";
  correlation_id = "c1";
  amount_usd = 60;
  state = active;
  expires_at = 301000;
  entity_version = 1;
}

abbrev first : Ledger
first = ledger_after (attempt_reserve request dto [] empty)

accepted : attempt_reserve request dto [] empty ≡ reserved row first
unfolding attempt_reserve
accepted = refl

attempt_reserve_within_ceiling_example :
    (c : ℕ) × (request.ceiling ≡ ok c)
    × (active_total first.reservations ≡ active_total empty.reservations + dto.amount_usd)
    × (active_total first.reservations + request.open_positions_usd ≤ c)
    × (row.state ≡ active)
    × (row.correlation_id ≡ dto.correlation_id)
    × (row.plan_id ≡ dto.plan_id)
    × (row.amount_usd ≡ dto.amount_usd)
    × (first.reservations ≡ empty.reservations ++ row ∷ [])
    × (first.events ≡ empty.events ++ reserved_event request row ∷ [])
attempt_reserve_within_ceiling_example = attempt_reserve_within_ceiling request dto empty accepted

retry_is_refused :
    reserve second_request (λ x. x) dto first.reservations first ≡ rejected ceiling_exceeded first
unfolding reserve
retry_is_refused = refl

-- Two requests whose sums both saw the empty table pass a ceiling that holds only one of them.
abbrev other : ReserveCapital
other = record { correlation_id = "c2"; plan_id = none; amount_usd = 60; ttl_seconds = none }

overcommitted :
    active_total (ledger_after (attempt_reserve second_request other [] first)).reservations ≡ 120
unfolding active_total attempt_reserve
overcommitted = refl

release_cases_example :
    ((r : Reservation) × (find_key reservation_key "r1" first.reservations ≡ some r)
      × (r.state ≡ active)
      × (2000 < r.expires_at)
      × ((release 2000 "r1" first).0 ≡ ok (released_row r))
      × (find_key reservation_key "r1" (release 2000 "r1" first).1.reservations
          ≡ some (released_row r)))
    ⊎ ((r : Reservation) × (find_key reservation_key "r1" first.reservations ≡ some r)
        × (r.state ≡ released)
        × (release 2000 "r1" first ≡ (ok r, first)))
    ⊎ ((find_key reservation_key "r1" first.reservations ≡ none)
        × (release 2000 "r1" first ≡ (err not_found, first)))
    ⊎ ((r : Reservation) × (find_key reservation_key "r1" first.reservations ≡ some r)
        × ((r.state ≡ expired) ⊎ ((r.state ≡ active) × (r.expires_at ≤ 2000)))
        × (release 2000 "r1" first ≡ (err conflict, first)))
release_cases_example = release_cases 2000 "r1" first

abbrev after_release : Ledger
after_release = (release 2000 "r1" first).1

released_once : release 2000 "r1" first ≡ (ok (released_row row), after_release)
unfolding release find_key attempt_reserve
released_once = refl

release_again_example : release 9000000 "r1" after_release ≡ (ok (released_row row), after_release)
release_again_example = release_again 2000 9000000 "r1" first released_once

none_active : active_rows "c1" empty ≤ 1
unfolding active_rows
none_active = omega arith

abbrev requests : List Action
requests =
    reserves request dto []
    ∷ reserves second_request dto []
    ∷ reads 400000 "r1"
    ∷ releases 400001 "r1"
    ∷ sweeps 500000
    ∷ []

one_active_example : active_rows "c1" (run requests empty) ≤ 1
one_active_example = one_active "c1" requests empty none_active
