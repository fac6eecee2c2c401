-- ===== src/Examples/CeilingRuns.antt =====
-- Runs of the ceiling and of the sweeper of capital-service.
use arbibot.Base.{
  ℕ, ◌+◌, ◌*◌, ◌≡◌, refl, ◌⊎◌, true, false, none, some, String, Option, [], arith, str_eq,
  if◌then◌else◌,
}
use arbibot.Json.{Json, num, str, obj, end, field, as_string, prop, as_number}
use arbibot.Store.Outcome.{ok, err, service_unavailable}
use arbibot.Capital.Reservations.{
  Request, ReserveCapital, Reservation, Ledger, active_total, attempt_reserve, reserved,
  new_reservation, insert_reservation, get_by_id, release,
}
use arbibot.Capital.Limits.{
  Texts, Environment, CachedCeiling, Moment, answered, unanswered, get_max_active_capital_usd,
  parse_env_ceiling,
}
use arbibot.Capital.Gate.{Below, reserved_within_limits}
use arbibot.Capital.Sweeper.{Worker, run_sweep, sweep, sweep_unseen}

abbrev usd : ℕ → ℕ
usd n = n * 100000000

abbrev number_of : String → Option ℕ
number_of s = if str_eq s "80" then some (usd 80) else none

-- The two texts of the configuration that occur below.
abbrev json_of : String → Option Json
json_of s =
    if str_eq s "body"
    then some (obj (field "configValue" (str "limits") end))
    else if str_eq s "limits"
    then some (obj (field "maxActiveCapitalUsd" (num (usd 100)) end))
    else none

abbrev texts : Texts
texts = record { blank = λ s. str_eq s ""; number = number_of; json = json_of }

abbrev environment : Environment
environment = record { production = true; capital_max_active_usd = some "80" }

abbrev without_env : Environment
without_env = record { production = true; capital_max_active_usd = none }

abbrev fetched : Moment
fetched = record { now = 5000; stored_at = 5020; response = answered true 200 "body" }

abbrev outage : Moment
outage = record { now = 20000; stored_at = 20020; response = unanswered }

abbrev cached : Option CachedCeiling
cached = some (record { value = usd 100; fetched_at_ms = 5020 })

lower_cap_wins : get_max_active_capital_usd texts environment fetched none ≡ (ok (usd 80), cached)
unfolding get_max_active_capital_usd str_eq as_string prop as_number
lower_cap_wins = refl

-- The last ceiling outlives its ten seconds where config-service does not answer.
stale_cache_stays :
    get_max_active_capital_usd texts without_env outage cached ≡ (ok (usd 100), cached)
unfolding get_max_active_capital_usd str_eq as_string prop as_number
stale_cache_stays = refl

fails_closed :
    get_max_active_capital_usd texts without_env outage none ≡ (err service_unavailable, none)
unfolding get_max_active_capital_usd str_eq as_string prop as_number
fails_closed = refl

abbrev request : Request
request = record {
  now = 1000;
  fresh_id = "r1";
  uuid = "m1";
  ceiling = ok (usd 80);
  open_positions_usd = usd 15;
}

abbrev dto : ReserveCapital
dto = record { correlation_id = "c1"; plan_id = none; amount_usd = usd 60; ttl_seconds = some 60 }

abbrev empty : Ledger
empty = record { reservations = []; events = []; audited = [] }

abbrev row : Reservation
row = new_reservation request dto

abbrev booked : Ledger
booked = insert_reservation request row empty

accepted : attempt_reserve request dto [] empty ≡ reserved row booked
unfolding attempt_reserve
accepted = refl

limits_asked : request.ceiling ≡ (get_max_active_capital_usd texts environment fetched none).0
unfolding get_max_active_capital_usd str_eq as_string prop as_number
limits_asked = refl

reserved_within_limits_example :
    Below
      (active_total booked.reservations + usd 15)
      (parse_env_ceiling texts environment)
      (get_max_active_capital_usd texts environment fetched none).1
    × ((true ≡ false)
        ⊎ ((e : ℕ) × (parse_env_ceiling texts environment ≡ some e))
        ⊎ ((k : CachedCeiling) × ((get_max_active_capital_usd texts environment fetched none).1
              ≡ some k)))
reserved_within_limits_example =
    reserved_within_limits texts environment fetched none request dto empty limits_asked accepted

abbrev worker : Worker
worker = record { is_running = false; is_shutting_down = false }

abbrev identity : ℕ → ℕ
identity n = n

-- One row is over at 61001, and a second reservation of 20 still holds.
abbrev later_request : Request
later_request = record {
  now = 50000;
  fresh_id = "r2";
  uuid = "m2";
  ceiling = ok (usd 80);
  open_positions_usd = 0;
}

abbrev smaller : ReserveCapital
smaller = record { correlation_id = "c2"; plan_id = none; amount_usd = usd 20; ttl_seconds = none }

abbrev two : Ledger
two = insert_reservation later_request (new_reservation later_request smaller) booked

expires_one :
    ((run_sweep 61001 identity true worker two).0 ≡ 1)
    × (active_total (run_sweep 61001 identity true worker two).1.reservations ≡ usd 20)
unfolding run_sweep insert_reservation new_reservation active_total
expires_one = (refl, refl)

sweep_unseen_example :
    ((get_by_id 70000 "r1" (sweep 61001 two)).0 ≡ (get_by_id 70000 "r1" two).0)
    × ((release 70000 "r1" (sweep 61001 two)).0 ≡ (release 70000 "r1" two).0)
sweep_unseen_example = sweep_unseen 61001 70000 "r1" two (omega arith)
