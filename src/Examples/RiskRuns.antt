-- ===== src/Examples/RiskRuns.antt =====
-- Runs of risk-service.
use arbibot.Base.{
  str_eq, if◌then◌else◌, String, ℕ, ◌+◌, ◌*◌, ◌≤◌, ◌≡◌, refl, true, false, none, some, List, [],
  ◌∷◌, ◌++◌, ◌⊎◌,
}
use arbibot.Store.Outcome.{Result, ok, err, conflict}
use arbibot.Risk.Policy.{standard, approved, threshold, is_conservative, hour_utc}
use arbibot.Risk.Evaluate.{
  RiskCall, EvaluateRisk, ReserveRiskWindow, RiskDb, Evaluated, evaluate_risk, RiskDecisionIssued,
  mode_of, profile_of,
}
use arbibot.Risk.Limits.{WithinProfile, percent_of, approved_within_limits}
use arbibot.Risk.Windows.{RiskAction, evaluates, reserves, run, uses, left, windows_conserved}

abbrev units : ℕ
units = 100000000

-- The uuids that occur below, in lower case.
abbrev lower : String → String
lower s = if str_eq s "W1" then "w1" else s

abbrev reserve_call : RiskCall
reserve_call = record { now = 1000; id = "w1"; message_id = ""; uuid = lower }

abbrev window : ReserveRiskWindow
window = record {
  window_key = "k";
  correlation_id = "c1";
  plan_reference = "o1";
  notional_usd = 400 * units;
  ttl_seconds = none;
}

abbrev start : RiskDb
start = record {
  windows = [];
  decisions = [];
  issued = [];
  token_profiles = record { key = "WETH"; max_notional_usd = 500 * units } ∷ [];
  route_profiles = [];
  audited = [];
}

abbrev with_window : RiskDb
with_window = run (reserves reserve_call window ∷ []) start

abbrev call : RiskCall
call = record { now = 2000; id = "d1"; message_id = "m1"; uuid = lower }

abbrev later : RiskCall
later = record { now = 90000000; id = "d2"; message_id = "m2"; uuid = lower }

abbrev request : EvaluateRisk
request = record {
  idempotency_key = some "i1";
  correlation_id = "c1";
  plan_reference = "o1";
  notional_usd = 400 * units;
  snapshot_version = 1;
  risk_mode = none;
  risk_window_reservation_id = some "w1";
  instrument_key = some " WETH";
  route_key = none;
  adaptive_risk = true;
}

abbrev result_of : Result Evaluated → Evaluated
result_of (ok e) = e
result_of (err x) = record {
  row = record {
    id = "";
    correlation_id = "";
    plan_reference = "";
    outcome = approved;
    reasons = [];
    snapshot_version = 0;
    risk_mode = standard;
    notional_usd = 0;
    idempotency_key = none;
    risk_window_reservation_id = none;
    instrument_key = none;
    route_key = none;
  };
  replay = false;
  db = start;
}

abbrev result : Evaluated
result = result_of (evaluate_risk call request with_window)

decided : evaluate_risk call request with_window ≡ ok result
unfolding evaluate_risk run
decided = refl

is_new : result.replay ≡ false
unfolding evaluate_risk run
is_new = refl

is_approved : result.row.outcome ≡ approved
unfolding evaluate_risk run
is_approved = refl

approved_within_limits_example :
    (result.row.notional_usd ≡ request.notional_usd)
    × (result.row.risk_mode ≡ mode_of request)
    × (request.notional_usd ≤ threshold (mode_of request))
    × WithinProfile request.notional_usd
        (percent_of call request)
        (profile_of request.instrument_key with_window.token_profiles)
    × WithinProfile request.notional_usd
        (percent_of call request)
        (profile_of request.route_key with_window.route_profiles)
    × ((is_conservative (mode_of request) ≡ false)
        ⊎ ((8 ≤ hour_utc call.now) × (hour_utc call.now ≤ 20)))
    × (result.db.decisions ≡ with_window.decisions ++ result.row ∷ [])
    × ((event : RiskDecisionIssued) × (result.db.issued ≡ with_window.issued ++ event ∷ [])
        × (event.decision_id ≡ result.row.id)
        × (event.outcome ≡ approved)
        × (event.notional_usd ≡ request.notional_usd)
        × (event.risk_mode ≡ mode_of request))
approved_within_limits_example =
    approved_within_limits call request with_window decided is_new is_approved

-- The same request with the id in upper case succeeds, but its repetition is taken for another request.
abbrev upper_request : EvaluateRisk
upper_request = record request { risk_window_reservation_id = some "W1" }

upper_case_conflicts :
    ((result_of (evaluate_risk call upper_request with_window)).row.risk_window_reservation_id
      ≡ some "w1")
    × (evaluate_risk later upper_request
          (result_of (evaluate_risk call upper_request with_window)).db
        ≡ err conflict)
unfolding evaluate_risk run str_eq
upper_case_conflicts = (refl, refl)

-- The second evaluation has another key and names the same reservation: it is refused.
abbrev second_request : EvaluateRisk
second_request = record request { idempotency_key = some "i2" }

abbrev calls : List RiskAction
calls = evaluates call request ∷ evaluates later second_request ∷ evaluates later request ∷ []

windows_conserved_example :
    uses "w1" (run calls with_window) + left "w1" (run calls with_window)
    ≡ uses "w1" with_window + left "w1" with_window
windows_conserved_example = windows_conserved "w1" calls with_window (tt, (tt, (tt, tt)))

one_use : (uses "w1" (run calls with_window) ≡ 1) × (left "w1" (run calls with_window) ≡ 0)
unfolding uses left run evaluate_risk
one_use = (refl, refl)
