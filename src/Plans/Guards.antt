-- ===== src/Plans/Guards.antt =====
-- The checks of plans.service.ts against risk-service and capital-service.
use arbibot.Base.{ℕ, String, Bool, true, false, Option, none, some, str_eq, ltb}
use arbibot.Store.Types.{Plan}
use arbibot.Store.Outcome.{not_found, conflict, Result, err, ◌>>=◌, ◌>>◌, demand, assert}

pub data RiskOutcome : Type 0 where
  approved risk_rejected : RiskOutcome

pub record RiskDecision : Type 0 where
  pub id : String
  pub correlation_id : String
  pub outcome : RiskOutcome

pub data ReservationState : Type 0 where
  active released expired : ReservationState

-- `CapitalReservationSnapshot`. `expires_at` is `Date.parse(res.expiresAtIso)`, `none` for NaN.
pub record ReservationSnapshot : Type 0 where
  pub id : String
  pub state : ReservationState
  pub plan_id : Option String
  pub correlation_id : Option String
  pub expires_at : Option ℕ

-- What RiskHttpClient and CapitalHttpClient answer during one request, and `Date.now()` at the
-- check of the reservation. The reservation is read twice, and the two answers may differ.
pub record Remote : Type 0 where
  pub get_risk_decision : String → Result RiskDecision
  pub first_reservation : String → Result ReservationSnapshot
  pub second_reservation : String → Result ReservationSnapshot
  pub now : ℕ

abbrev pub is_approved : RiskOutcome → Bool
is_approved approved = true
is_approved risk_rejected = false

abbrev pub is_active : ReservationState → Bool
is_active active = true
is_active _ = false

-- A plan without a correlation id matches any.
unfoldable pub correlation_matches : Option String → Option String → Bool
unfolding str_eq
correlation_matches none c = true
correlation_matches (some p) none = false
correlation_matches (some p) (some c) = str_eq c p

abbrev pub missing_is_conflict {ℓ} : {A : Type ℓ} → Result A → Result A
missing_is_conflict (err not_found) = err conflict
missing_is_conflict r = r

unfoldable pub assert_approved_risk : Remote → Plan → Result (Unit {0})
assert_approved_risk remote plan = do
  decision ← demand plan.risk_decision_id conflict
  risk ← (missing_is_conflict (remote.get_risk_decision decision))
  assert (is_approved risk.outcome) conflict
  assert (correlation_matches plan.correlation_id (some risk.correlation_id)) conflict

-- `ifMissing` of the source.
pub data IfMissing : Type 0 where
  keep_not_found as_conflict : IfMissing

abbrev pub read_failure {ℓ} : {A : Type ℓ} → IfMissing → Result A → Result A
read_failure keep_not_found r = r
read_failure as_conflict r = missing_is_conflict r

unfoldable pub load_reservation_twice : Remote → String → IfMissing → Result ReservationSnapshot
load_reservation_twice remote reservation if_missing = do
  (read_failure if_missing (remote.first_reservation reservation))
  (read_failure if_missing (remote.second_reservation reservation))

-- The time test of `assertReservationActive`: a finite expiry, later than now.
unfoldable pub expires_later : ℕ → Option ℕ → Bool
expires_later now none = false
expires_later now (some t) = ltb now t

unfoldable pub assert_reservation_active : ℕ → ReservationSnapshot → Result (Unit {0})
assert_reservation_active now res = do
  assert (is_active res.state) conflict
  assert (expires_later now res.expires_at) conflict

unfoldable pub assert_reservation_matches : Plan → ReservationSnapshot → Result (Unit {0})
assert_reservation_matches plan res = do
  owner ← demand res.plan_id conflict
  assert (str_eq owner plan.id) conflict
  assert (correlation_matches plan.correlation_id res.correlation_id) conflict
