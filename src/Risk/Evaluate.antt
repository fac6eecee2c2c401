-- ===== src/Risk/Evaluate.antt =====
-- apps/risk-service/src/risk/risk.service.ts: reserveRiskWindow and evaluateRisk. Each is one
-- transaction: an exception leaves the tables as they were.
use arbibot.Base.{
  ℕ, ◌+◌, ◌*◌, String, Bool, true, false, not, ◌&&◌, ◌||◌, Option, none, some, List, [], ◌∷◌, ◌++◌,
  any, find_by, find_key, save_row, str_eq, opt_str_eq, trim, non_empty, get_or, leb, ltb, ◌==◌,
  if◌then◌else◌,
}
use arbibot.Store.Outcome.{Result, ok, err, assert, bad_request, conflict, ◌>>=◌, ◌>>◌}
use arbibot.Risk.Policy.{
  RiskMode, standard, fast, conservative, Verdict, Reason, adaptive, minimum, evaluate_risk_policy,
  multiplier_for,
}

pub data WindowState : Type 0 where
  reserved consumed expired released : WindowState

-- `RiskWindowReservationEntity`.
pub record RiskWindow : Type 0 where
  pub id : String
  pub window_key : String
  pub correlation_id : String
  pub plan_reference : String
  pub notional_usd : ℕ
  pub state : WindowState
  pub entity_version : ℕ
  pub expires_at : ℕ

-- `RiskDecisionEntity`.
pub record RiskRow : Type 0 where
  pub id : String
  pub correlation_id : String
  pub plan_reference : String
  pub outcome : Verdict
  pub reasons : List Reason
  pub snapshot_version : ℕ
  pub risk_mode : RiskMode
  pub notional_usd : ℕ
  pub idempotency_key : Option String
  pub risk_window_reservation_id : Option String
  pub instrument_key : Option String
  pub route_key : Option String

-- The RiskDecisionIssued row of the outbox.
pub record RiskDecisionIssued : Type 0 where
  pub message_id : String
  pub decision_id : String
  pub correlation_id : String
  pub outcome : Verdict
  pub plan_reference : String
  pub notional_usd : ℕ
  pub snapshot_version : ℕ
  pub risk_mode : RiskMode
  pub reasons : List Reason

-- `TokenProfileEntity` and `RouteProfileEntity`.
pub record Profile : Type 0 where
  pub key : String
  pub max_notional_usd : ℕ

-- The tables, and the ids of the audit calls.
pub record RiskDb : Type 0 where
  pub windows : List RiskWindow
  pub decisions : List RiskRow
  pub issued : List RiskDecisionIssued
  pub token_profiles : List Profile
  pub route_profiles : List Profile
  pub audited : List String

-- `EvaluateRiskRequestDto`.
pub record EvaluateRisk : Type 0 where
  pub idempotency_key : Option String
  pub correlation_id : String
  pub plan_reference : String
  pub notional_usd : ℕ
  pub snapshot_version : ℕ
  pub risk_mode : Option RiskMode
  pub risk_window_reservation_id : Option String
  pub instrument_key : Option String
  pub route_key : Option String
  pub adaptive_risk : Bool

-- `ReserveRiskWindowRequestDto`.
pub record ReserveRiskWindow : Type 0 where
  pub window_key : String
  pub correlation_id : String
  pub plan_reference : String
  pub notional_usd : ℕ
  pub ttl_seconds : Option ℕ

-- The clock, the ids that a call is given, and the text in which a `uuid` column gives back the uuid
-- that a text of the request spells (PostgreSQL writes it in lower case).
pub record RiskCall : Type 0 where
  pub now : ℕ
  pub id : String
  pub message_id : String
  pub uuid : String → String

abbrev pub window_key_of : RiskWindow → String
window_key_of w = w.id

abbrev pub profile_key : Profile → String
profile_key p = p.key

abbrev pub is_reserved : WindowState → Bool
is_reserved reserved = true
is_reserved _ = false

abbrev pub mode_of : EvaluateRisk → RiskMode
mode_of dto = get_or dto.risk_mode standard

abbrev pub trimmed : Option String → Option String
trimmed none = none
trimmed (some s) = some (trim s)

-- `reserveRiskWindow`.
unfoldable pub reserve_risk_window : RiskCall → ReserveRiskWindow → RiskDb → RiskWindow × RiskDb
reserve_risk_window call dto db =
    let row : RiskWindow = record {
      id = call.id;
      window_key = dto.window_key;
      correlation_id = dto.correlation_id;
      plan_reference = dto.plan_reference;
      notional_usd = dto.notional_usd;
      state = reserved;
      entity_version = 1;
      expires_at = call.now + get_or dto.ttl_seconds 900 * 1000;
    } in
    (row, record db { windows = db.windows ++ row ∷ []; audited = db.audited ++ call.id ∷ [] })

-- `materializeRiskWindowReservationExpiryIfNeeded`.
unfoldable pub window_expiry_if_needed : ℕ → RiskWindow → RiskWindow
window_expiry_if_needed now w =
    if is_reserved w.state && leb w.expires_at now
    then record w { state = expired; entity_version = w.entity_version + 1 }
    else w

-- `Math.abs(a - b) > 1e-8` is `far_apart a b`.
unfoldable pub far_apart : ℕ → ℕ → Bool
far_apart a b = ltb (a + 1) b || ltb (b + 1) a

unfoldable pub consumed_window : ℕ → EvaluateRisk → RiskWindow → Result RiskWindow
unfolding window_expiry_if_needed far_apart str_eq
consumed_window now dto w =
    let w' : RiskWindow = window_expiry_if_needed now w in
    assert (is_reserved w'.state) bad_request
    >> assert (str_eq w'.correlation_id dto.correlation_id) conflict
    >> assert (str_eq w'.plan_reference dto.plan_reference) conflict
    >> assert (not (far_apart w'.notional_usd dto.notional_usd)) conflict
    >> ok (record w' { state = consumed; entity_version = w'.entity_version + 1 })

-- The reservation that the request names.
unfoldable pub named_window : RiskCall → EvaluateRisk → List RiskWindow → Option RiskWindow
unfolding find_key
named_window call dto windows = elim dto.risk_window_reservation_id [
  | none ↦ none
  | some i ↦ find_key window_key_of (call.uuid i) windows
]

-- It is consumed.
unfoldable pub consume_window : RiskCall → EvaluateRisk → List RiskWindow → Result (List RiskWindow)
unfolding consumed_window find_key save_row
consume_window call dto windows = elim dto.risk_window_reservation_id [
  | none ↦ ok windows
  | some i ↦ elim (find_key window_key_of (call.uuid i) windows) [
    | none ↦ err bad_request
    | some w ↦ consumed_window call.now dto w >>= λ w'. ok (save_row window_key_of w' windows)
  ]
]

abbrev pub lower_cap : Option ℕ → Option Profile → Option ℕ
lower_cap cap none = cap
lower_cap none (some p) = if p.max_notional_usd == 0 then none else some p.max_notional_usd
lower_cap (some c) (some p) =
    if p.max_notional_usd == 0 then some c else some (minimum c p.max_notional_usd)

unfoldable pub profile_of : Option String → List Profile → Option Profile
unfolding find_key trim non_empty
profile_of none profiles = none
profile_of (some k) profiles =
    if non_empty (trim k) then find_key profile_key (trim k) profiles else none

-- `loadProfileCapsUsd`, in hundredths of units.
unfoldable pub load_profile_caps_usd : ℕ → EvaluateRisk → RiskDb → Option ℕ
unfolding profile_of multiplier_for
load_profile_caps_usd now dto db =
    elim (lower_cap (lower_cap none (profile_of dto.instrument_key db.token_profiles))
      (profile_of dto.route_key db.route_profiles)) [
        | none ↦ none
        | some cap ↦
            some (cap * (if dto.adaptive_risk then multiplier_for now (mode_of dto) else 100))
      ]

abbrev pub same_mode : RiskMode → RiskMode → Bool
same_mode fast fast = true
same_mode standard standard = true
same_mode conservative conservative = true
same_mode _ _ = false

abbrev pub is_adaptive : Reason → Bool
is_adaptive adaptive = true
is_adaptive _ = false

abbrev pub same_bool : Bool → Bool → Bool
same_bool true b = b
same_bool false b = not b

-- `assertSameEvaluateRequest`: two amounts less than 10^-8 apart are equal in units.
unfoldable pub same_evaluate_request : RiskRow → EvaluateRisk → Bool
unfolding str_eq opt_str_eq trim any
same_evaluate_request row dto =
    str_eq row.correlation_id dto.correlation_id
    && str_eq row.plan_reference dto.plan_reference
    && row.snapshot_version == dto.snapshot_version
    && same_mode row.risk_mode (mode_of dto)
    && row.notional_usd == dto.notional_usd
    && opt_str_eq row.risk_window_reservation_id dto.risk_window_reservation_id
    && opt_str_eq row.instrument_key (trimmed dto.instrument_key)
    && opt_str_eq row.route_key (trimmed dto.route_key)
    && same_bool dto.adaptive_risk (any is_adaptive row.reasons)

abbrev pub with_adaptive : Bool → List Reason → List Reason
with_adaptive true reasons = reasons ++ adaptive ∷ []
with_adaptive false reasons = reasons

-- `resv.id`.
abbrev pub id_of : Option RiskWindow → Option String
id_of none = none
id_of (some w) = some w.id

unfoldable pub new_decision : RiskCall → EvaluateRisk → RiskDb → RiskRow
unfolding load_profile_caps_usd evaluate_risk_policy trim named_window
new_decision call dto db =
    let verdict =
      evaluate_risk_policy dto.notional_usd (mode_of dto) call.now
        (load_profile_caps_usd call.now dto db) in
    record {
      id = call.id;
      correlation_id = dto.correlation_id;
      plan_reference = dto.plan_reference;
      outcome = verdict.0;
      reasons = with_adaptive dto.adaptive_risk verdict.1;
      snapshot_version = dto.snapshot_version;
      risk_mode = mode_of dto;
      notional_usd = dto.notional_usd;
      idempotency_key = dto.idempotency_key;
      risk_window_reservation_id = id_of (named_window call dto db.windows);
      instrument_key = trimmed dto.instrument_key;
      route_key = trimmed dto.route_key;
    }

unfoldable pub issued_event : RiskCall → RiskRow → RiskDecisionIssued
issued_event call row = record {
  message_id = call.message_id;
  decision_id = row.id;
  correlation_id = row.correlation_id;
  outcome = row.outcome;
  plan_reference = row.plan_reference;
  notional_usd = row.notional_usd;
  snapshot_version = row.snapshot_version;
  risk_mode = row.risk_mode;
  reasons = row.reasons;
}

-- The result of a call: the row, whether it was there before, and the tables.
pub record Evaluated : Type 0 where
  pub row : RiskRow
  pub replay : Bool
  pub db : RiskDb

unfoldable pub evaluate_new : RiskCall → EvaluateRisk → RiskDb → Result Evaluated
unfolding consume_window new_decision issued_event
evaluate_new call dto db = consume_window call dto db.windows >>= λ windows.
    let row : RiskRow = new_decision call dto db in
    ok (record {
      row = row;
      replay = false;
      db = record db {
        windows = windows;
        decisions = db.decisions ++ row ∷ [];
        issued = db.issued ++ issued_event call row ∷ [];
        audited = db.audited ++ row.id ∷ [];
      };
    })

-- `where: { idempotencyKey }`.
unfoldable pub keyed_decision : Option String → List RiskRow → Option RiskRow
unfolding find_by opt_str_eq
keyed_decision none rows = none
keyed_decision (some key) rows = find_by (λ r. opt_str_eq r.idempotency_key (some key)) rows

-- `evaluateRisk`.
unfoldable pub evaluate_risk : RiskCall → EvaluateRisk → RiskDb → Result Evaluated
unfolding keyed_decision same_evaluate_request evaluate_new
evaluate_risk call dto db = elim (keyed_decision dto.idempotency_key db.decisions) [
  | none ↦ evaluate_new call dto db
  | some row ↦
      if same_evaluate_request row dto
      then ok (record { row = row; replay = true; db = db })
      else err conflict
]
