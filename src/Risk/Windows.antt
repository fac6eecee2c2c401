-- ===== src/Risk/Windows.antt =====
-- The reservations of risk windows over sequences of calls of risk-service.
use arbibot.Base.{
  ◌*◌, get_or, subst, ℕ, ◌+◌, ◌<◌, String, ◌≡◌, ◌≢◌, refl, sym, ap, ◌∙◌, true, false, ◌&&◌, some,
  List, [], ◌∷◌, ◌++◌, sum_of, sum_of-append, sum_of-save_found, find_key, find_key-key, save_row,
  str_eq, str_eq_iff, opt_str_eq, Bool-cases, Option-cases, inl, inr, arith, if◌then◌else◌, All,
  leb,
}
use arbibot.Store.Outcome.{Result, conflict, ok, err, Result-cases}
use arbibot.Risk.Evaluate.{
  named_window, id_of, RiskCall, EvaluateRisk, ReserveRiskWindow, RiskDb, RiskRow, RiskWindow,
  consumed, reserved, issued_event, Evaluated, new_decision, evaluate_new, evaluate_risk,
  keyed_decision, same_evaluate_request, consume_window, consumed_window, reserve_risk_window,
  window_expiry_if_needed, far_apart, window_key_of, is_reserved,
}

-- A reservation that can still be used.
abbrev usable : String → RiskWindow → ℕ
usable i w = if str_eq w.id i && is_reserved w.state then 1 else 0

abbrev names : String → RiskRow → ℕ
names i r = if opt_str_eq r.risk_window_reservation_id (some i) then 1 else 0

-- How many decisions name a reservation, and how many rows of it are still `reserved`.
unfoldable pub uses : String → RiskDb → ℕ
unfolding sum_of
uses i db = sum_of (names i) db.decisions

unfoldable pub left : String → RiskDb → ℕ
unfolding sum_of
left i db = sum_of (usable i) db.windows

-- A reservation that is consumed was `reserved` and not past its time, of the request's correlation id
-- and plan, and at most 10^-8 dollars off its amount.
consumed_window_lem :
    (now : ℕ) (dto : EvaluateRisk) (w : RiskWindow) {w' : RiskWindow}
    → consumed_window now dto w ≡ ok w'
    → (is_reserved w.state ≡ true)
      × (now < w.expires_at)
      × (w.correlation_id ≡ dto.correlation_id)
      × (w.plan_reference ≡ dto.plan_reference)
      × (w'.id ≡ w.id)
      × (w'.state ≡ consumed)
unfolding consumed_window window_expiry_if_needed
consumed_window_lem now dto w {w'} e = elim (Bool-cases (is_reserved w.state)) [
  | inr other ↦ absurd (ground (arith, other))
  | inl usable_now ↦ elim (Bool-cases (leb w.expires_at now)) [
    | inl late ↦ absurd (ground (arith, usable_now, late))
    | inr in_time ↦ elim (Bool-cases (str_eq w.correlation_id dto.correlation_id)) [
      | inr differs ↦ absurd (ground (arith, usable_now, in_time, differs))
      | inl same_correlation ↦ elim (Bool-cases (str_eq w.plan_reference dto.plan_reference)) [
        | inr differs ↦ absurd (ground (arith, usable_now, in_time, same_correlation, differs))
        | inl same_plan ↦ elim (Bool-cases (far_apart w.notional_usd dto.notional_usd)) [
          | inl far ↦ absurd (ground (arith, usable_now, in_time, same_correlation, same_plan, far))
          | inr near ↦ (
            usable_now,
            ground (arith, in_time),
            (str_eq_iff w.correlation_id dto.correlation_id).0 same_correlation,
            (str_eq_iff w.plan_reference dto.plan_reference).0 same_plan,
            ground (arith, usable_now, in_time, same_correlation, same_plan, near),
            ground (arith, usable_now, in_time, same_correlation, same_plan, near),
          )
        ]
      ]
    ]
  ]
]

abbrev consumed_of : String → RiskCall → EvaluateRisk → List RiskWindow → ℕ
consumed_of i call dto windows =
    if opt_str_eq (id_of (named_window call dto windows)) (some i) then 1 else 0

-- What consuming does to the rows of any reservation.
consume_window_lem :
    (call : RiskCall) (dto : EvaluateRisk) (windows : List RiskWindow) {windows' : List RiskWindow}
    (i : String)
    → consume_window call dto windows ≡ ok windows'
    → sum_of (usable i) windows' + consumed_of i call dto windows ≡ sum_of (usable i) windows
unfolding consume_window opt_str_eq named_window
consume_window_lem call dto windows {windows'} i e =
    elim (Option-cases dto.risk_window_reservation_id) [
      | inl none_named ↦
          let same : windows' ≡ windows = ground arith in
          ground (arith, ap (sum_of (usable i)) same)
      | inr (k, named) ↦ elim (Option-cases (find_key window_key_of (call.uuid k) windows)) [
        | inl missing ↦ absurd (ground arith)
        | inr (w, found) ↦ elim (Result-cases (consumed_window call.now dto w)) [
          | inr (x, failed) ↦ absurd (ground arith)
          | inl (w', done) ↦
              let (was, _, _, _, same_id, gone) = consumed_window_lem call.now dto w done in
              let its_id = find_key-key window_key_of (call.uuid k) windows found in
              let rows : windows' ≡ save_row window_key_of w' windows = ground arith in
              ground (
                arith,
                ap (sum_of (usable i)) rows,
                sum_of-save_found window_key_of (usable i) (call.uuid k) windows w w' found
                    (same_id ∙ its_id),
                was,
                same_id,
                its_id,
                gone,
                str_eq_iff w.id i,
                str_eq_iff w'.id i,
                str_eq_iff (call.uuid k) i,
              )
        ]
      ]
    ]

-- A call of the service.
pub data RiskAction : Type 0 where
  evaluates : RiskCall → EvaluateRisk → RiskAction
  reserves : RiskCall → ReserveRiskWindow → RiskAction

abbrev pub db_of : RiskDb → Result Evaluated → RiskDb
db_of db (ok e) = e.db
db_of db (err x) = db

-- What a call does to the tables; an exception rolls back.
abbrev pub perform : RiskAction → RiskDb → RiskDb
unfolding evaluate_risk reserve_risk_window
perform (evaluates call dto) db = db_of db (evaluate_risk call dto db)
perform (reserves call dto) db = (reserve_risk_window call dto db).1

unfoldable pub run : List RiskAction → RiskDb → RiskDb
unfolding perform
run [] db = db
run (a ∷ actions) db = run actions (perform a db)

-- Calls that give a new row another id.
abbrev pub GivesOther : String → RiskAction → Type 0
GivesOther i (evaluates call dto) = Unit
GivesOther i (reserves call dto) = call.id ≢ i

last_one : {A : Type 0} (f : A → ℕ) (a : A) → sum_of f (a ∷ []) ≡ f a
unfolding sum_of
last_one f a = omega arith

named_by_new :
    (call : RiskCall) (dto : EvaluateRisk) (db : RiskDb) (i : String)
    → names i (new_decision call dto db) ≡ consumed_of i call dto db.windows
unfolding new_decision
named_by_new call dto db i = refl

-- The sum after a result.
abbrev Conserves : String → RiskDb → Result Evaluated → Type 0
Conserves i db r = uses i (db_of db r) + left i (db_of db r) ≡ uses i db + left i db

evaluated_new :
    (call : RiskCall) (dto : EvaluateRisk) (db : RiskDb) (i : String)
    → Conserves i db (evaluate_new call dto db)
unfolding evaluate_new uses left
evaluated_new call dto db i = elim (Result-cases (consume_window call dto db.windows)) [
  | inr (x, failed) ↦
      subst (Conserves i db)
        (sym (let e : evaluate_new call dto db ≡ err x = ground (arith, failed) in e)) refl
  | inl (windows, done) ↦
      let row : RiskRow = new_decision call dto db in
      let result : Evaluated = record {
        row = row;
        replay = false;
        db = record db {
          windows = windows;
          decisions = db.decisions ++ row ∷ [];
          issued = db.issued ++ issued_event call row ∷ [];
          audited = db.audited ++ row.id ∷ [];
        };
      } in
      subst (Conserves i db)
        (sym (let e : evaluate_new call dto db ≡ ok result = ground (arith, done) in e))
        (omega (
          arith,
          consume_window_lem call dto db.windows i done,
          named_by_new call dto db i,
          sum_of-append (names i) db.decisions (row ∷ []),
          last_one (names i) row,
        ))
]

evaluated :
    (call : RiskCall) (dto : EvaluateRisk) (db : RiskDb) (i : String)
    → Conserves i db (evaluate_risk call dto db)
unfolding evaluate_risk
evaluated call dto db i = elim (Option-cases (keyed_decision dto.idempotency_key db.decisions)) [
  | inr (row, found) ↦ elim (Bool-cases (same_evaluate_request row dto)) [
    | inl same ↦
        subst (Conserves i db)
          (sym (
            let e : evaluate_risk call dto db ≡ ok (record { row = row; replay = true; db = db }) =
              ground (arith, found, same) in
            e))
          refl
    | inr other ↦
        subst (Conserves i db)
          (sym
            (let e : evaluate_risk call dto db ≡ err conflict = ground (arith, found, other) in e))
          refl
  ]
  | inl missing ↦
      subst (Conserves i db)
        (sym (
          let e : evaluate_risk call dto db ≡ evaluate_new call dto db = ground (arith, missing) in
          e))
        (evaluated_new call dto db i)
]

abbrev fresh_window : RiskCall → ReserveRiskWindow → RiskWindow
fresh_window call dto = record {
  id = call.id;
  window_key = dto.window_key;
  correlation_id = dto.correlation_id;
  plan_reference = dto.plan_reference;
  notional_usd = dto.notional_usd;
  state = reserved;
  entity_version = 1;
  expires_at = call.now + get_or dto.ttl_seconds 900 * 1000;
}

fresh_other :
    (call : RiskCall) (dto : ReserveRiskWindow) (i : String)
    → call.id ≢ i
    → usable i (fresh_window call dto) ≡ 0
fresh_other call dto i other = ground (arith, other, str_eq_iff call.id i)

performed :
    (a : RiskAction) (db : RiskDb) (i : String)
    → GivesOther i a
    → uses i (perform a db) + left i (perform a db) ≡ uses i db + left i db
unfolding perform reserve_risk_window uses left
performed (evaluates call dto) db i other = evaluated call dto db i
performed (reserves call dto) db i other = omega (
  arith,
  sum_of-append (usable i) db.windows (fresh_window call dto ∷ []),
  last_one (usable i) (fresh_window call dto),
  fresh_other call dto i other,
)

-- Over any calls, the decisions that name a reservation and the rows of it that can still be used are
-- together as many as at the start, provided that no new reservation gets its id: each decision takes
-- the reservation that it names for good, and no reservation serves two decisions.
pub windows_conserved :
    (i : String) (actions : List RiskAction) (db : RiskDb)
    → All (GivesOther i) actions
    → uses i (run actions db) + left i (run actions db) ≡ uses i db + left i db
unfolding run
windows_conserved i [] db others = refl
windows_conserved i (a ∷ actions) db others =
    windows_conserved i actions (perform a db) others.1 ∙ performed a db i others.0
