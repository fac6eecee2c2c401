-- ===== src/Risk/Limits.antt =====
-- What an approval of risk-service says about the amount.
use arbibot.Base.{
  subst, ℕ, ◌*◌, ◌≤◌, ◌≡◌, refl, sym, ap, ◌∙◌, Bool, true, false, ◌&&◌, ◌||◌, Option, none, some,
  [], ◌∷◌, ◌++◌, Bool-cases, Option-cases, inl, inr, ◌⊎◌, arith, if◌then◌else◌, ltb, leb, ◌==◌,
}
use native.Mathlib.Nat.{mul-le-mul_left}
use arbibot.Store.Outcome.{ok, Result-cases}
use arbibot.Risk.Policy.{
  RiskMode, fast, standard, conservative, approved, threshold, is_conservative, hour_utc,
  effective_limit, minimum, evaluate_risk_policy, multiplier_for,
}
use arbibot.Risk.Evaluate.{
  RiskCall, EvaluateRisk, RiskDb, Profile, Evaluated, new_decision, evaluate_new, evaluate_risk,
  RiskDecisionIssued, keyed_decision, same_evaluate_request, consume_window, mode_of,
  load_profile_caps_usd, profile_of, lower_cap, issued_event,
}

-- What an adaptive evaluation leaves of a profile's bound, in hundredths: in the peak hours from 12 to 20
-- UTC, and outside of them.
abbrev pub allowed_percent : Bool → Bool → RiskMode → ℕ
allowed_percent false in_peak mode = 100
allowed_percent true true fast = 85
allowed_percent true true standard = 90
allowed_percent true true conservative = 75
allowed_percent true false conservative = 90
allowed_percent true false _ = 100

abbrev pub peak : ℕ → Bool
peak now = leb 12 (hour_utc now) && leb (hour_utc now) 20

abbrev pub percent_of : RiskCall → EvaluateRisk → ℕ
percent_of call dto = allowed_percent dto.adaptive_risk (peak call.now) (mode_of dto)

-- The bound that a profile sets, where it sets one, of which so many hundredths are allowed.
abbrev pub WithinProfile : ℕ → ℕ → Option Profile → Type 0
WithinProfile n percent none = Unit
WithinProfile n percent (some p) =
    (p.max_notional_usd ≡ 0) ⊎ (n * 100 ≤ p.max_notional_usd * percent)

abbrev WithinCap : ℕ → Option ℕ → Type 0
WithinCap n none = Unit
WithinCap n (some cap) = n ≤ cap

abbrev outside : RiskMode → ℕ → Bool
outside mode h = is_conservative mode && (ltb h 8 || ltb 20 h)

within_hours :
    (mode : RiskMode) (h : ℕ)
    → outside mode h ≡ false
    → (is_conservative mode ≡ false) ⊎ ((8 ≤ h) × (h ≤ 20))
within_hours mode h e = elim (Bool-cases (is_conservative mode)) [
  | inl careful ↦ inr (ground (arith, careful, e), ground (arith, careful, e))
  | inr bold ↦ inl bold
]

within_limit :
    (n t : ℕ) (cap : Option ℕ)
    → ltb (elim cap [ none ↦ t * 100 | some c ↦ minimum (t * 100) c ]) (n * 100) ≡ false
    → (n ≤ t) × WithinCap (n * 100) cap
within_limit n t none e = (ground arith, tt)
within_limit n t (some c) e = (ground arith, ground arith)

limit_lem :
    (mode : RiskMode) (cap : Option ℕ)
    → effective_limit mode cap
      ≡ (elim cap [ none ↦ threshold mode * 100 | some c ↦ minimum (threshold mode * 100) c ])
unfolding effective_limit
limit_lem mode none = refl
limit_lem mode (some c) = refl

approved_policy :
    (n : ℕ) (mode : RiskMode) (now : ℕ) (cap : Option ℕ)
    → (evaluate_risk_policy n mode now cap).0 ≡ approved
    → (n ≤ threshold mode)
      × WithinCap (n * 100) cap
      × ((is_conservative mode ≡ false) ⊎ ((8 ≤ hour_utc now) × (hour_utc now ≤ 20)))
unfolding evaluate_risk_policy
approved_policy n mode now cap h = elim (Bool-cases (outside mode (hour_utc now))) [
  | inl late ↦ absurd (ground (arith, late))
  | inr in_time ↦ elim (Bool-cases (ltb (effective_limit mode cap) (n * 100))) [
    | inl over ↦ absurd (ground (arith, in_time, over))
    | inr within ↦
        let (fits, under) =
          within_limit n (threshold mode) cap
            (subst (λ x. ltb x (n * 100) ≡ false) (limit_lem mode cap) within) in
        (fits, under, within_hours mode (hour_utc now) in_time)
  ]
]

abbrev factor : Bool → ℕ → RiskMode → ℕ
factor adaptive_risk now mode = if adaptive_risk then multiplier_for now mode else 100

factor_lem :
    (adaptive_risk : Bool) (now : ℕ) (mode : RiskMode)
    → factor adaptive_risk now mode ≡ allowed_percent adaptive_risk (peak now) mode
unfolding multiplier_for
factor_lem false now mode = refl
factor_lem true now fast = ground arith
factor_lem true now standard = ground arith
factor_lem true now conservative = ground arith

abbrev pub scaled_cap : Option ℕ → ℕ → Option ℕ
scaled_cap none m = none
scaled_cap (some cap) m = some (cap * m)

-- The lower of two bounds is below both.
below_both : (n c d m : ℕ) → n ≤ minimum c d * m → (n ≤ c * m) × (n ≤ d * m)
below_both n c d m h = elim (Bool-cases (leb c d)) [
  | inl less ↦ (
    ground (arith, less),
    omega (
      arith,
      mul-le-mul_left m (let le : c ≤ d = ground (arith, less) in le),
      (let x : n ≤ c * m = ground (arith, less) in x),
    ),
  )
  | inr more ↦ (
    omega (
      arith,
      mul-le-mul_left m (let le : d ≤ c = ground (arith, more) in le),
      (let x : n ≤ d * m = ground (arith, more) in x),
    ),
    ground (arith, more),
  )
]

WithinCap-lower_cap :
    (n m : ℕ) (cap : Option ℕ) (p : Option Profile)
    → WithinCap (n * 100) (scaled_cap (lower_cap cap p) m)
    → WithinCap (n * 100) (scaled_cap cap m) × WithinProfile n m p
WithinCap-lower_cap n m cap none h = (h, tt)
WithinCap-lower_cap n m none (some p) h = elim (Bool-cases (p.max_notional_usd == 0)) [
  | inl unset ↦ (tt, inl (ground arith))
  | inr set ↦
      (tt, inr (let x : WithinCap (n * 100) (some (p.max_notional_usd * m)) = rw set at h in x))
]
WithinCap-lower_cap n m (some c) (some p) h = elim (Bool-cases (p.max_notional_usd == 0)) [
  | inl unset ↦
      (let x : WithinCap (n * 100) (some (c * m)) = rw unset at h in x, inl (ground arith))
  | inr set ↦
      let x : n * 100 ≤ minimum c p.max_notional_usd * m = rw set at h in
      let (low, lower) = below_both (n * 100) c p.max_notional_usd m x in (low, inr lower)
]

caps_are :
    (now : ℕ) (dto : EvaluateRisk) (db : RiskDb)
    → load_profile_caps_usd now dto db
      ≡ scaled_cap
          (lower_cap
            (lower_cap none (profile_of dto.instrument_key db.token_profiles))
            (profile_of dto.route_key db.route_profiles))
          (if dto.adaptive_risk then multiplier_for now (mode_of dto) else 100)
unfolding load_profile_caps_usd
caps_are now dto db = by_cap (
    lower_cap (lower_cap none (profile_of dto.instrument_key db.token_profiles))
      (profile_of dto.route_key db.route_profiles))
  where
    by_cap :
        (cap : Option ℕ)
        → (elim cap [
          | none ↦ none
          | some c ↦
              some (c * (if dto.adaptive_risk then multiplier_for now (mode_of dto) else 100))
        ])
          ≡ scaled_cap cap (if dto.adaptive_risk then multiplier_for now (mode_of dto) else 100)
    by_cap none = refl
    by_cap (some c) = refl

new_row :
    (call : RiskCall) (dto : EvaluateRisk) (db : RiskDb) {e : Evaluated}
    → evaluate_risk call dto db ≡ ok e
    → e.replay ≡ false
    → (e.row ≡ new_decision call dto db)
      × (e.db.decisions ≡ db.decisions ++ e.row ∷ [])
      × (e.db.issued ≡ db.issued ++ issued_event call e.row ∷ [])
unfolding evaluate_risk evaluate_new
new_row call dto db {e} done fresh =
    elim (Option-cases (keyed_decision dto.idempotency_key db.decisions)) [
      | inr (row, found) ↦ elim (Bool-cases (same_evaluate_request row dto)) [
        | inl same ↦ absurd (ground arith)
        | inr other ↦ absurd (ground arith)
      ]
      | inl missing ↦ elim (Result-cases (consume_window call dto db.windows)) [
        | inr (x, failed) ↦ absurd (ground arith)
        | inl (windows, consumed) ↦ (ground arith, ground arith, ground arith)
      ]
    ]

verdict_of :
    (call : RiskCall) (dto : EvaluateRisk) (db : RiskDb)
    → (new_decision call dto db).outcome
      ≡ (evaluate_risk_policy dto.notional_usd
          (mode_of dto)
          call.now
          (load_profile_caps_usd call.now dto db)).0
unfolding new_decision
verdict_of call dto db = refl

-- A new decision that approves is about the amount and the mode of the request. The amount stays within
-- the threshold of the mode and within the profiles of the token and of the route, where they set a
-- bound; an adaptive evaluation leaves only a part of these bounds, which depends on the mode and on the
-- peak hours. In the conservative mode it is made from 8 to 20 UTC. It is the one row added, and the one
-- event added says the same decision, amount and mode.
pub approved_within_limits :
    (call : RiskCall) (dto : EvaluateRisk) (db : RiskDb) {e : Evaluated}
    → evaluate_risk call dto db ≡ ok e
    → e.replay ≡ false
    → e.row.outcome ≡ approved
    → (e.row.notional_usd ≡ dto.notional_usd)
      × (e.row.risk_mode ≡ mode_of dto)
      × (dto.notional_usd ≤ threshold (mode_of dto))
      × WithinProfile dto.notional_usd
          (percent_of call dto)
          (profile_of dto.instrument_key db.token_profiles)
      × WithinProfile dto.notional_usd
          (percent_of call dto)
          (profile_of dto.route_key db.route_profiles)
      × ((is_conservative (mode_of dto) ≡ false)
          ⊎ ((8 ≤ hour_utc call.now) × (hour_utc call.now ≤ 20)))
      × (e.db.decisions ≡ db.decisions ++ e.row ∷ [])
      × ((event : RiskDecisionIssued) × (e.db.issued ≡ db.issued ++ event ∷ [])
          × (event.decision_id ≡ e.row.id)
          × (event.outcome ≡ approved)
          × (event.notional_usd ≡ dto.notional_usd)
          × (event.risk_mode ≡ mode_of dto))
unfolding new_decision issued_event
approved_within_limits call dto db {e} done fresh yes_approved =
    let (made, rows, events) = new_row call dto db done fresh in
    let amount : e.row.notional_usd ≡ dto.notional_usd = ap (λ r. r.notional_usd) made in
    let mode : e.row.risk_mode ≡ mode_of dto = ap (λ r. r.risk_mode) made in
    let verdict = sym (verdict_of call dto db) ∙ ap (λ r. r.outcome) (sym made) ∙ yes_approved in
    let (fits, capped, hours) =
      approved_policy dto.notional_usd (mode_of dto) call.now
        (load_profile_caps_usd call.now dto db) verdict in
    let token_cap = lower_cap none (profile_of dto.instrument_key db.token_profiles) in
    let percent = percent_of call dto in
    let lowest : WithinCap (dto.notional_usd * 100)
        (scaled_cap (lower_cap token_cap (profile_of dto.route_key db.route_profiles)) percent) =
      subst (WithinCap (dto.notional_usd * 100))
        (caps_are call.now dto db
          ∙ ap (scaled_cap (lower_cap token_cap (profile_of dto.route_key db.route_profiles)))
              (factor_lem dto.adaptive_risk call.now (mode_of dto)))
        capped in
    let (under_token, route) =
      WithinCap-lower_cap dto.notional_usd percent token_cap
        (profile_of dto.route_key db.route_profiles) lowest in
    let (_, token) =
      WithinCap-lower_cap dto.notional_usd percent none
        (profile_of dto.instrument_key db.token_profiles) under_token in
    (
      amount,
      mode,
      fits,
      token,
      route,
      hours,
      rows,
      (issued_event call e.row, events, refl, yes_approved, amount, mode),
    )
