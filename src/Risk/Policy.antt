-- ===== src/Risk/Policy.antt =====
-- apps/risk-service/src/risk/risk.policy.ts and policy/adaptive-risk.service.ts. Amounts are in units of
-- 10^-8 dollars, the scale of the columns; a cap is in hundredths of that, since a multiplier has two
-- decimal places.
use arbibot.Base.{
  ℕ, ◌*◌, ◌/◌, ◌%◌, Bool, true, false, ◌&&◌, ◌||◌, Option, none, some, List, [], ◌∷◌, leb, ltb,
  if◌then◌else◌,
}

pub data RiskMode : Type 0 where
  fast standard conservative : RiskMode

-- `RiskDecisionOutcome`.
pub data Verdict : Type 0 where
  approved rejected deferred : Verdict

-- The reasons of a decision, without their texts.
pub data Reason : Type 0 where
  outside_window exceeds_threshold exceeds_cap within_limit within_cap adaptive : Reason

-- `THRESHOLDS_USD`, in units.
abbrev pub threshold : RiskMode → ℕ
threshold fast = 5000000 * 100000000
threshold standard = 1000000 * 100000000
threshold conservative = 250000 * 100000000

abbrev pub is_conservative : RiskMode → Bool
is_conservative conservative = true
is_conservative _ = false

-- `now.getUTCHours()`, of milliseconds.
unfoldable pub hour_utc : ℕ → ℕ
hour_utc now = now / 3600000 % 24

abbrev pub minimum : ℕ → ℕ → ℕ
minimum a b = if leb a b then a else b

-- `effectiveLimit`, in hundredths of units.
unfoldable pub effective_limit : RiskMode → Option ℕ → ℕ
effective_limit mode none = threshold mode * 100
effective_limit mode (some cap) = minimum (threshold mode * 100) cap

abbrev pub over_limit : Option ℕ → Reason
over_limit none = exceeds_threshold
over_limit (some cap) = exceeds_cap

abbrev pub in_limit : Option ℕ → Reason
in_limit none = within_limit
in_limit (some cap) = within_cap

-- `evaluateRiskPolicy`.
unfoldable pub evaluate_risk_policy : ℕ → RiskMode → ℕ → Option ℕ → Verdict × List Reason
unfolding hour_utc effective_limit
evaluate_risk_policy notional mode now cap =
    if is_conservative mode && (ltb (hour_utc now) 8 || ltb 20 (hour_utc now))
    then (deferred, outside_window ∷ [])
    else if ltb (effective_limit mode cap) (notional * 100)
    then (rejected, over_limit cap ∷ [])
    else (approved, in_limit cap ∷ [])

-- `multiplierFor`, in hundredths.
unfoldable pub multiplier_for : ℕ → RiskMode → ℕ
unfolding hour_utc
multiplier_for now mode =
    let in_peak = leb 12 (hour_utc now) && leb (hour_utc now) 20 in
    elim mode [
      | conservative ↦ if in_peak then 75 else 90
      | fast ↦ if in_peak then 85 else 100
      | standard ↦ if in_peak then 90 else 100
    ]
