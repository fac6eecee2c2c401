-- ===== src/Risk/Replay.antt =====
-- A repeated call of evaluateRisk of risk-service.
use arbibot.Base.{String, ◌≡◌, Option, none, some}
use arbibot.Risk.Evaluate.{RiskCall, EvaluateRisk}

-- A reservation's id as the column spells it.
abbrev pub spelt : RiskCall → Option String → Option String
spelt call none = none
spelt call (some i) = some (call.uuid i)

-- The text of a reservation's id that the request has in the column's spelling.
abbrev pub SpeltAsStored : RiskCall → EvaluateRisk → Type 0
SpeltAsStored call dto = spelt call dto.risk_window_reservation_id ≡ dto.risk_window_reservation_id
