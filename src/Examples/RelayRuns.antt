-- ===== src/Examples/RelayRuns.antt =====
-- Runs of the outbox relay of opportunity-service.
use arbibot.Base.{
  ℕ, ◌+◌, ◌≤◌, String, ◌≡◌, refl, true, false, none, List, [], ◌∷◌, arith, length, count,
  rows_under,
}
use arbibot.Json.{Json, str, obj, field, end}
use arbibot.Messaging.{OutboxRow, fetch_locked_outbox_batch}
use arbibot.OpportunityRelay.{RelayDb, Relay, Opportunity, IssuedDecision, relay_outbox_event_types}
use arbibot.OpportunityRelay.Draining.{process_batches}
use arbibot.OpportunityRelay.Once.{Keyed, versions, versions_paid}

abbrev decision_payload : String → Json
decision_payload opportunity =
    obj (field "decisionId" (str "d1") (field "planReference" (str opportunity) end))

abbrev row : ℕ → String → String → OutboxRow
row i message opportunity = record {
  id = i;
  message_id = message;
  event_type = "RiskDecisionIssued";
  payload = decision_payload opportunity;
  processed = false;
  dead_letter = false;
  relay_delivery_attempts = 0;
}

abbrev opportunity : Opportunity
opportunity = record { id = "o1"; state = "detected"; risk_decision_id = none; entity_version = 1 }

abbrev db : RelayDb
db = record {
  outbox = row 9 "m9" "o1" ∷ row 10 "m10" "o2" ∷ [];
  inbox = [];
  opportunities = opportunity ∷ [];
}

-- As PostgreSQL and TypeORM answer.
abbrev relay : Relay
relay = record {
  max_opportunity_attempts = 2;
  max_paper_promotion_attempts = 2;
  goes_on = false;
  read_attempts = λ n. 0;
  enqueue_promotion_candidate = λ p. true;
}

abbrev ticks : List ℕ
ticks = 3 ∷ 2 ∷ 5 ∷ []

-- The row with id 10 is fetched before the one with id 9.
ten_before_nine :
    fetch_locked_outbox_batch 1 relay_outbox_event_types db.outbox ≡ row 10 "m10" "o2" ∷ []
unfolding fetch_locked_outbox_batch
ten_before_nine = refl

abbrev decision : IssuedDecision
decision = record { decision_id = "d1"; plan_reference = "o1" }

db-Keyed : Keyed db
unfolding rows_under count
db-Keyed = (λ i. ground arith, λ consumer message. omega arith)

versions_paid_example :
    Keyed (process_batches relay ticks db)
    × (versions (process_batches relay ticks db) + length db.inbox
        ≤ versions db + length (process_batches relay ticks db).inbox)
versions_paid_example = versions_paid relay ticks db db-Keyed

-- One version more for the one opportunity that is there; the decision for the missing one is buried.
after_ticks :
    (versions (process_batches relay ticks db) ≡ 2)
    × (length (process_batches relay ticks db).inbox ≡ 1)
unfolding process_batches versions
after_ticks = (refl, refl)
