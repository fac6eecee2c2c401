-- ===== src/OpportunityRelay.antt =====
-- apps/opportunity-service/src/outbox-relay.service.ts: the relay of risk decisions to opportunities, and
-- of paper promotion candidates to paper-trading-service over HTTP.
pub mod Rounds
pub mod Claims
pub mod Draining
pub mod Delivery
pub mod Once
use arbibot.Base.{
  ℕ, zero, suc, ◌+◌, String, Bool, true, false, not, ◌&&◌, ◌||◌, Option, none, some, List, [], ◌∷◌,
  ◌++◌, keep, find_key, save_row, str_eq, opt_str_eq, non_empty, leb, ◌==◌, if◌then◌else◌,
}
use arbibot.Json.{Json, obj, prop, as_string, as_number}
use arbibot.Messaging.{
  OutboxRow, InboxRow, fetch_locked_outbox_batch, update_row, is_open, same_message,
  try_claim_inbox_message,
}

-- `ArbitrageOpportunityEntity`, as the relay reads and writes it.
pub record Opportunity : Type 0 where
  pub id : String
  pub state : String
  pub risk_decision_id : Option String
  pub entity_version : ℕ

pub record RelayDb : Type 0 where
  pub outbox : List OutboxRow
  pub inbox : List InboxRow
  pub opportunities : List Opportunity

-- The fields of `RiskDecisionIssuedPayloadV1` that the relay reads.
pub record IssuedDecision : Type 0 where
  pub decision_id : String
  pub plan_reference : String

-- `PaperPromotionCandidateRequestedPayloadV1`.
pub record PaperPromotion : Type 0 where
  pub opportunity_id : String
  pub instrument_key : String
  pub source : String
  pub enqueue_idempotency_key : String
  pub evidence : Json
  pub score : Option ℕ
  pub drift_bps : Option ℕ
  pub net_profit_usd : Option ℕ
  pub spread_bps : Option ℕ
  pub buy_venue : Option String
  pub sell_venue : Option String

abbrev pub opportunity_key : Opportunity → String
opportunity_key o = o.id

abbrev pub risk_decision_issued : String
risk_decision_issued = "RiskDecisionIssued"

abbrev pub paper_promotion_candidate_requested : String
paper_promotion_candidate_requested = "PaperPromotionCandidateRequested"

-- `RELAY_OUTBOX_EVENT_TYPES`.
abbrev pub relay_outbox_event_types : List String
relay_outbox_event_types = risk_decision_issued ∷ paper_promotion_candidate_requested ∷ []

-- `OPPORTUNITY_INBOX_CONSUMER_ID`.
abbrev pub opportunity_inbox_consumer_id : String
opportunity_inbox_consumer_id = "opportunity-service"

abbrev only_non_empty : Option String → Option String
only_non_empty none = none
only_non_empty (some s) = if non_empty s then some s else none

-- A field that must be a text, and not the empty one.
unfoldable pub text_field : String → Json → Option String
unfolding prop as_string non_empty
text_field name payload = only_non_empty (as_string (prop name (some payload)))

abbrev object_of : Option Json → Option Json
object_of (some (obj fs)) = some (obj fs)
object_of _ = none

abbrev and_then {ℓ κ} : {A : Type ℓ} {B : Type κ} → Option A → (A → Option B) → Option B
and_then none f = none
and_then (some a) f = f a

-- `parseRiskDecisionIssuedPayload`.
unfoldable pub parse_risk_decision_issued_payload : Json → Option IssuedDecision
unfolding text_field
parse_risk_decision_issued_payload payload = and_then (text_field "decisionId" payload) λ decision.
    and_then (text_field "planReference" payload)
      λ reference. some (record { decision_id = decision; plan_reference = reference })

-- `parsePaperPromotionCandidateRequestedPayload`.
unfoldable pub parse_paper_promotion_payload : Json → Option PaperPromotion
unfolding text_field prop as_number
parse_paper_promotion_payload payload = and_then (text_field "opportunityId" payload) λ opportunity.
    and_then (text_field "instrumentKey" payload) λ instrument.
      and_then (text_field "source" payload) λ source.
        and_then (text_field "enqueueIdempotencyKey" payload) λ key.
          and_then (object_of (prop "evidence" (some payload))) λ evidence. some (record {
            opportunity_id = opportunity;
            instrument_key = instrument;
            source = source;
            enqueue_idempotency_key = key;
            evidence = evidence;
            score = as_number (prop "score" (some payload));
            drift_bps = as_number (prop "driftBps" (some payload));
            net_profit_usd = as_number (prop "netProfitUsd" (some payload));
            spread_bps = as_number (prop "spreadBps" (some payload));
            buy_venue = text_field "buyVenue" payload;
            sell_venue = text_field "sellVenue" payload;
          })

abbrev pub mark_processed : OutboxRow → OutboxRow
mark_processed r = record r { processed = true }

abbrev pub mark_dead_letter : OutboxRow → OutboxRow
mark_dead_letter r = record r { dead_letter = true }

abbrev pub set_attempts : ℕ → OutboxRow → OutboxRow
set_attempts n r = record r { relay_delivery_attempts = n }

-- The next attempt is counted, and the row is dead at the last one.
unfoldable pub retry_or_bury : ℕ → OutboxRow → List OutboxRow → List OutboxRow
unfolding update_row
retry_or_bury max_attempts row outbox =
    let attempts : ℕ = row.relay_delivery_attempts + 1 in
    let rows : List OutboxRow = update_row row.id (set_attempts attempts) outbox in
    if leb max_attempts attempts then update_row row.id mark_dead_letter rows else rows

-- `opp.state === 'risk_checked' && opp.riskDecisionId === payload.decisionId`.
unfoldable pub decision_applied : IssuedDecision → Opportunity → Bool
unfolding str_eq opt_str_eq
decision_applied decision o =
    str_eq o.state "risk_checked" && opt_str_eq o.risk_decision_id (some decision.decision_id)

unfoldable pub apply_decision : IssuedDecision → Opportunity → Opportunity
apply_decision decision o = record o {
  state = "risk_checked";
  risk_decision_id = some decision.decision_id;
  entity_version = o.entity_version + 1;
}

-- `releaseInboxClaim`.
unfoldable pub release_inbox_claim : String → List InboxRow → List InboxRow
unfolding keep same_message
release_inbox_claim message inbox =
    keep (λ r. not (same_message opportunity_inbox_consumer_id message r)) inbox

abbrev pub put_outbox : List OutboxRow → RelayDb → RelayDb
put_outbox rows db = record db { outbox = rows }

-- What became of a tick's transaction: no row was there, it was rolled back, or it was committed.
pub data Step : Type 0 where
  empty : Step
  threw : Step
  handled : RelayDb → Step

-- `finishDuplicateInboxDelivery`, with the mark that its result asks for.
unfoldable pub finish_duplicate_inbox_delivery : ℕ → OutboxRow → IssuedDecision → RelayDb → RelayDb
unfolding find_key decision_applied retry_or_bury update_row
finish_duplicate_inbox_delivery max_attempts row decision db =
    elim (find_key opportunity_key decision.plan_reference db.opportunities) [
      | none ↦ put_outbox (retry_or_bury max_attempts row db.outbox) db
      | some o ↦
          if decision_applied decision o
          then put_outbox (update_row row.id mark_processed db.outbox) db
          else put_outbox (update_row row.id mark_dead_letter db.outbox) db
    ]

-- The rest of `dispatchLockedRow` for a message that was claimed, with the mark that it asks for.
unfoldable pub deliver_decision : ℕ → OutboxRow → IssuedDecision → RelayDb → RelayDb
unfolding find_key save_row decision_applied apply_decision retry_or_bury update_row
    release_inbox_claim
deliver_decision max_attempts row decision db =
    elim (find_key opportunity_key decision.plan_reference db.opportunities) [
      | none ↦ record {
        outbox = retry_or_bury max_attempts row db.outbox;
        inbox = release_inbox_claim row.message_id db.inbox;
        opportunities = db.opportunities;
      }
      | some o ↦
          if decision_applied decision o
          then put_outbox (update_row row.id mark_processed db.outbox) db
          else record {
            outbox = update_row row.id mark_processed db.outbox;
            inbox = db.inbox;
            opportunities = save_row opportunity_key (apply_decision decision o) db.opportunities;
          }
    ]

-- `dispatchLockedRow`. Where the inbox refuses the message, `goes_on` tells whether the transaction can
-- go on after the unique violation; PostgreSQL refuses every later statement of it, unless the insert
-- had a savepoint.
unfoldable pub dispatch_locked_row : Bool → ℕ → OutboxRow → RelayDb → Step
unfolding str_eq parse_risk_decision_issued_payload try_claim_inbox_message
    finish_duplicate_inbox_delivery deliver_decision update_row
dispatch_locked_row goes_on max_attempts row db =
    if not (str_eq row.event_type risk_decision_issued)
    then handled (put_outbox (update_row row.id mark_dead_letter db.outbox) db)
    else elim (parse_risk_decision_issued_payload row.payload) [
      | none ↦ handled (put_outbox (update_row row.id mark_dead_letter db.outbox) db)
      | some decision ↦
          let claim =
            try_claim_inbox_message opportunity_inbox_consumer_id row.message_id db.inbox in
          if claim.0
          then handled (deliver_decision max_attempts row decision (record db { inbox = claim.1 }))
          else if goes_on
          then handled (finish_duplicate_inbox_delivery max_attempts row decision db)
          else threw
    ]

-- `UPDATE ... WHERE id = ... AND processed_at IS NULL AND relay_dead_letter_at IS NULL`.
abbrev pub if_open : (OutboxRow → OutboxRow) → OutboxRow → OutboxRow
if_open f r = if is_open r then f r else r

abbrev pub next_attempt : OutboxRow → OutboxRow
next_attempt r = record r { relay_delivery_attempts = r.relay_delivery_attempts + 1 }

-- The attempts that the UPDATE returns, of the row if it is open.
unfoldable pub returned_attempts : ℕ → List OutboxRow → Option ℕ
returned_attempts i [] = none
returned_attempts i (r ∷ rows) =
    let rest = returned_attempts i rows in
    if r.id == i && is_open r then some (r.relay_delivery_attempts + 1) else rest

-- `finalizePaperPromotionRelayAttempt`. `read_attempts` is what `raw[0]?.attempts ?? 0` finds in the
-- answer of the query.
unfoldable pub finalize_paper_promotion_relay_attempt :
    (Option ℕ → ℕ) → ℕ → ℕ → Bool → List OutboxRow → List OutboxRow
unfolding update_row returned_attempts
finalize_paper_promotion_relay_attempt read_attempts max_attempts i true outbox =
    update_row i (if_open mark_processed) outbox
finalize_paper_promotion_relay_attempt read_attempts max_attempts i false outbox =
    let rows : List OutboxRow = update_row i (if_open next_attempt) outbox in
    if leb max_attempts (read_attempts (returned_attempts i outbox))
    then update_row i mark_dead_letter rows
    else rows

-- The settings, the HTTP client, and what the driver answers.
pub record Relay : Type 0 where
  pub max_opportunity_attempts : ℕ
  pub max_paper_promotion_attempts : ℕ
  pub goes_on : Bool
  pub read_attempts : Option ℕ → ℕ
  pub enqueue_promotion_candidate : PaperPromotion → Bool

-- One round of `processBatchInner` on a row. The paper promotion is posted between two transactions.
unfoldable pub process_row : Relay → OutboxRow → RelayDb → Step
unfolding str_eq parse_paper_promotion_payload update_row finalize_paper_promotion_relay_attempt
    dispatch_locked_row
process_row relay row db =
    if str_eq row.event_type paper_promotion_candidate_requested
    then (elim (parse_paper_promotion_payload row.payload) [
      | none ↦ handled (put_outbox (update_row row.id mark_dead_letter db.outbox) db)
      | some payload ↦ handled (
          put_outbox
            (finalize_paper_promotion_relay_attempt relay.read_attempts
              relay.max_paper_promotion_attempts row.id (relay.enqueue_promotion_candidate payload)
              db.outbox)
            db)
    ])
    else dispatch_locked_row relay.goes_on relay.max_opportunity_attempts row db

abbrev pub first_row : Relay → List OutboxRow → RelayDb → Step
unfolding process_row
first_row relay [] db = empty
first_row relay (row ∷ rest) db = process_row relay row db

unfoldable pub process_next : Relay → RelayDb → Step
unfolding fetch_locked_outbox_batch process_row
process_next relay db =
    first_row relay (fetch_locked_outbox_batch 1 relay_outbox_event_types db.outbox) db

-- `processBatchInner`: up to `max_rows` rounds. An exception ends it.
unfoldable pub process_batch : Relay → ℕ → RelayDb → RelayDb
unfolding process_next
process_batch relay zero db = db
process_batch relay (suc n) db = elim (process_next relay db) [
  | empty ↦ db
  | threw ↦ db
  | handled db' ↦ process_batch relay n db'
]
