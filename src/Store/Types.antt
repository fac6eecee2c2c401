-- ===== src/Store/Types.antt =====
-- Rows of execution_plans, execution_legs, on_chain_transactions, outbox_events and
-- execution_leg_fill_idempotency, and the record of audit calls.
use arbibot.Base.Int.{ℤ}
use arbibot.Base.{ℕ, String, Option, List}
use arbibot.Json.{Json}

-- `state: string` of an execution plan: the values that the services write. Comments also name
-- `canceled`, which no service writes.
pub data PlanState : Type 0 where
  planned reserved armed executing completed failed canceled : PlanState

pub data LegState : Type 0 where
  created submitting sent acknowledged partially_filled filled : LegState
  leg_failed rejected timed_out leg_canceled : LegState

-- cost-breakdown.types.ts, in millionths of a dollar. Profits may be negative.
pub data EstimateConfidence : Type 0 where
  exact modeled unavailable : EstimateConfidence

pub record LegCostBreakdown : Type 0 where
  pub leg_index : ℕ
  pub leg_type : String
  pub gas_usd : ℕ
  pub slippage_bps : ℕ
  pub pool_fee_usd : ℕ
  pub bridge_fee_usd : ℕ
  pub total_cost_usd : ℕ
  pub estimate_confidence : EstimateConfidence

pub record PlanCostBreakdown : Type 0 where
  pub legs : List LegCostBreakdown
  pub net_profit_usd : Option ℤ
  pub estimate_confidence : EstimateConfidence

pub record Plan : Type 0 where
  pub id : String
  pub correlation_id : Option String
  pub state : PlanState
  pub capital_reservation_id : Option String
  pub risk_decision_id : Option String
  pub route_key : Option String
  pub entity_version : ℕ
  pub playbook_config : Option Json
  pub cost_breakdown : Option PlanCostBreakdown
  pub updated_at : ℕ

-- Pre-trade cost columns of a leg, in millionths of a dollar.
pub record LegCost : Type 0 where
  pub estimated_gas_usd : ℕ
  pub slippage_bps : Option ℕ
  pub pool_fee_usd : Option ℕ
  pub bridge_fee_usd : Option ℕ
  pub total_cost_usd : ℕ
  pub cost_confidence : EstimateConfidence

-- Quantities are counted in one fixed small unit: the code only compares and copies them.
pub record Leg : Type 0 where
  pub id : String
  pub plan_id : String
  pub leg_index : ℕ
  pub state : LegState
  pub entity_version : ℕ
  pub venue_ref : Option String
  pub leg_type : String
  pub chain_id : Option ℕ
  pub target_quantity : ℕ
  pub filled_quantity : ℕ
  pub cost : Option LegCost
  pub updated_at : ℕ

pub data TxStatus : Type 0 where
  pending confirmed tx_failed reverted : TxStatus

-- The columns of on_chain_transactions that the modelled code reads.
pub record OnChainTx : Type 0 where
  pub tx_hash : String
  pub chain_id : ℕ
  pub leg_id : String
  pub from_address : String
  pub to_address : String
  pub gas_used : Option String
  pub gas_price : Option String
  pub block_number : Option ℕ
  pub status : TxStatus
  pub revert_reason : Option String
  pub confirmations : ℕ
  pub confirmed_at : Option ℕ

-- EVENT_NAMES of packages/contracts that the orchestrator writes.
pub data EventName : Type 0 where
  plan_armed plan_completed plan_failed leg_filled dex_tx_confirmed dex_tx_failed : EventName

pub record OutboxEvent : Type 0 where
  pub message_id : String
  pub event_type : EventName
  pub entity_id : String
  pub schema_version : ℕ
  pub payload : Json
  pub envelope_correlation_id : String
  pub created_at : ℕ
  pub processed_at : Option ℕ

-- execution_leg_fill_idempotency, unique on (leg_id, idempotency_key).
pub record FillKey : Type 0 where
  pub leg_id : String
  pub idempotency_key : String
  pub resulting_state : LegState
  pub resulting_filled_quantity : ℕ
  pub resulting_entity_version : ℕ

pub data AuditAction : Type 0 where
  link_reservation arm_plan mark_plan_completed mark_plan_failed begin_execution : AuditAction
  mark_leg_sent mark_leg_sent_fail mark_leg_sent_terminal mark_leg_acknowledged : AuditAction
  apply_fill create_multi_leg_plan : AuditAction

-- An `audit.record` call. It leaves the process at once, so a rollback does not take it back.
-- `version` is the `:v…` that most idempotency keys end in.
pub record AuditEntry : Type 0 where
  pub action : AuditAction
  pub resource_id : String
  pub version : Option ℕ

pub record Db : Type 0 where
  pub plans : List Plan
  pub legs : List Leg
  pub txs : List OnChainTx
  pub outbox : List OutboxEvent
  pub fills : List FillKey

pub record World : Type 0 where
  pub db : Db
  pub open db use *
  pub audit : List AuditEntry

abbrev pub plan_key : Plan → String
plan_key p = p.id

abbrev pub leg_key : Leg → String
leg_key l = l.id

-- What one call reads from outside: the clock and `randomUUID()`.
pub record Call : Type 0 where
  pub now : ℕ
  pub uuid : String
