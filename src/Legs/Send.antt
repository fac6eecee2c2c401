-- ===== src/Legs/Send.antt =====
-- `markSent` of legs.service.ts in its three phases, with on-chain-transaction.service.ts and
-- dex-outbox-events.service.ts. Each phase is one transaction; the broadcast lies between them.
use arbibot.Base.{
  ℕ, ◌+◌, String, Bool, true, false, not, ◌&&◌, Option, none, some, [], ◌∷◌, ◌++◌, str_eq, any,
  find_by, get_or, if◌then◌else◌,
}
use arbibot.Json.{Fields, Json, null, num, str, obj, field, end, text_or_null, num_or_null}
use arbibot.Store.Types.{
  Plan, Leg, LegState, created, submitting, sent, leg_failed, rejected, timed_out, OnChainTx,
  TxStatus, confirmed, OutboxEvent, EventName, dex_tx_confirmed, dex_tx_failed, World, Call,
  mark_leg_sent, mark_leg_sent_fail, mark_leg_sent_terminal,
}
use arbibot.Store.Outcome.{not_found, conflict, unprocessable, service_unavailable}
use arbibot.Store.Exec.{
  Exec, pure, raise, ◌>>=◌, ◌>>◌, gets, modify, require, check, transaction, find_plan, put_leg,
  put_event, record_audit,
}
use arbibot.Plans.Lifecycle.{is_executing}
use arbibot.Legs.Cost.{is_live_leg}

-- `em.findOne(ExecutionLegEntity, { where: { id: legId, planId } })`.
unfoldable pub find_leg_of_plan : String → String → World → Option Leg
unfolding str_eq find_by
find_leg_of_plan plan_id leg_id w =
    find_by (λ l. str_eq l.id leg_id && str_eq l.plan_id plan_id) w.legs

abbrev pub is_created : LegState → Bool
is_created created = true
is_created _ = false

abbrev pub is_submitting : LegState → Bool
is_submitting submitting = true
is_submitting _ = false

-- The leg's next version in another state.
abbrev pub move_leg : Call → LegState → Leg → Leg
move_leg call state leg = record leg {
  state = state;
  entity_version = leg.entity_version + 1;
  updated_at = call.now;
}

-- Phase 1, `beginMarkSent`. `halted` is the answer of the kill switch.
unfoldable pub begin_mark_sent : Bool → Call → String → String → Exec (Plan × Leg)
begin_mark_sent halted call plan_id leg_id = transaction do
  found ← gets (find_plan plan_id)
  plan ← require found not_found
  check (is_executing plan.state) conflict
  found_leg ← gets (find_leg_of_plan plan_id leg_id)
  leg ← require found_leg not_found
  check (is_created leg.state) conflict
  check (not (is_live_leg plan leg && halted)) conflict
  let reserved_leg = move_leg call submitting leg
  modify (put_leg reserved_leg)
  pure (plan, reserved_leg)

-- `VenueOnChainMeta`: what an adapter says of the transaction that it broadcast.
pub record OnChainMeta : Type 0 where
  pub tx_hash : String
  pub chain_id : ℕ
  pub from_address : String
  pub to_address : String
  pub gas_used : Option String
  pub gas_price : Option String
  pub block_number : Option ℕ
  pub status : TxStatus
  pub revert_reason : Option String

-- `VenueLegTerminalState`.
pub data TerminalState : Type 0 where
  venue_rejected venue_timed_out venue_failed : TerminalState

abbrev pub terminal_leg_state : TerminalState → LegState
terminal_leg_state venue_rejected = rejected
terminal_leg_state venue_timed_out = timed_out
terminal_leg_state venue_failed = leg_failed

-- How phase 2 ends: an order id, or what was thrown.
pub data Submission : Type 0 where
  accepted : String → Option OnChainMeta → Submission
  terminal_error : TerminalState → Submission
  client_error : Submission
  other_error : Submission

abbrev pub is_confirmed : TxStatus → Bool
is_confirmed confirmed = true
is_confirmed _ = false

-- The row of `persistWithOutcome`.
unfoldable pub on_chain_row : Call → String → OnChainMeta → OnChainTx
on_chain_row call leg_id meta = record {
  tx_hash = meta.tx_hash;
  chain_id = meta.chain_id;
  leg_id = leg_id;
  from_address = meta.from_address;
  to_address = meta.to_address;
  gas_used = meta.gas_used;
  gas_price = meta.gas_price;
  block_number = meta.block_number;
  status = meta.status;
  revert_reason = meta.revert_reason;
  confirmations = 0;
  confirmed_at = if is_confirmed meta.status then some call.now else none;
}

abbrev pub insert_tx : OnChainTx → World → World
insert_tx t w = record w { db = record w.db { txs = w.txs ++ t ∷ [] } }

-- `persistWithOutcome`: a hash that is there already is not written again.
unfoldable pub persist_with_outcome : Call → String → OnChainMeta → Exec OnChainTx
unfolding on_chain_row find_by str_eq
persist_with_outcome call leg_id meta = do
  existing ← gets (λ w. find_by (λ t. str_eq t.tx_hash meta.tx_hash) w.txs)
  elim existing [
    | some t ↦ pure t
    | none ↦ let row = on_chain_row call leg_id meta in do modify (insert_tx row); pure row
  ]

-- `buildConfirmedPayload` and `buildFailedPayload`. A time is its number of milliseconds.
tx_payload : Call → OnChainTx → Json
tx_payload call t =
    let common = λ (rest : Fields). field "txHash" (str t.tx_hash) (
      field "chainId" (num t.chain_id) (
        field "legId" (str t.leg_id) (
          field "planId" null (
            field "blockNumber" (num_or_null t.block_number) (
              field "gasUsed" (text_or_null t.gas_used)
                (field "effectiveGasPrice" (text_or_null t.gas_price) rest)))))) in
    if is_confirmed t.status
    then obj (
        common (
          field "confirmations" (num t.confirmations)
            (field "confirmedAt" (num (get_or t.confirmed_at call.now)) end)))
    else obj (
        common (
          field "revertReason" (text_or_null t.revert_reason)
            (field "errorMessage" null (field "failedAt" (num call.now) end))))

abbrev pub tx_event_name : TxStatus → EventName
tx_event_name confirmed = dex_tx_confirmed
tx_event_name _ = dex_tx_failed

abbrev pub is_dex_tx_confirmed : EventName → Bool
is_dex_tx_confirmed dex_tx_confirmed = true
is_dex_tx_confirmed _ = false

abbrev pub is_dex_tx_failed : EventName → Bool
is_dex_tx_failed dex_tx_failed = true
is_dex_tx_failed _ = false

-- `where: { eventType, entityId: tx.txHash }` of `writeOutboxRow`.
unfoldable pub same_tx_event : OnChainTx → OutboxEvent → Bool
unfolding str_eq
same_tx_event t e =
    (if is_confirmed t.status
      then is_dex_tx_confirmed e.event_type
      else is_dex_tx_failed e.event_type)
    && str_eq e.entity_id t.tx_hash

-- The row of `writeOutboxRow`.
unfoldable pub tx_event : Call → String → OnChainTx → OutboxEvent
unfolding tx_payload
tx_event call correlation t = record {
  message_id = call.uuid;
  event_type = tx_event_name t.status;
  entity_id = t.tx_hash;
  schema_version = 1;
  payload = tx_payload call t;
  envelope_correlation_id = correlation;
  created_at = call.now;
  processed_at = none;
}

-- `emitConfirmed` and `emitFailed`: an event that is there already is not written again.
unfoldable pub emit_tx_event : Call → String → OnChainTx → World → World
unfolding tx_event same_tx_event any
emit_tx_event call correlation t w =
    if any (same_tx_event t) w.outbox then w else put_event (tx_event call correlation t) w

record_on_chain : Call → String → String → Option OnChainMeta → Exec (Unit {0})
unfolding persist_with_outcome emit_tx_event
record_on_chain call correlation leg_id none = pure tt
record_on_chain call correlation leg_id (some meta) = do
  t ← persist_with_outcome call leg_id meta
  modify (emit_tx_event call correlation t)

complete_leg : Call → String → String → Option OnChainMeta → Leg → Exec Leg
unfolding record_on_chain
complete_leg call correlation order meta leg =
    if is_submitting leg.state
    then (let saved : Leg = record (move_leg call sent leg) { venue_ref = some order } in
        do modify (put_leg saved); record_on_chain call correlation leg.id meta; pure saved)
    else pure leg

-- Phase 3, `completeMarkSent`.
unfoldable pub complete_mark_sent :
    Call → String → String → Option String → String → Option OnChainMeta → Exec Leg
unfolding complete_leg
complete_mark_sent call plan_id leg_id correlation order meta = do
  saved ← transaction (do
    found ← gets (find_leg_of_plan plan_id leg_id)
    leg ← require found not_found
    complete_leg call (get_or correlation plan_id) order meta leg)
  modify (record_audit mark_leg_sent saved.id (some saved.entity_version))
  pure saved

-- `failSubmittingLeg`.
fail_found_leg : Call → Option Leg → Exec (Unit {0})
fail_found_leg call none = pure tt
fail_found_leg call (some leg) =
    if is_submitting leg.state
    then (let saved = move_leg call leg_failed leg in
        do
          modify (put_leg saved)
          modify (record_audit mark_leg_sent_fail saved.id (some saved.entity_version)))
    else pure tt

unfoldable pub fail_submitting_leg : Call → String → String → Exec (Unit {0})
unfolding fail_found_leg
fail_submitting_leg call plan_id leg_id =
    transaction do found ← gets (find_leg_of_plan plan_id leg_id); fail_found_leg call found

terminate_leg : Call → TerminalState → Leg → Exec Leg
terminate_leg call state leg =
    if is_submitting leg.state
    then (let saved = move_leg call (terminal_leg_state state) leg in
        do modify (put_leg saved); pure saved)
    else pure leg

-- `applyTerminalSubmitError`.
unfoldable pub apply_terminal_submit_error : Call → String → String → TerminalState → Exec Leg
unfolding terminate_leg
apply_terminal_submit_error call plan_id leg_id state = do
  saved ← transaction (do
    found ← gets (find_leg_of_plan plan_id leg_id)
    leg ← require found not_found
    terminate_leg call state leg)
  modify (record_audit mark_leg_sent_terminal saved.id (some saved.entity_version))
  pure saved

-- The venue, the bridge and the kill switch as `markSent` meets them. `bridge_params` is
-- `extractBridgeParams(...)` being found; `submit_bridge` is the rest of the bridge branch.
pub record SendEnv : Type 0 where
  pub live_halted : Bool
  pub submit_leg : Plan → Leg → Submission
  pub bridge_params : Plan → Leg → Bool
  pub submit_bridge : Plan → Leg → Submission

-- The `catch` of `markSent` and phase 3. The exception that the bridge branch throws for missing
-- params is raised inside the `try`, so it is caught here as any other error.
unfoldable pub finish_mark_sent : Call → String → String → Option String → Submission → Exec Leg
unfolding complete_mark_sent fail_submitting_leg apply_terminal_submit_error
finish_mark_sent call plan_id leg_id correlation (accepted order meta) =
    complete_mark_sent call plan_id leg_id correlation order meta
finish_mark_sent call plan_id leg_id correlation (terminal_error state) =
    apply_terminal_submit_error call plan_id leg_id state
finish_mark_sent call plan_id leg_id correlation client_error = do
  fail_submitting_leg call plan_id leg_id
  raise unprocessable
finish_mark_sent call plan_id leg_id correlation other_error = raise service_unavailable

unfoldable pub submit_bridge_leg : SendEnv → Call → Plan → Leg → String → String → Exec Submission
unfolding fail_submitting_leg
submit_bridge_leg env call plan leg plan_id leg_id =
    if env.bridge_params plan leg
    then pure (env.submit_bridge plan leg)
    else do fail_submitting_leg call plan_id leg_id; pure other_error

-- `markSent`. `others` is what other requests and workers commit during the broadcast.
unfoldable pub mark_sent : SendEnv → Call → (World → World) → String → String → Exec Leg
unfolding begin_mark_sent submit_bridge_leg finish_mark_sent
mark_sent env call others plan_id leg_id = do
  begun ← begin_mark_sent env.live_halted call plan_id leg_id
  let plan = begun.0
  let leg = begun.1
  outcome ←
      (if str_eq leg.leg_type "bridge"
        then submit_bridge_leg env call plan leg plan_id leg_id
        else pure (env.submit_leg plan leg))
  modify others
  finish_mark_sent call plan_id leg_id plan.correlation_id outcome
