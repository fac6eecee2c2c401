-- ===== src/Legs/Fill.antt =====
-- `markAcknowledged` and `applyFill` of legs.service.ts, and `afterLegFullyFilled` of
-- fill-outbound.service.ts.
use arbibot.Base.{
  ℕ, String, Bool, true, false, ◌&&◌, Option, none, some, List, [], ◌∷◌, ◌++◌, str_eq, leb, ltb,
  ◌==◌, any, get_or, non_empty, if◌then◌else◌,
}
use arbibot.Json.{num, str, obj, Fields, field, end, text_or_null, num_or_null}
use arbibot.Store.Types.{
  Plan, Leg, LegState, sent, acknowledged, partially_filled, filled, OnChainTx, OutboxEvent,
  leg_filled, FillKey, World, Call, mark_leg_acknowledged, apply_fill,
}
use arbibot.Store.Outcome.{not_found, conflict, bad_request, Result, ok, err}
use arbibot.Store.Exec.{
  Exec, pure, ◌>>=◌, ◌>>◌, gets, modify, require, check, answer, transaction, find_plan, put_leg,
  put_event, record_audit,
}
use arbibot.Plans.Lifecycle.{trimmed_correlation, is_filled, try_mark_plan_completed}
use arbibot.Legs.Playbook.{resolve_instrument_key, read_leg_token_in}
use arbibot.Legs.Send.{find_leg_of_plan, move_leg, is_confirmed}

abbrev pub is_sent : LegState → Bool
is_sent sent = true
is_sent _ = false

unfoldable pub mark_acknowledged : Call → String → String → Exec Leg
mark_acknowledged call plan_id leg_id = transaction do
  found ← gets (find_plan plan_id)
  require found not_found
  found_leg ← gets (find_leg_of_plan plan_id leg_id)
  leg ← require found_leg not_found
  check (is_sent leg.state) conflict
  let saved = move_leg call acknowledged leg
  modify (put_leg saved)
  modify (record_audit mark_leg_acknowledged saved.id (some saved.entity_version))
  pure saved

pub data FillMode : Type 0 where
  full partial : FillMode

-- `ApplyFillDto`.
pub record ApplyFill : Type 0 where
  pub idempotency_key : Option String
  pub client_known_version : Option ℕ
  pub mode : Option FillMode
  pub cumulative_filled : Option ℕ

-- A key that is given and not empty.
unfoldable pub usable_key : Option String → Option String
unfolding non_empty
usable_key none = none
usable_key (some k) = if non_empty k then some k else none

-- `where: { legId, idempotencyKey }`.
unfoldable pub fill_seen : String → String → List FillKey → Bool
unfolding any str_eq
fill_seen leg_id key fills = any (λ f. str_eq f.leg_id leg_id && str_eq f.idempotency_key key) fills

abbrev pub key_seen : String → Option String → List FillKey → Bool
key_seen leg_id none fills = false
key_seen leg_id (some key) fills = fill_seen leg_id key fills

abbrev pub version_agrees : Option ℕ → ℕ → Bool
version_agrees none v = true
version_agrees (some c) v = c == v

-- The version in `auditIdempotencyKey`, which has none where the request has a usable key.
fill_audit_version : ApplyFill → Option ℕ
unfolding usable_key
fill_audit_version dto = elim (usable_key dto.idempotency_key) [
  | some k ↦ none
  | none ↦ dto.client_known_version
]

abbrev pub may_fill : LegState → Bool
may_fill acknowledged = true
may_fill partially_filled = true
may_fill _ = false

-- The next quantity and state of the leg.
unfoldable pub next_fill : ApplyFill → Leg → Result (ℕ × LegState)
next_fill dto leg = elim (get_or dto.mode full) [
  | full ↦ ok (leg.target_quantity, filled)
  | partial ↦ elim dto.cumulative_filled [
    | none ↦ err bad_request
    | some c ↦
        if leb c leg.filled_quantity
        then err conflict
        else if ltb leg.target_quantity c
        then err conflict
        else ok (c, if leb leg.target_quantity c then filled else partially_filled)
  ]
]

-- The last row that passes a test: `order: { createdAt: 'DESC' }` over rows in order of creation.
unfoldable pub find_last {ℓ} : {A : Type ℓ} → (A → Bool) → List A → Option A
find_last p [] = none
find_last p (x ∷ xs) = elim (find_last p xs) [
  | some y ↦ some y
  | none ↦ if p x then some x else none
]

unfoldable pub confirmed_tx : String → List OnChainTx → Option OnChainTx
unfolding find_last str_eq
confirmed_tx leg_id txs = find_last (λ t. str_eq t.leg_id leg_id && is_confirmed t.status) txs

-- The `dex` part of the LegFilled payload, where the leg has a confirmed transaction.
dex_fields : Option OnChainTx → Fields
dex_fields none = end
dex_fields (some t) =
    field "dex"
      (obj (
        field "txHash" (str t.tx_hash) (
          field "chainId" (num t.chain_id) (
            field "gasUsed" (text_or_null t.gas_used) (
              field "effectiveGasPrice" (text_or_null t.gas_price) (
                field "blockNumber" (num_or_null t.block_number) (
                  field "fromAddress" (str t.from_address)
                    (field "toAddress" (str t.to_address) end))))))))
      end

unfoldable pub filled_event : Call → Plan → Leg → Option OnChainTx → OutboxEvent
unfolding dex_fields trimmed_correlation
filled_event call plan leg tx = record {
  message_id = call.uuid;
  event_type = leg_filled;
  entity_id = leg.id;
  schema_version = 2;
  payload = obj (
      field "legId" (str leg.id) (
        field "planId" (str leg.plan_id) (
          field "state" (str "filled") (
            field "filledQuantity" (num leg.filled_quantity)
              (field "entityVersion" (num leg.entity_version) (dex_fields tx))))));
  envelope_correlation_id = trimmed_correlation plan;
  created_at = call.now;
  processed_at = none;
}

-- `LegFilledSettlementArgs`, as far as `applyFill` fills it in.
pub record Settlement : Type 0 where
  pub instrument_key : String
  pub chain_id : Option ℕ
  pub token_in : Option String

insert_fill_key : Leg → Option String → World → World
insert_fill_key leg none w = w
insert_fill_key leg (some key) w = record w {
  db = record w.db {
    fills =
        w.fills
        ++ record {
          leg_id = leg.id;
          idempotency_key = key;
          resulting_state = leg.state;
          resulting_filled_quantity = leg.filled_quantity;
          resulting_entity_version = leg.entity_version;
        }
          ∷ [];
  };
}

-- The event of a leg that is now filled, and what the settlement after the commit needs.
announce_fill : Call → Plan → Leg → Exec (Option Settlement)
unfolding confirmed_tx filled_event resolve_instrument_key read_leg_token_in
announce_fill call plan leg =
    if is_filled leg.state
    then (do
      tx ← gets (λ w. confirmed_tx leg.id w.txs)
      modify (put_event (filled_event call plan leg tx))
      pure (
          some (record {
            instrument_key = resolve_instrument_key plan;
            chain_id = elim tx [ none ↦ none | some t ↦ some t.chain_id ];
            token_in = read_leg_token_in plan.playbook_config leg.leg_index;
          })))
    else pure none

fill_leg : Call → Plan → Leg → ApplyFill → Exec (Leg × Option Settlement)
unfolding next_fill insert_fill_key announce_fill usable_key fill_audit_version
fill_leg call plan leg dto = do
  check (version_agrees dto.client_known_version leg.entity_version) conflict
  check (may_fill leg.state) conflict
  next ← answer (next_fill dto leg)
  let saved : Leg = record (move_leg call next.1 leg) { filled_quantity = next.0 }
  modify (put_leg saved)
  modify (insert_fill_key saved (usable_key dto.idempotency_key))
  settlement ← announce_fill call plan saved
  modify (record_audit apply_fill saved.id (fill_audit_version dto))
  pure (saved, settlement)

-- The transaction of `applyFill`. The leg is locked, so the key that was not there at the check is
-- not there at the insert either.
unfoldable pub apply_fill_tx : Call → String → String → ApplyFill → Exec (Leg × Option Settlement)
unfolding fill_leg fill_seen usable_key
apply_fill_tx call plan_id leg_id dto = transaction do
  found ← gets (find_plan plan_id)
  plan ← require found not_found
  found_leg ← gets (find_leg_of_plan plan_id leg_id)
  leg ← require found_leg not_found
  seen ← gets (λ w. key_seen leg_id (usable_key dto.idempotency_key) w.fills)
  if seen then pure (leg, none) else fill_leg call plan leg dto

-- `afterLegFullyFilled`: the plan is completed if this was its last leg.
after_leg_fully_filled : Call → String → Exec (Unit {0})
unfolding try_mark_plan_completed
after_leg_fully_filled call plan_id = do try_mark_plan_completed call plan_id; pure tt

-- `applyFill`. `others` is what other requests commit between its two transactions.
unfoldable pub apply_fill_to_leg : Call → (World → World) → String → String → ApplyFill → Exec Leg
unfolding apply_fill_tx after_leg_fully_filled
apply_fill_to_leg call others plan_id leg_id dto = do
  result ← apply_fill_tx call plan_id leg_id dto
  modify others
  elim result.1 [
    | none ↦ pure result.0
    | some settlement ↦ do after_leg_fully_filled call plan_id; pure result.0
  ]
