-- ===== src/Messaging.antt =====
-- packages/messaging/src: outbox-poll.ts and inbox.ts, over the rows of outbox_events and inbox_events.
pub mod Polling
use arbibot.Base.{
  ℕ, zero, suc, ◌+◌, String, Bool, true, false, not, ◌&&◌, ◌||◌, Option, none, some, List, [], ◌∷◌,
  ◌++◌, map, any, keep, take, str_eq, includes, ltb, ◌==◌, if◌then◌else◌,
}
use arbibot.Json.{Json}
use arbibot.Portfolio.Decimal.{to_digits}

-- `OutboxEventEntity` as a relay reads it; the time of a mark is not modelled, only that it is set.
pub record OutboxRow : Type 0 where
  pub id : ℕ
  pub message_id : String
  pub event_type : String
  pub payload : Json
  pub processed : Bool
  pub dead_letter : Bool
  pub relay_delivery_attempts : ℕ

-- `InboxEventEntity`, unique on (consumer_id, message_id).
pub record InboxRow : Type 0 where
  pub consumer_id : String
  pub message_id : String

-- `WHERE processed_at IS NULL AND relay_dead_letter_at IS NULL AND event_type = ANY(...)`.
abbrev pub is_open : OutboxRow → Bool
is_open r = not r.processed && not r.dead_letter

unfoldable pub eligible : List String → OutboxRow → Bool
unfolding includes
eligible event_types r = is_open r && includes r.event_type event_types

-- The order of texts.
unfoldable pub text_before : List ℕ → List ℕ → Bool
text_before [] t = true
text_before (c ∷ s) [] = false
text_before (c ∷ s) (d ∷ t) = let rest = text_before s t in if c == d then rest else ltb c d

-- `ORDER BY id`: the name is the output column `id::text` of the query, so the digits are compared.
unfoldable pub id_before : OutboxRow → OutboxRow → Bool
unfolding to_digits text_before
id_before r s = text_before (to_digits r.id) (to_digits s.id)

unfoldable pub insert_row : OutboxRow → List OutboxRow → List OutboxRow
unfolding id_before
insert_row r [] = r ∷ []
insert_row r (s ∷ rows) =
    let rest = insert_row r rows in if id_before r s then r ∷ s ∷ rows else s ∷ rest

unfoldable pub order_by_id : List OutboxRow → List OutboxRow
unfolding insert_row
order_by_id [] = []
order_by_id (r ∷ rows) = insert_row r (order_by_id rows)

-- `fetchLockedOutboxBatch`, where no other transaction holds a lock.
unfoldable pub fetch_locked_outbox_batch : ℕ → List String → List OutboxRow → List OutboxRow
unfolding keep eligible order_by_id take
fetch_locked_outbox_batch limit [] rows = []
fetch_locked_outbox_batch limit (t ∷ types) rows =
    take limit (order_by_id (keep (eligible (t ∷ types)) rows))

-- `em.update(OutboxEventEntity, { id }, ...)`.
unfoldable pub update_row : ℕ → (OutboxRow → OutboxRow) → List OutboxRow → List OutboxRow
update_row i f [] = []
update_row i f (r ∷ rows) = (if r.id == i then f r else r) ∷ update_row i f rows

unfoldable pub same_message : String → String → InboxRow → Bool
unfolding str_eq
same_message consumer message r = str_eq r.consumer_id consumer && str_eq r.message_id message

-- `tryClaimInboxMessage`: the insert, or `false` where the unique constraint refuses it.
unfoldable pub try_claim_inbox_message : String → String → List InboxRow → Bool × List InboxRow
unfolding any same_message
try_claim_inbox_message consumer message inbox =
    if any (same_message consumer message) inbox
    then (false, inbox)
    else (true, inbox ++ record { consumer_id = consumer; message_id = message } ∷ [])
