-- ===== src/OpportunityRelay/Delivery.antt =====
-- What a risk decision that the relay of opportunity-service delivers does to its opportunity.
use arbibot.Base.{
  ℕ, String, ◌≡◌, refl, ◌∙◌, Bool, true, false, none, List, [], ◌∷◌, ◌++◌, any, keep, count,
  find_key, str_eq_iff, Bool-cases, inl, inr, arith,
}
use arbibot.Messaging.{OutboxRow, InboxRow, same_message, try_claim_inbox_message}
use arbibot.OpportunityRelay.{
  RelayDb, IssuedDecision, retry_or_bury, put_outbox, opportunity_key, deliver_decision,
  release_inbox_claim, opportunity_inbox_consumer_id,
}

pub any-count : (p : InboxRow → Bool) (rows : List InboxRow) → any p rows ≡ false → count p rows ≡ 0
unfolding any count
any-count p [] h = refl
any-count p (x ∷ rows) h = ground (arith, any-count p rows)

abbrev pub claim_of : String → InboxRow
claim_of message = record { consumer_id = opportunity_inbox_consumer_id; message_id = message }

keep-claim :
    (message : String) (inbox : List InboxRow)
    → any (same_message opportunity_inbox_consumer_id message) inbox ≡ false
    → release_inbox_claim message (inbox ++ claim_of message ∷ []) ≡ inbox
unfolding release_inbox_claim any keep same_message
keep-claim message [] h = ground (
  arith,
  str_eq_iff opportunity_inbox_consumer_id opportunity_inbox_consumer_id,
  str_eq_iff message message,
)
keep-claim message (x ∷ inbox) h = ground (arith, keep-claim message inbox)

pub claimed_now :
    (message : String) (inbox : List InboxRow)
    → (try_claim_inbox_message opportunity_inbox_consumer_id message inbox).0 ≡ true
    → (any (same_message opportunity_inbox_consumer_id message) inbox ≡ false)
      × ((try_claim_inbox_message opportunity_inbox_consumer_id message inbox).1
          ≡ inbox ++ claim_of message ∷ [])
unfolding try_claim_inbox_message
claimed_now message inbox h =
    elim (Bool-cases (any (same_message opportunity_inbox_consumer_id message) inbox)) [
      | inl there ↦ absurd (ground arith)
      | inr new_one ↦ (new_one, ground arith)
    ]

deliver_missing :
    (k : ℕ) (row : OutboxRow) (decision : IssuedDecision) (db : RelayDb)
    → find_key opportunity_key decision.plan_reference db.opportunities ≡ none
    → deliver_decision k row decision db ≡ record {
      outbox = retry_or_bury k row db.outbox;
      inbox = release_inbox_claim row.message_id db.inbox;
      opportunities = db.opportunities;
    }
unfolding deliver_decision
deliver_missing k row decision db missing = ground (arith, missing)

pub deliver_missing_claimed :
    (k : ℕ) (row : OutboxRow) (decision : IssuedDecision) (db : RelayDb)
    → any (same_message opportunity_inbox_consumer_id row.message_id) db.inbox ≡ false
    → find_key opportunity_key decision.plan_reference db.opportunities ≡ none
    → deliver_decision k row decision
        (record db { inbox = db.inbox ++ claim_of row.message_id ∷ [] })
      ≡ put_outbox (retry_or_bury k row db.outbox) db
deliver_missing_claimed k row decision db new_one missing =
    deliver_missing k row decision (record db { inbox = db.inbox ++ claim_of row.message_id ∷ [] })
      missing
    ∙ (λ i. record {
      outbox = retry_or_bury k row db.outbox;
      inbox = keep-claim row.message_id db.inbox new_one i;
      opportunities = db.opportunities;
    })
