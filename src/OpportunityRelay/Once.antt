-- ===== src/OpportunityRelay/Once.antt =====
-- The relay of opportunity-service applies each message once.
use arbibot.Base.{
  subst, ℕ, zero, suc, ◌+◌, ◌≤◌, String, ◌≡◌, refl, sym, ap, Bool, false, some, List, [], ◌∷◌, ◌++◌,
  any, count, count-append, length, length-append, sum_of, find_key, find_key-Occurs, save_row,
  sum_of-save_row, rows_under, rows_under-save_row, str_eq, str_eq_iff, Bool-cases, Option-cases,
  inl, inr, arith,
}
use arbibot.Messaging.{
  update_row, OutboxRow, InboxRow, fetch_locked_outbox_batch, same_message, try_claim_inbox_message,
}
use arbibot.OpportunityRelay.{
  put_outbox, mark_processed, RelayDb, Relay, Opportunity, IssuedDecision, Step, empty, threw,
  handled, apply_decision, decision_applied, opportunity_key, first_row, deliver_decision,
  finish_duplicate_inbox_delivery, dispatch_locked_row, process_row, process_next, process_batch,
  relay_outbox_event_types, parse_risk_decision_issued_payload, parse_paper_promotion_payload,
  opportunity_inbox_consumer_id, risk_decision_issued, paper_promotion_candidate_requested,
}
use arbibot.OpportunityRelay.Draining.{process_batches}
use arbibot.OpportunityRelay.Delivery.{any-count, claim_of, claimed_now, deliver_missing_claimed}

-- The keys of both tables hold: one opportunity per id, and one row of the inbox per consumer and message.
abbrev pub Keyed : RelayDb → Type 0
Keyed db =
    ((i : String) → rows_under opportunity_key i db.opportunities ≤ 1)
    × ((consumer message : String) → count (same_message consumer message) db.inbox ≤ 1)

-- The versions of all opportunities, summed.
unfoldable pub versions : RelayDb → ℕ
unfolding sum_of
versions db = sum_of (λ o. o.entity_version) db.opportunities

-- No version more than there are new claims.
abbrev Paid : RelayDb → RelayDb → Type 0
Paid db db' = Keyed db' × (versions db' + length db.inbox ≤ versions db + length db'.inbox)

abbrev StepPaid : RelayDb → Step → Type 0
StepPaid db empty = Unit
StepPaid db threw = Unit
StepPaid db (handled db') = Paid db db'

-- Where only the outbox changes.
outbox_only :
    (db db' : RelayDb)
    → Keyed db
    → db'.inbox ≡ db.inbox
    → db'.opportunities ≡ db.opportunities
    → Paid db db'
unfolding versions
outbox_only db db' keyed i o = (
  (
    subst (λ rows. (k : String) → rows_under opportunity_key k rows ≤ 1) (sym o) keyed.0,
    subst (λ rows. (c m : String) → count (same_message c m) rows ≤ 1) (sym i) keyed.1,
  ),
  omega (arith, ap (sum_of (λ x. x.entity_version)) o, ap length i),
)

one_claim :
    (message : String) (inbox : List InboxRow)
    → any (same_message opportunity_inbox_consumer_id message) inbox ≡ false
    → ((c m : String) → count (same_message c m) inbox ≤ 1)
    → (c m : String) → count (same_message c m) (inbox ++ claim_of message ∷ []) ≤ 1
unfolding count same_message
one_claim message inbox new_one few c m = elim (Bool-cases (same_message c m (claim_of message))) [
  | inl same ↦
      let its_consumer : opportunity_inbox_consumer_id ≡ c =
        (str_eq_iff opportunity_inbox_consumer_id c).0 (ground (arith, same)) in
      let its_message : message ≡ m = (str_eq_iff message m).0 (ground (arith, same)) in
      let nobody : count (same_message c m) inbox ≡ 0 =
        subst (λ x. count (same_message x m) inbox ≡ 0) its_consumer
          (subst (λ y. count (same_message opportunity_inbox_consumer_id y) inbox ≡ 0) its_message
            (any-count (same_message opportunity_inbox_consumer_id message) inbox new_one)) in
      ground (arith, nobody, same, count-append (same_message c m) inbox (claim_of message ∷ []))
  | inr other ↦
      ground (arith, other, few c m, count-append (same_message c m) inbox (claim_of message ∷ []))
]

same_id : (decision : IssuedDecision) (o : Opportunity) → (apply_decision decision o).id ≡ o.id
unfolding apply_decision
same_id decision o = refl

next_version :
    (decision : IssuedDecision) (o : Opportunity)
    → (apply_decision decision o).entity_version ≡ o.entity_version + 1
unfolding apply_decision
next_version decision o = refl

abbrev with_claim : String → RelayDb → RelayDb
with_claim message db = record db { inbox = db.inbox ++ claim_of message ∷ [] }

deliver_known-Paid :
    (k : ℕ) (row : OutboxRow) (decision : IssuedDecision) (db : RelayDb) (o : Opportunity)
    → Keyed db
    → any (same_message opportunity_inbox_consumer_id row.message_id) db.inbox ≡ false
    → find_key opportunity_key decision.plan_reference db.opportunities ≡ some o
    → Paid db (deliver_decision k row decision (with_claim row.message_id db))
unfolding deliver_decision versions
deliver_known-Paid k row decision db o keyed new_one found =
    let claims = one_claim row.message_id db.inbox new_one keyed.1 in
    let longer = length-append db.inbox (claim_of row.message_id ∷ []) in
    let there = find_key-Occurs opportunity_key decision.plan_reference db.opportunities found in
    elim (Bool-cases (decision_applied decision o)) [
      | inl applied ↦
          subst (Paid db)
            (sym (
              let e : deliver_decision k row decision (with_claim row.message_id db)
                  ≡ put_outbox (update_row row.id mark_processed db.outbox)
                      (with_claim row.message_id db) =
                ground (arith, found, applied) in
              e))
            ((keyed.0, claims), omega (arith, longer))
      | inr other ↦
          subst (Paid db)
            (sym (
              let e : deliver_decision k row decision (with_claim row.message_id db) ≡ record {
                outbox = update_row row.id mark_processed db.outbox;
                inbox = db.inbox ++ claim_of row.message_id ∷ [];
                opportunities =
                    save_row opportunity_key (apply_decision decision o) db.opportunities;
              } =
                ground (arith, found, other) in
              e))
            (
              (
                λ i.
                    subst (λ n. n ≤ 1)
                      (sym (
                        rows_under-save_row opportunity_key i (apply_decision decision o)
                          db.opportunities there (same_id decision o)))
                      (keyed.0 i),
                claims,
              ),
              omega (
                arith,
                longer,
                next_version decision o,
                sum_of-save_row opportunity_key (λ x. x.entity_version) o
                    (apply_decision decision o) db.opportunities there (same_id decision o)
                    (keyed.0 (apply_decision decision o).id),
              ),
            )
    ]

deliver-Paid :
    (k : ℕ) (row : OutboxRow) (decision : IssuedDecision) (db : RelayDb)
    → Keyed db
    → any (same_message opportunity_inbox_consumer_id row.message_id) db.inbox ≡ false
    → Paid db (deliver_decision k row decision (with_claim row.message_id db))
deliver-Paid k row decision db keyed new_one =
    elim (Option-cases (find_key opportunity_key decision.plan_reference db.opportunities)) [
      | inr (o, found) ↦ deliver_known-Paid k row decision db o keyed new_one found
      | inl missing ↦
          subst (Paid db) (sym (deliver_missing_claimed k row decision db new_one missing))
            (outbox_only db _ keyed refl refl)
    ]

finish_lem :
    (k : ℕ) (row : OutboxRow) (decision : IssuedDecision) (db : RelayDb)
    → ((finish_duplicate_inbox_delivery k row decision db).inbox ≡ db.inbox)
      × ((finish_duplicate_inbox_delivery k row decision db).opportunities ≡ db.opportunities)
unfolding finish_duplicate_inbox_delivery
finish_lem k row decision db =
    elim (Option-cases (find_key opportunity_key decision.plan_reference db.opportunities)) [
      | inl missing ↦ (ground (arith, missing), ground (arith, missing))
      | inr (o, found) ↦ elim (Bool-cases (decision_applied decision o)) [
        | inl applied ↦ (ground (arith, found, applied), ground (arith, found, applied))
        | inr other ↦ (ground (arith, found, other), ground (arith, found, other))
      ]
    ]

finish-Paid :
    (k : ℕ) (row : OutboxRow) (decision : IssuedDecision) (db : RelayDb)
    → Keyed db
    → Paid db (finish_duplicate_inbox_delivery k row decision db)
finish-Paid k row decision db keyed =
    let (i, o) = finish_lem k row decision db in
    outbox_only db (finish_duplicate_inbox_delivery k row decision db) keyed i o

dispatch-StepPaid :
    (goes_on : Bool) (k : ℕ) (row : OutboxRow) (db : RelayDb)
    → Keyed db
    → StepPaid db (dispatch_locked_row goes_on k row db)
unfolding dispatch_locked_row
dispatch-StepPaid goes_on k row db keyed =
    elim (Bool-cases (str_eq row.event_type risk_decision_issued)) [
      | inr other ↦ rw other (outbox_only db _ keyed refl refl)
      | inl risk ↦ elim (Option-cases (parse_risk_decision_issued_payload row.payload)) [
        | inl bad ↦ rw (risk, bad) (outbox_only db _ keyed refl refl)
        | inr (decision, parsed) ↦
            elim (Bool-cases
              (try_claim_inbox_message opportunity_inbox_consumer_id row.message_id db.inbox).0) [
                | inl claimed ↦
                    let (new_one, inbox_is) = claimed_now row.message_id db.inbox claimed in
                    rw (risk, parsed, claimed, inbox_is)
                      (deliver-Paid k row decision db keyed new_one)
                | inr refused ↦ elim (Bool-cases goes_on) [
                  | inl on ↦ rw (risk, parsed, refused, on) (finish-Paid k row decision db keyed)
                  | inr off ↦ rw (risk, parsed, refused, off) tt
                ]
              ]
      ]
    ]

process_row-StepPaid :
    (relay : Relay) (row : OutboxRow) (db : RelayDb)
    → Keyed db
    → StepPaid db (process_row relay row db)
unfolding process_row
process_row-StepPaid relay row db keyed =
    elim (Bool-cases (str_eq row.event_type paper_promotion_candidate_requested)) [
      | inr other ↦
          rw other (dispatch-StepPaid relay.goes_on relay.max_opportunity_attempts row db keyed)
      | inl paper ↦ elim (Option-cases (parse_paper_promotion_payload row.payload)) [
        | inl bad ↦ rw (paper, bad) (outbox_only db _ keyed refl refl)
        | inr (payload, parsed) ↦ rw (paper, parsed) (outbox_only db _ keyed refl refl)
      ]
    ]

process_next-StepPaid :
    (relay : Relay) (db : RelayDb) → Keyed db → StepPaid db (process_next relay db)
unfolding process_next
process_next-StepPaid relay db keyed =
    of_batch (fetch_locked_outbox_batch 1 relay_outbox_event_types db.outbox)
  where
    of_batch : (batch : List OutboxRow) → StepPaid db (first_row relay batch db)
    of_batch [] = tt
    of_batch (row ∷ rest) = process_row-StepPaid relay row db keyed

Paid-trans : (a b c : RelayDb) → Paid a b → Paid b c → Paid a c
Paid-trans a b c h k = (k.0, omega (arith, h.1, k.1))

after_step :
    (relay : Relay) (n : ℕ) (db : RelayDb) (s : Step)
    → Keyed db
    → StepPaid db s
    → ((db' : RelayDb) → Keyed db' → Paid db' (process_batch relay n db'))
    → Paid db (elim s [ empty ↦ db | threw ↦ db | handled db' ↦ process_batch relay n db' ])
after_step relay n db empty keyed h rest = (keyed, omega arith)
after_step relay n db threw keyed h rest = (keyed, omega arith)
after_step relay n db (handled db') keyed h rest = Paid-trans db db' _ h (rest db' h.0)

process_batch-Paid :
    (relay : Relay) (n : ℕ) (db : RelayDb) → Keyed db → Paid db (process_batch relay n db)
unfolding process_batch
process_batch-Paid relay zero db keyed = (keyed, omega arith)
process_batch-Paid relay (suc n) db keyed =
    after_step relay n db (process_next relay db) keyed (process_next-StepPaid relay db keyed)
      (λ db' keyed'. process_batch-Paid relay n db' keyed')

-- However often messages are delivered: over any ticks, the versions of the opportunities grow by no
-- more than the inbox does, and the inbox still has at most one row for each consumer and message, and
-- the table of opportunities one for each id, if that holds at the start.
pub versions_paid :
    (relay : Relay) (ns : List ℕ) (db : RelayDb)
    → Keyed db
    → Keyed (process_batches relay ns db)
      × (versions (process_batches relay ns db) + length db.inbox
          ≤ versions db + length (process_batches relay ns db).inbox)
unfolding process_batches
versions_paid relay [] db keyed = (keyed, omega arith)
versions_paid relay (n ∷ ns) db keyed =
    let first = process_batch-Paid relay n db keyed in
    Paid-trans db (process_batch relay n db) _ first
      (versions_paid relay ns (process_batch relay n db) first.0)
