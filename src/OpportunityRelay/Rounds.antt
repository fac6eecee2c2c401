-- ===== src/OpportunityRelay/Rounds.antt =====
-- What one round of the relay of opportunity-service does to the rows that it still has to deliver.
use arbibot.Base.{
  subst, ℕ, suc, ◌+◌, ◌-◌, ◌≤◌, ◌<◌, ◌≡◌, refl, sym, Bool, true, false, Option, List, [], ◌∷◌, ◌++◌,
  any, String, sum_of, Occurs, find_key, str_eq, Bool-cases, Option-cases, inl, inr, arith, leb,
  if◌then◌else◌,
}
use arbibot.Messaging.{
  InboxRow, same_message, OutboxRow, is_open, eligible, update_row, try_claim_inbox_message,
}
use arbibot.Messaging.Polling.{
  rows_with_id, rows_with_id-update_row, update_row-update_row, sum_of-update_row,
}
use arbibot.OpportunityRelay.{
  RelayDb, Relay, Step, empty, threw, handled, mark_processed, mark_dead_letter, set_attempts,
  retry_or_bury, if_open, finalize_paper_promotion_relay_attempt, deliver_decision,
  dispatch_locked_row, process_row, relay_outbox_event_types, decision_applied, opportunity_key,
  IssuedDecision, parse_risk_decision_issued_payload, parse_paper_promotion_payload,
  opportunity_inbox_consumer_id, PaperPromotion, risk_decision_issued,
  paper_promotion_candidate_requested,
}

abbrev pub due : OutboxRow → Bool
due r = eligible relay_outbox_event_types r

-- The rounds that a row may still take.
abbrev pub patience : ℕ → OutboxRow → ℕ
patience m r = if due r then suc (m - r.relay_delivery_attempts) else 0

abbrev pub OneRowPerId : List OutboxRow → Type 0
OneRowPerId rows = (i : ℕ) → rows_with_id i rows ≤ 1

-- A step that leaves less to do, and every id as often as it was.
abbrev pub Lighter : ℕ → List OutboxRow → List OutboxRow → Type 0
Lighter m rows rows' =
    (sum_of (patience m) rows' < sum_of (patience m) rows)
    × ((i : ℕ) → rows_with_id i rows' ≡ rows_with_id i rows)

if_open-id : (f : OutboxRow → OutboxRow) (x : OutboxRow) → (f x).id ≡ x.id → (if_open f x).id ≡ x.id
if_open-id f x same = elim (Bool-cases (is_open x)) [
  | inl yes_open ↦ rw yes_open same
  | inr shut ↦ rw shut refl
]

module _ (m : ℕ) (r : OutboxRow) (rows : List OutboxRow) (there : Occurs r rows)
    (one : OneRowPerId rows) (open_row : due r ≡ true) where
  updated-Lighter :
      (f : OutboxRow → OutboxRow)
      → ((x : OutboxRow) → (f x).id ≡ x.id)
      → patience m (f r) < patience m r
      → Lighter m rows (update_row r.id f rows)
  updated-Lighter f same less = (
    sum_of-update_row (patience m) r f rows there (one r.id) less,
    λ i. rows_with_id-update_row r.id i f rows same,
  )

  closed-Lighter :
      (f : OutboxRow → OutboxRow)
      → ((x : OutboxRow) → (f x).id ≡ x.id)
      → due (f r) ≡ false
      → Lighter m rows (update_row r.id f rows)
  closed-Lighter f same shut = updated-Lighter f same (ground arith)

  retry-Lighter : (k : ℕ) → k ≤ m → Lighter m rows (retry_or_bury k r rows)
  unfolding retry_or_bury eligible
  retry-Lighter k few = elim (Bool-cases (leb k (r.relay_delivery_attempts + 1))) [
    | inl last ↦
        let n : ℕ = r.relay_delivery_attempts + 1 in
        rw last (
          subst (Lighter m rows)
            (sym (update_row-update_row r.id (set_attempts n) mark_dead_letter rows (λ x. refl)))
            (closed-Lighter (λ x. mark_dead_letter (set_attempts n x)) (λ x. refl) (ground arith)))
    | inr more ↦
        rw more (
          updated-Lighter (set_attempts (r.relay_delivery_attempts + 1)) (λ x. refl) (ground arith))
  ]

  accepted-Lighter :
      (read_attempts : Option ℕ → ℕ) (k : ℕ)
      → Lighter m rows (finalize_paper_promotion_relay_attempt read_attempts k r.id true rows)
  unfolding finalize_paper_promotion_relay_attempt eligible
  accepted-Lighter read_attempts k =
      closed-Lighter (if_open mark_processed) (λ x. if_open-id mark_processed x refl) (ground arith)

  deliver-Lighter :
      (k : ℕ) (decision : IssuedDecision) (db : RelayDb)
      → k ≤ m
      → db.outbox ≡ rows
      → Lighter m rows (deliver_decision k r decision db).outbox
  unfolding deliver_decision eligible
  deliver-Lighter k decision db few same =
      elim (Option-cases (find_key opportunity_key decision.plan_reference db.opportunities)) [
        | inl missing ↦
            subst (Lighter m rows)
              (sym (
                let e : (deliver_decision k r decision db).outbox ≡ retry_or_bury k r rows =
                  ground (arith, same) in
                e))
              (retry-Lighter k few)
        | inr (o, found) ↦ elim (Bool-cases (decision_applied decision o)) [
          | inl applied ↦
              subst (Lighter m rows)
                (sym (
                  let e : (deliver_decision k r decision db).outbox
                      ≡ update_row r.id mark_processed rows =
                    ground (arith, same) in
                  e))
                (closed-Lighter mark_processed (λ x. refl) (ground arith))
          | inr other ↦
              subst (Lighter m rows)
                (sym (
                  let e : (deliver_decision k r decision db).outbox
                      ≡ update_row r.id mark_processed rows =
                    ground (arith, same) in
                  e))
                (closed-Lighter mark_processed (λ x. refl) (ground arith))
        ]
      ]

-- A round that was committed and left less to do.
abbrev pub Advances : ℕ → List OutboxRow → Step → Type 0
Advances m rows empty = ⊥
Advances m rows threw = ⊥
Advances m rows (handled db) = Lighter m rows db.outbox

-- The message of a row is claimed by the consumer of opportunity-service.
abbrev pub claimed : String → List InboxRow → Bool
claimed message inbox = any (same_message opportunity_inbox_consumer_id message) inbox

dispatch-Advances :
    (goes_on : Bool) (m k : ℕ) (r : OutboxRow) (db : RelayDb)
    → Occurs r db.outbox
    → OneRowPerId db.outbox
    → due r ≡ true
    → claimed r.message_id db.inbox ≡ false
    → k ≤ m
    → Advances m db.outbox (dispatch_locked_row goes_on k r db)
unfolding dispatch_locked_row eligible try_claim_inbox_message
dispatch-Advances goes_on m k r db there one open_row free few =
    elim (Bool-cases (str_eq r.event_type risk_decision_issued)) [
      | inr other ↦ rw other (
          closed-Lighter m r db.outbox there one open_row mark_dead_letter (λ x. refl)
            (ground arith))
      | inl risk ↦ elim (Option-cases (parse_risk_decision_issued_payload r.payload)) [
        | inl bad ↦
            rw (risk, bad)
              (closed-Lighter m r db.outbox there one open_row mark_dead_letter (λ x. refl)
                (ground arith))
        | inr (decision, parsed) ↦
            rw (risk, parsed, free)
              (deliver-Lighter m r db.outbox there one open_row k decision
                (record db {
                  inbox =
                      db.inbox
                      ++ record {
                        consumer_id = opportunity_inbox_consumer_id;
                        message_id = r.message_id;
                      }
                        ∷ [];
                })
                few refl)
      ]
    ]

-- Every paper promotion that is posted is accepted.
abbrev pub AcceptsAll : Relay → Type 0
AcceptsAll relay = (p : PaperPromotion) → relay.enqueue_promotion_candidate p ≡ true

abbrev pub attempts_in_all : Relay → ℕ
attempts_in_all relay = relay.max_opportunity_attempts + relay.max_paper_promotion_attempts

pub process_row-Advances :
    (relay : Relay) (r : OutboxRow) (db : RelayDb)
    → AcceptsAll relay
    → Occurs r db.outbox
    → OneRowPerId db.outbox
    → due r ≡ true
    → claimed r.message_id db.inbox ≡ false
    → Advances (attempts_in_all relay) db.outbox (process_row relay r db)
unfolding process_row eligible
process_row-Advances relay r db accepts there one open_row free =
    let m : ℕ = attempts_in_all relay in
    elim (Bool-cases (str_eq r.event_type paper_promotion_candidate_requested)) [
      | inr other ↦ rw other (
          dispatch-Advances relay.goes_on m relay.max_opportunity_attempts r db there one open_row
            free (omega arith))
      | inl paper ↦ elim (Option-cases (parse_paper_promotion_payload r.payload)) [
        | inl bad ↦
            rw (paper, bad)
              (closed-Lighter m r db.outbox there one open_row mark_dead_letter (λ x. refl)
                (ground arith))
        | inr (payload, parsed) ↦
            rw (paper, parsed, accepts payload)
              (accepted-Lighter m r db.outbox there one open_row relay.read_attempts
                relay.max_paper_promotion_attempts)
      ]
    ]
