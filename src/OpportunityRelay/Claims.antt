-- ===== src/OpportunityRelay/Claims.antt =====
-- The messages that the relay still has to deliver stay free to be claimed.
use arbibot.Base.{
  ℕ, ◌+◌, ◌≤◌, String, ◌≡◌, ◌≢◌, refl, sym, ap, subst, Bool, false, not, ◌&&◌, some, List, [], ◌∷◌,
  ◌++◌, any, keep, count, All, All_mono, Occurs, find_key, find_key-only, rows_under, str_eq,
  str_eq_iff, leb, Bool-cases, Option-cases, inl, inr, arith, ◌==◌,
}
use arbibot.Messaging.{
  OutboxRow, InboxRow, eligible, update_row, same_message, try_claim_inbox_message,
}
use arbibot.OpportunityRelay.{
  Step, empty, threw, RelayDb, Relay, handled, mark_processed, mark_dead_letter, set_attempts,
  retry_or_bury, if_open, deliver_decision, release_inbox_claim, dispatch_locked_row, process_row,
  decision_applied, opportunity_key, IssuedDecision, parse_risk_decision_issued_payload,
  parse_paper_promotion_payload, opportunity_inbox_consumer_id, risk_decision_issued,
  paper_promotion_candidate_requested, finalize_paper_promotion_relay_attempt, put_outbox,
}
use arbibot.OpportunityRelay.Rounds.{due, claimed, AcceptsAll}

abbrev pub message_of : OutboxRow → String
message_of r = r.message_id

-- A row that is due has a message that is not claimed.
abbrev pub Free : List InboxRow → OutboxRow → Type 0
Free inbox r = (due r && claimed r.message_id inbox) ≡ false

-- `outbox_events.message_id` is unique, and no message that is due is claimed.
abbrev pub Claimable : RelayDb → Type 0
Claimable db =
    ((m : String) → rows_under message_of m db.outbox ≤ 1) × All (Free db.inbox) db.outbox

-- An update, with what it makes of the rows of its id and of the others.
All-update_row :
    (P P' : OutboxRow → Type 0) (i : ℕ) (f : OutboxRow → OutboxRow) (rows : List OutboxRow)
    → ((x : OutboxRow) → P x → P' (f x))
    → ((x : OutboxRow) → Occurs x rows → x.id ≢ i → P x → P' x)
    → All P rows
    → All P' (update_row i f rows)
unfolding update_row
All-update_row P P' i f [] hit miss h = tt
All-update_row P P' i f (x ∷ rows) hit miss h = (
  elim (Bool-cases (x.id == i)) [
    | inl same ↦ rw same (hit x h.0)
    | inr other ↦ rw other (miss x (inl refl) (ground (arith, other)) h.0)
  ],
  All-update_row P P' i f rows hit (λ y o. miss y (inr o)) h.1,
)

rows_under-update_row :
    (i : ℕ) (m : String) (f : OutboxRow → OutboxRow) (rows : List OutboxRow)
    → ((r : OutboxRow) → (f r).message_id ≡ r.message_id)
    → rows_under message_of m (update_row i f rows) ≡ rows_under message_of m rows
unfolding rows_under update_row count
rows_under-update_row i m f [] same = refl
rows_under-update_row i m f (x ∷ rows) same =
    ground (arith, same x, rows_under-update_row i m f rows same)

-- An update that keeps the messages, and frees or keeps what is due, where the inbox stays.
update_row-Claimable :
    (i : ℕ) (f : OutboxRow → OutboxRow) (db : RelayDb)
    → ((x : OutboxRow) → (f x).message_id ≡ x.message_id)
    → ((x : OutboxRow) → Free db.inbox x → Free db.inbox (f x))
    → Claimable db
    → Claimable (put_outbox (update_row i f db.outbox) db)
update_row-Claimable i f db same frees (one, free) = (
  λ m. subst (λ n. n ≤ 1) (sym (rows_under-update_row i m f db.outbox same)) (one m),
  All-update_row (Free db.inbox) (Free db.inbox) i f db.outbox frees (λ x o other h. h) free,
)

any-append_other :
    (p : InboxRow → Bool) (rows : List InboxRow) (r : InboxRow)
    → any p rows ≡ false
    → p r ≡ false
    → any p (rows ++ r ∷ []) ≡ false
unfolding any
any-append_other p [] r none_yet miss = ground (arith, miss)
any-append_other p (x ∷ rows) r none_yet miss =
    ground (arith, miss, any-append_other p rows r (ground arith) miss)

-- Other messages of the outbox are as free as before, where one is claimed.
abbrev claim : String → InboxRow
claim message = record { consumer_id = opportunity_inbox_consumer_id; message_id = message }

claim-Free :
    (inbox : List InboxRow) (message : String) (x : OutboxRow)
    → x.message_id ≢ message
    → Free inbox x
    → Free (inbox ++ claim message ∷ []) x
unfolding same_message
claim-Free inbox message x other h = elim (Bool-cases (due x)) [
  | inr shut ↦ ground (arith, shut)
  | inl open_row ↦
      let none_yet : claimed x.message_id inbox ≡ false = ground (arith, open_row) in
      ground (
        arith,
        any-append_other (same_message opportunity_inbox_consumer_id x.message_id) inbox
            (claim message) none_yet (ground (arith, str_eq_iff message x.message_id)),
      )
]

any-keep :
    (p q : InboxRow → Bool) (rows : List InboxRow)
    → any p rows ≡ false
    → any p (keep q rows) ≡ false
unfolding any keep
any-keep p q [] none_yet = refl
any-keep p q (x ∷ rows) none_yet = elim (Bool-cases (q x)) [
  | inl kept ↦ ground (arith, kept, any-keep p q rows (ground arith))
  | inr gone ↦ ground (arith, gone, any-keep p q rows (ground arith))
]

any-removed :
    (p : InboxRow → Bool) (rows : List InboxRow) → any p (keep (λ r. not (p r)) rows) ≡ false
unfolding any keep
any-removed p [] = refl
any-removed p (x ∷ rows) = elim (Bool-cases (p x)) [
  | inl gone ↦ ground (arith, gone, any-removed p rows)
  | inr kept ↦ ground (arith, kept, any-removed p rows)
]

-- A claim that is given back leaves every message as free as before.
release-Free :
    (inbox : List InboxRow) (message : String) (x : OutboxRow)
    → Free inbox x
    → Free (release_inbox_claim message (inbox ++ claim message ∷ [])) x
unfolding release_inbox_claim
release-Free inbox message x h = elim (Bool-cases (due x)) [
  | inr shut ↦ ground (arith, shut)
  | inl open_row ↦ elim (Bool-cases (str_eq x.message_id message)) [
    | inl same ↦
        let its : x.message_id ≡ message = (str_eq_iff x.message_id message).0 same in
        let none_left =
          any-removed (same_message opportunity_inbox_consumer_id message)
            (inbox ++ claim message ∷ []) in
        ground (arith, open_row, its, none_left)
    | inr other ↦
        let differs : x.message_id ≢ message =
          λ e. absurd (ground (arith, other, (str_eq_iff x.message_id message).1 e)) in
        let h' = claim-Free inbox message x differs h in
        let none_yet : claimed x.message_id (inbox ++ claim message ∷ []) ≡ false =
          ground (arith, open_row, h') in
        ground (
          arith,
          open_row,
          any-keep (same_message opportunity_inbox_consumer_id x.message_id)
              (λ r. not (same_message opportunity_inbox_consumer_id message r))
              (inbox ++ claim message ∷ []) none_yet,
        )
  ]
]

-- Two rows of the outbox with different ids have different messages.
apart :
    (x r : OutboxRow) (rows : List OutboxRow)
    → ((m : String) → rows_under message_of m rows ≤ 1)
    → Occurs x rows
    → Occurs r rows
    → x.id ≢ r.id
    → x.message_id ≢ r.message_id
apart x r rows one ox or other same =
    let of_x : find_key message_of r.message_id rows ≡ some x =
      subst (λ m. find_key message_of m rows ≡ some x) same
        (find_key-only message_of x rows ox (one x.message_id)) in
    let of_r = find_key-only message_of r rows or (one r.message_id) in
    let is_r : x ≡ r = ground (arith, of_x, of_r) in other (ap (λ y. y.id) is_r)

retry-Claimable :
    (k : ℕ) (r : OutboxRow) (db : RelayDb)
    → Claimable db
    → Claimable (put_outbox (retry_or_bury k r db.outbox) db)
unfolding retry_or_bury eligible
retry-Claimable k r db fit =
    let n : ℕ = r.relay_delivery_attempts + 1 in
    let again : RelayDb = put_outbox (update_row r.id (set_attempts n) db.outbox) db in
    let fit' : Claimable again =
      update_row-Claimable r.id (set_attempts n) db (λ x. refl) (λ x h. h) fit in
    elim (Bool-cases (leb k n)) [
      | inl last ↦
          rw last (
            update_row-Claimable r.id mark_dead_letter again (λ x. refl) (λ x h. ground arith) fit')
      | inr more ↦ rw more fit'
    ]

deliver-Claimable :
    (k : ℕ) (r : OutboxRow) (decision : IssuedDecision) (db : RelayDb)
    → Occurs r db.outbox
    → Claimable db
    → Claimable
        (deliver_decision k r decision (record db { inbox = db.inbox ++ claim r.message_id ∷ [] }))
unfolding deliver_decision eligible
deliver-Claimable k r decision db there (one, free) =
    let done : Claimable (record db {
      outbox = update_row r.id mark_processed db.outbox;
      inbox = db.inbox ++ claim r.message_id ∷ [];
    }) =
      (
        λ m.
            subst (λ n. n ≤ 1)
              (sym (rows_under-update_row r.id m mark_processed db.outbox (λ x. refl))) (one m),
        All-update_row (Free db.inbox) (Free (db.inbox ++ claim r.message_id ∷ [])) r.id
            mark_processed db.outbox (λ x h. ground arith)
            (λ x o other h.
              claim-Free db.inbox r.message_id x (apart x r db.outbox one o there other) h)
            free,
      ) in
    let taken : RelayDb = record db { inbox = db.inbox ++ claim r.message_id ∷ [] } in
    elim (Option-cases (find_key opportunity_key decision.plan_reference db.opportunities)) [
      | inl missing ↦
          let released : RelayDb = record db {
            inbox = release_inbox_claim r.message_id (db.inbox ++ claim r.message_id ∷ []);
          } in
          subst Claimable
            (sym (
              let e : deliver_decision k r decision taken
                  ≡ put_outbox (retry_or_bury k r db.outbox) released =
                ground (arith, missing) in
              e))
            (retry-Claimable k r released (
              one,
              All_mono (Free db.inbox) (Free released.inbox) (release-Free db.inbox r.message_id)
                  db.outbox free,
            ))
      | inr (o, found) ↦ elim (Bool-cases (decision_applied decision o)) [
        | inl applied ↦
            subst Claimable
              (sym (
                let e : deliver_decision k r decision taken
                    ≡ put_outbox (update_row r.id mark_processed db.outbox) taken =
                  ground (arith, found, applied) in
                e))
              done
        | inr new ↦
            let rows : (deliver_decision k r decision taken).outbox
                ≡ update_row r.id mark_processed db.outbox =
              ground (arith, found, new) in
            let inbox : (deliver_decision k r decision taken).inbox ≡ taken.inbox =
              ground (arith, found, new) in
            (
              λ m. subst (λ t. rows_under message_of m t ≤ 1) (sym rows) (done.0 m),
              subst (λ i. All (Free i) (deliver_decision k r decision taken).outbox) (sym inbox)
                  (subst (All (Free taken.inbox)) (sym rows) done.1),
            )
      ]
    ]

abbrev pub HandledClaimable : Step → Type 0
HandledClaimable empty = Unit
HandledClaimable threw = Unit
HandledClaimable (handled db) = Claimable db

dispatch-Claimable :
    (goes_on : Bool) (k : ℕ) (r : OutboxRow) (db : RelayDb)
    → Occurs r db.outbox
    → claimed r.message_id db.inbox ≡ false
    → Claimable db
    → HandledClaimable (dispatch_locked_row goes_on k r db)
unfolding dispatch_locked_row try_claim_inbox_message eligible
dispatch-Claimable goes_on k r db there free fit =
    let buried =
      update_row-Claimable r.id mark_dead_letter db (λ x. refl) (λ x h. ground arith) fit in
    elim (Bool-cases (str_eq r.event_type risk_decision_issued)) [
      | inr other ↦ rw other buried
      | inl risk ↦ elim (Option-cases (parse_risk_decision_issued_payload r.payload)) [
        | inl bad ↦ rw (risk, bad) buried
        | inr (decision, parsed) ↦
            rw (risk, parsed, free) (deliver-Claimable k r decision db there fit)
      ]
    ]

-- A round keeps what can be claimed.
pub process_row-Claimable :
    (relay : Relay) (r : OutboxRow) (db : RelayDb)
    → AcceptsAll relay
    → Occurs r db.outbox
    → claimed r.message_id db.inbox ≡ false
    → Claimable db
    → HandledClaimable (process_row relay r db)
unfolding process_row finalize_paper_promotion_relay_attempt eligible
process_row-Claimable relay r db accepts there free fit =
    elim (Bool-cases (str_eq r.event_type paper_promotion_candidate_requested)) [
      | inr other ↦
          rw other
            (dispatch-Claimable relay.goes_on relay.max_opportunity_attempts r db there free fit)
      | inl paper ↦ elim (Option-cases (parse_paper_promotion_payload r.payload)) [
        | inl bad ↦
            rw (paper, bad)
              (update_row-Claimable r.id mark_dead_letter db (λ x. refl) (λ x h. ground arith) fit)
        | inr (payload, parsed) ↦
            rw (paper, parsed, accepts payload)
              (update_row-Claimable r.id (if_open mark_processed) db (λ x. ground arith)
                (λ x h. ground arith) fit)
      ]
    ]
