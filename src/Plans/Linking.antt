-- ===== src/Plans/Linking.antt =====
-- What `linkReservation` and `arm` of plans.service.ts guarantee when they succeed.
use arbibot.Base.{
  get_or, [], ◌∷◌, ◌++◌, find_key-save_row, find_key-key, save_row, ℕ, ◌+◌, ◌<◌, String, ◌≡◌, refl,
  ap, ◌∙◌, true, Option, none, some, str_eq, str_eq_iff, arith,
}
use arbibot.Store.Types.{armed, Plan, planned, reserved, World, Call, plan_key}
use arbibot.Store.Outcome.{Result, ok}
use arbibot.Store.Exec.{returned, transaction-returned, find_plan, transaction}
use arbibot.Plans.Guards.{
  Remote, RiskDecision, ReservationSnapshot, approved, active, IfMissing, keep_not_found,
  as_conflict, read_failure, missing_is_conflict, correlation_matches, assert_approved_risk,
  load_reservation_twice, assert_reservation_active, assert_reservation_matches, expires_later,
}
use arbibot.Plans.Lifecycle.{
  armed_event, arm_tx, arm, link_reservation_tx, link_reservation_of_plan,
}

-- The plan's risk decision is approved and is about the plan's correlation id.
pub record RiskApproved (remote : Remote) (plan : Plan) : Type 0 where
  pub decision_id : String
  pub decision : RiskDecision
  pub referenced : plan.risk_decision_id ≡ some decision_id
  pub answered : remote.get_risk_decision decision_id ≡ ok decision
  pub is_approved : decision.outcome ≡ approved
  pub same_correlation : (c : String) → plan.correlation_id ≡ some c → decision.correlation_id ≡ c

-- The reservation, as it was last read, is active, not expired, and the plan's own.
pub record ReservationUsable (remote : Remote) (plan : Plan) (reservation_id : String)
    : Type 0 where
  pub snapshot : ReservationSnapshot
  pub expiry : ℕ
  pub read : remote.second_reservation reservation_id ≡ ok snapshot
  pub is_active : snapshot.state ≡ active
  pub expires : snapshot.expires_at ≡ some expiry
  pub not_expired : remote.now < expiry
  pub owned : snapshot.plan_id ≡ some plan.id
  pub same_correlation :
      (c : String) → plan.correlation_id ≡ some c → snapshot.correlation_id ≡ some c

matches_lem :
    (p c : Option String) → correlation_matches p c ≡ true → (d : String) → p ≡ some d → c ≡ some d
unfolding correlation_matches
matches_lem none c h d e = absurd (cc e)
matches_lem (some p) none h d e = absurd (cc h)
matches_lem (some p) (some c) h d e = ground (arith, str_eq_iff c p)

some_injective : {a b : String} → some a ≡ some b → a ≡ b
some_injective {a} e = ap (λ o. get_or o a) e

missing_lem : {A : Type 0} (r : Result A) {a : A} → missing_is_conflict r ≡ ok a → r ≡ ok a
missing_lem r e = ground arith

read_lem : {A : Type 0} (m : IfMissing) (r : Result A) {a : A} → read_failure m r ≡ ok a → r ≡ ok a
read_lem keep_not_found r e = e
read_lem as_conflict r e = missing_lem r e

risk_parts :
    (remote : Remote) (plan : Plan) {u : Unit {0}}
    → assert_approved_risk remote plan ≡ ok u
    → (i : String) × (d : RiskDecision) × (plan.risk_decision_id ≡ some i)
      × (remote.get_risk_decision i ≡ ok d)
      × (d.outcome ≡ approved)
      × (correlation_matches plan.correlation_id (some d.correlation_id) ≡ true)
unfolding assert_approved_risk
risk_parts remote plan e = ground arith

active_parts :
    (now : ℕ) (res : ReservationSnapshot) {u : Unit {0}}
    → assert_reservation_active now res ≡ ok u
    → (res.state ≡ active) × (expires_later now res.expires_at ≡ true)
unfolding assert_reservation_active
active_parts now res e = ground arith

expires_later_lem :
    (now : ℕ) (o : Option ℕ) → expires_later now o ≡ true → (t : ℕ) × (o ≡ some t) × (now < t)
unfolding expires_later
expires_later_lem now none e = absurd (cc e)
expires_later_lem now (some t) e = (t, refl, ground arith)

matches_parts :
    (plan : Plan) (res : ReservationSnapshot) {u : Unit {0}}
    → assert_reservation_matches plan res ≡ ok u
    → (o : String) × (res.plan_id ≡ some o)
      × (str_eq o plan.id ≡ true)
      × (correlation_matches plan.correlation_id res.correlation_id ≡ true)
unfolding assert_reservation_matches
matches_parts plan res e = ground arith

second_read :
    (remote : Remote) (reservation_id : String) (m : IfMissing) (res : ReservationSnapshot)
    → load_reservation_twice remote reservation_id m ≡ ok res
    → read_failure m (remote.second_reservation reservation_id) ≡ ok res
unfolding load_reservation_twice
second_read remote reservation_id m res e = ground arith

risk_lem :
    (remote : Remote) (plan : Plan) {u : Unit {0}}
    → assert_approved_risk remote plan ≡ ok u
    → RiskApproved remote plan
unfolding assert_approved_risk
risk_lem remote plan e =
    let (decision_id, decision, a, b, c, d) = risk_parts remote plan e in
    record {
      decision_id = decision_id;
      decision = decision;
      referenced = a;
      answered = b;
      is_approved = c;
      same_correlation = λ c has.
          some_injective (matches_lem plan.correlation_id (some decision.correlation_id) d c has);
    }

usable_lem :
    (remote : Remote) (plan : Plan) (reservation_id : String) (m : IfMissing)
    (res : ReservationSnapshot) {u v : Unit {0}}
    → load_reservation_twice remote reservation_id m ≡ ok res
    → assert_reservation_active remote.now res ≡ ok u
    → assert_reservation_matches plan res ≡ ok v
    → ReservationUsable remote plan reservation_id
usable_lem remote plan reservation_id m res e f g =
    let (state, later) = active_parts remote.now res f in
    let (expiry, expires, not_expired) = expires_later_lem remote.now res.expires_at later in
    let (owner, owned, same, correlated) = matches_parts plan res g in
    record {
      snapshot = res;
      expiry = expiry;
      read = read_lem m _ (second_read remote reservation_id m res e);
      is_active = state;
      expires = expires;
      not_expired = not_expired;
      owned = owned ∙ ap some ((str_eq_iff owner plan.id).0 same);
      same_correlation = matches_lem plan.correlation_id res.correlation_id correlated;
    }

-- The transaction alone.
link_reservation_tx-ok :
    (call : Call) (plan_id reservation_id : String) (w : World) {saved : Plan} {w' : World}
    → link_reservation_tx call plan_id reservation_id w ≡ returned saved w'
    → (plan : Plan) × (find_plan plan_id w ≡ some plan)
      × (plan.state ≡ planned)
      × (saved ≡ record plan {
        state = reserved;
        capital_reservation_id = some reservation_id;
        entity_version = plan.entity_version + 1;
        updated_at = call.now;
      })
      × (w'.plans ≡ save_row plan_key saved w.plans)
unfolding link_reservation_tx
link_reservation_tx-ok call plan_id reservation_id w e = ground arith

-- The checks of the method, and the transaction that it ends with.
link_reservation_steps :
    (remote : Remote) (call : Call) (others : World → World) (plan_id reservation_id : String)
    (w : World) {saved : Plan} {w' : World}
    → link_reservation_of_plan remote call others plan_id reservation_id w ≡ returned saved w'
    → (peek : Plan) × (res : ReservationSnapshot) × (find_plan plan_id w ≡ some peek)
      × (peek.state ≡ planned)
      × (assert_approved_risk remote peek ≡ ok tt)
      × (load_reservation_twice remote reservation_id keep_not_found ≡ ok res)
      × (assert_reservation_active remote.now res ≡ ok tt)
      × (assert_reservation_matches peek res ≡ ok tt)
      × (transaction (link_reservation_tx call plan_id reservation_id) (others w)
          ≡ returned saved w')
unfolding link_reservation_of_plan
link_reservation_steps remote call others plan_id reservation_id w e = ground arith

-- A row that was found and saved under its key is read back.
pub saved_is_found :
    (i : String) (plan saved : Plan) (w w' : World)
    → find_plan i w ≡ some plan
    → saved.id ≡ plan.id
    → w'.plans ≡ save_row plan_key saved w.plans
    → find_plan i w' ≡ some saved
saved_is_found i plan saved w w' e same s =
    let key : saved.id ≡ i = same ∙ find_key-key plan_key i w.plans e in
    rw (s, find_key-save_row plan_key i saved w.plans, (str_eq_iff saved.id i).1 key) refl

-- When `linkReservation` succeeds, the plan that it read was `planned`, its risk decision was
-- approved and about the plan's correlation id, and the reservation at its second read was active,
-- not expired, the plan's own and about the same correlation id. Whatever other requests committed
-- between the checks and the transaction, the plan was still `planned` in the transaction, and it is
-- stored as `reserved` with the reservation and the next version, its other columns as they were.
pub link_reservation_sound :
    (remote : Remote) (call : Call) (others : World → World) (plan_id reservation_id : String)
    (w : World) {saved : Plan} {w' : World}
    → link_reservation_of_plan remote call others plan_id reservation_id w ≡ returned saved w'
    → (peek plan : Plan) × (find_plan plan_id w ≡ some peek)
      × (peek.state ≡ planned)
      × RiskApproved remote peek
      × ReservationUsable remote peek reservation_id
      × (find_plan plan_id (others w) ≡ some plan)
      × (plan.state ≡ planned)
      × (saved ≡ record plan {
        state = reserved;
        capital_reservation_id = some reservation_id;
        entity_version = plan.entity_version + 1;
        updated_at = call.now;
      })
      × (find_plan plan_id w' ≡ some saved)
link_reservation_sound remote call others plan_id reservation_id w {saved} {w'} e =
    let (peek, res, found, state, risk, read, act, own, tx) =
      link_reservation_steps remote call others plan_id reservation_id w e in
    let (plan, found', state', is_saved, stored) =
      link_reservation_tx-ok call plan_id reservation_id (others w)
        (transaction-returned (link_reservation_tx call plan_id reservation_id) (others w) tx) in
    (
      peek,
      plan,
      found,
      state,
      risk_lem remote peek risk,
      usable_lem remote peek reservation_id keep_not_found res read act own,
      found',
      state',
      is_saved,
      saved_is_found plan_id plan saved (others w) w' found' (ap (λ p. p.id) is_saved) stored,
    )

arm_tx-ok :
    (call : Call) (plan_id : String) (w : World) {saved : Plan} {w' : World}
    → arm_tx call plan_id w ≡ returned saved w'
    → (plan : Plan) × (reservation_id : String) × (find_plan plan_id w ≡ some plan)
      × (plan.state ≡ reserved)
      × (plan.capital_reservation_id ≡ some reservation_id)
      × (saved ≡ record plan {
        state = armed;
        entity_version = plan.entity_version + 1;
        updated_at = call.now;
      })
      × (w'.plans ≡ save_row plan_key saved w.plans)
      × (w'.outbox ≡ w.outbox ++ armed_event call saved ∷ [])
unfolding arm_tx
arm_tx-ok call plan_id w e = ground arith

arm_steps :
    (remote : Remote) (call : Call) (others : World → World) (plan_id : String) (w : World)
    {saved : Plan} {w' : World}
    → arm remote call others plan_id w ≡ returned saved w'
    → (peek : Plan) × (reservation_id : String) × (res : ReservationSnapshot) × (find_plan plan_id w
        ≡ some peek)
      × (peek.state ≡ reserved)
      × (peek.capital_reservation_id ≡ some reservation_id)
      × (assert_approved_risk remote peek ≡ ok tt)
      × (load_reservation_twice remote reservation_id as_conflict ≡ ok res)
      × (assert_reservation_active remote.now res ≡ ok tt)
      × (assert_reservation_matches peek res ≡ ok tt)
      × (transaction (arm_tx call plan_id) (others w) ≡ returned saved w')
unfolding arm
arm_steps remote call others plan_id w e = ground arith

-- When `arm` succeeds, the plan that it read was `reserved`, with an approved risk decision and a
-- usable reservation. In the transaction the plan was still `reserved` with some reservation; it is
-- stored, and answered, as `armed` with the next version, its other columns as they were, and exactly
-- one event is added to the outbox: the PlanArmed event of the stored plan.
pub arm_sound :
    (remote : Remote) (call : Call) (others : World → World) (plan_id : String) (w : World)
    {saved : Plan} {w' : World}
    → arm remote call others plan_id w ≡ returned saved w'
    → (peek plan : Plan) × (checked held : String) × (find_plan plan_id w ≡ some peek)
      × (peek.state ≡ reserved)
      × (peek.capital_reservation_id ≡ some checked)
      × RiskApproved remote peek
      × ReservationUsable remote peek checked
      × (find_plan plan_id (others w) ≡ some plan)
      × (plan.state ≡ reserved)
      × (plan.capital_reservation_id ≡ some held)
      × (saved ≡ record plan {
        state = armed;
        entity_version = plan.entity_version + 1;
        updated_at = call.now;
      })
      × (find_plan plan_id w' ≡ some saved)
      × (w'.outbox ≡ (others w).outbox ++ armed_event call saved ∷ [])
arm_sound remote call others plan_id w {saved} {w'} e =
    let (peek, checked, res, found, state, has, risk, read, act, own, tx) =
      arm_steps remote call others plan_id w e in
    let (plan, held, found', state', has', is_saved, stored, events) =
      arm_tx-ok call plan_id (others w)
        (transaction-returned (arm_tx call plan_id) (others w) tx) in
    (
      peek,
      plan,
      checked,
      held,
      found,
      state,
      has,
      risk_lem remote peek risk,
      usable_lem remote peek checked as_conflict res read act own,
      found',
      state',
      has',
      is_saved,
      saved_is_found plan_id plan saved (others w) w' found' (ap (λ p. p.id) is_saved) stored,
      events,
    )
