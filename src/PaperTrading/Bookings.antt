-- ===== src/PaperTrading/Bookings.antt =====
-- What the transactions of paper-trades.service.ts and paper-capital.service.ts keep of the bookings.
use arbibot.Base.{
  ℕ, ◌+◌, ◌≤◌, String, ◌≡◌, refl, sym, subst, ap, ◌∙◌, true, false, some, none, List, [], ◌∷◌, ◌++◌,
  any, count, sum_of, sum_of-append, find_key, find_key-key, rows_under, rows_under-append, str_eq,
  str_eq_iff, opt_str_eq, Bool-cases, Option-cases, inl, inr, arith,
}
use arbibot.Store.Outcome.{Result, ok, err, ok-injective}
use arbibot.PaperTrading.Reserving.{
  PaperReservation, paper_reservation, paper_reservation_key, reserve_capital, expire_active,
  expire_reservations,
}
use arbibot.PaperTrading.Trades.{
  Book, PaperTrade, PaperTradeState, CreatePaperTrade, PatchPaperTrade, SettlePaperTrade, Tick,
  active, canceled, settled, allowed, trade_key, is_live, is_draft, insert_trade, new_trade,
  put_trade, existing, next_state,
}
use arbibot.PaperTrading.Trading.{
  patch, patched, rejection, reject, transition_to_active, activated, cancel_tx, settle_tx, ended,
  with_result, audited,
}
use arbibot.PaperTrading.Weights.{
  for_trade, for_instrument, expire_active-sum, expire_active-ids, expire_active-trade,
  expire_reservations-sum, expire_reservations-ids, reserve_capital_lem,
}
use arbibot.PaperTrading.Changes.{
  committed-Keeps, locked-ok, patched_lem, activated_lem, ended_lem, reject_kept,
}
use arbibot.PaperTrading.Booked.{
  Booked, live_row, trade_inactive, instrument_inactive, live-saved, live-found, live_bound,
  live-appended,
}

new_trade-draft :
    (tick : Tick) (dto : CreatePaperTrade) → is_live (new_trade tick dto).state ≡ false
unfolding new_trade
new_trade-draft tick dto = refl

pub insert-Booked :
    (tick : Tick) (dto : CreatePaperTrade) (b : Book)
    → Booked b
    → Booked (insert_trade tick dto b).1
unfolding insert_trade
insert-Booked tick dto b (single, booked, instruments) =
    elim (Option-cases (existing dto.idempotency_key b.trades)) [
      | inr (t, replay) ↦
          let is_b : (insert_trade tick dto b).1 ≡ b = ground (arith, replay) in
          subst Booked (sym is_b) (single, booked, instruments)
      | inl new ↦ elim (Bool-cases (any (λ t. str_eq t.id tick.fresh_id) b.trades)) [
        | inl taken ↦
            let is_b : (insert_trade tick dto b).1 ≡ b = ground (arith, new, taken) in
            subst Booked (sym is_b) (single, booked, instruments)
        | inr fresh ↦
            let grown = record b { trades = b.trades ++ new_trade tick dto ∷ [] } in
            let is_b : (insert_trade tick dto b).1 ≡ grown = ground (arith, new, fresh) in
            subst Booked (sym is_b) (
              single,
              λ i. ground (
                arith,
                booked i,
                live-appended i (new_trade tick dto) b.trades (new_trade-draft tick dto),
              ),
              instruments,
            )
      ]
    ]

-- A row saved over one that is as active as it.
pub put-Booked :
    (b : Book) (i : String) (row t : PaperTrade)
    → find_key trade_key i b.trades ≡ some row
    → t.id ≡ row.id
    → live_row t ≡ live_row row
    → Booked b
    → Booked (put_trade t b)
put-Booked b i row t found same as_live (single, booked, instruments) = (
  single,
  λ j. ground (
    arith,
    booked j,
    live-saved j t b.trades,
    live-found i b.trades found,
    find_key-key trade_key i b.trades found,
    same,
    as_live,
    str_eq_iff t.id j,
  ),
  instruments,
)

-- A patch that sets no state.
pub patch-Booked :
    (i : String) (dto : PatchPaperTrade) (b : Book)
    → dto.state ≡ none
    → Booked b
    → Booked (patch i dto b).1
unfolding patch next_state
patch-Booked i dto b no_state booked = committed-Keeps Booked b _ booked (λ t b' e.
    let (row, found, done) = locked-ok i dto.expected_version b (patched dto b) e in
    let (is_b, same, moved, _, _, _, _) = patched_lem dto b row done in
    let kept : t.state ≡ row.state = ok-injective (ground (arith, moved)) in
    subst Booked (sym is_b) (put-Booked b i row t found same (ground (arith, kept)) booked))

audited-Booked :
    (operator action i : String) (r : Result PaperTrade × Book)
    → Booked r.1
    → Booked (audited operator action i r).1
unfolding audited
audited-Booked operator action i (ok t, b) booked = booked
audited-Booked operator action i (err e, b) booked = booked

draft_idle : (s : PaperTradeState) → is_draft s ≡ true → is_live s ≡ false
draft_idle s e = ground arith

-- A draft that is canceled is as inactive as before.
refuse-Booked :
    (i : String) (before : PaperTrade) (b : Book)
    → find_key trade_key i b.trades ≡ some before
    → is_draft before.state ≡ true
    → Booked b
    → Booked (patch i (rejection before) b).1
unfolding patch next_state
refuse-Booked i before b read fresh booked = committed-Keeps Booked b _ booked (λ t b' e.
    let (row, found, done) = locked-ok i before.entity_version b (patched (rejection before) b) e in
    let (is_b, same, moved, _, _, _, _) = patched_lem (rejection before) b row done in
    let is_row : before ≡ row = ground (arith, read, found) in
    let idle =
      draft_idle row.state (subst (λ (x : PaperTrade). is_draft x.state ≡ true) is_row fresh) in
    let off : is_live t.state ≡ false = ground (arith, moved) in
    subst Booked (sym is_b) (put-Booked b i row t found same (ground (arith, idle, off)) booked))

pub reject-Booked :
    (i operator : String) (b : Book) → Booked b → Booked (reject (λ x. x) i operator b).1
reject-Booked i operator b booked = reject_kept Booked i operator b booked (λ before read fresh.
    audited-Booked operator "paper_trade_rejected" i _ (refuse-Booked i before b read fresh booked))

allowed_active : (s : PaperTradeState) → allowed s active ≡ true → is_live s ≡ false
unfolding allowed
allowed_active PaperTradeState.draft e = refl
allowed_active active e = absurd (cc e)
allowed_active settled e = refl
allowed_active canceled e = refl

-- A trade that becomes active with its reservation.
active-Booked :
    (tick : Tick) (before : PaperTrade) (b : Book) (row t : PaperTrade)
    (rows : List PaperReservation)
    → find_key trade_key before.id b.trades ≡ some row
    → reserve_capital tick.now tick.fresh_id row.id before.instrument_key before.notional
        b.reservations
      ≡ some rows
    → is_live row.state ≡ false
    → t.id ≡ row.id
    → t.state ≡ active
    → Booked b
    → Booked (put_trade t (record b { reservations = rows }))
unfolding paper_reservation sum_of count rows_under opt_str_eq
active-Booked tick before b row t rows found reserved idle same on (single, booked, instruments) =
    let (appended, fresh, free) =
      reserve_capital_lem tick.now tick.fresh_id row.id before.instrument_key before.notional
        b.reservations reserved in
    let r = paper_reservation tick.now tick.fresh_id row.id before.instrument_key before.notional in
    (
      λ k.
          let grown = rows_under-append paper_reservation_key k b.reservations (r ∷ []) in
          let total : rows_under paper_reservation_key k rows
              ≡ rows_under paper_reservation_key k b.reservations
                + rows_under paper_reservation_key k (r ∷ []) =
            ap (rows_under paper_reservation_key k) appended ∙ grown in
          elim (Bool-cases (str_eq tick.fresh_id k)) [
            | inl it ↦
                let none_yet : rows_under paper_reservation_key k b.reservations ≡ 0 =
                  subst (λ j. rows_under paper_reservation_key j b.reservations ≡ 0)
                    ((str_eq_iff tick.fresh_id k).0 it) fresh in
                ground (arith, total, none_yet)
            | inr other ↦ ground (arith, total, single k, other)
          ],
      λ j.
          let total : sum_of (for_trade j) rows
              ≡ sum_of (for_trade j) b.reservations + sum_of (for_trade j) (r ∷ []) =
            ap (sum_of (for_trade j)) appended
            ∙ sum_of-append (for_trade j) b.reservations (r ∷ []) in
          ground (
            arith,
            total,
            booked j,
            live-saved j t b.trades,
            live-found before.id b.trades found,
            find_key-key trade_key before.id b.trades found,
            idle,
            same,
            on,
            str_eq_iff t.id j,
            str_eq_iff row.id j,
          ),
      λ k.
          let total : sum_of (for_instrument k) rows
              ≡ sum_of (for_instrument k) b.reservations + sum_of (for_instrument k) (r ∷ []) =
            ap (sum_of (for_instrument k)) appended
            ∙ sum_of-append (for_instrument k) b.reservations (r ∷ []) in
          elim (Bool-cases (str_eq before.instrument_key k)) [
            | inl it ↦
                let none_yet : sum_of (for_instrument k) b.reservations ≡ 0 =
                  subst (λ j. sum_of (for_instrument j) b.reservations ≡ 0)
                    ((str_eq_iff before.instrument_key k).0 it) free in
                ground (arith, total, none_yet)
            | inr other ↦ ground (arith, total, instruments k, other)
          ],
    )

pub activate-Booked :
    (tick : Tick) (before : PaperTrade) (b : Book)
    → Booked b
    → Booked (transition_to_active tick before b).1
unfolding transition_to_active
activate-Booked tick before b booked = committed-Keeps Booked b _ booked (λ t b' e.
    let (row, found, done) =
      locked-ok before.id before.entity_version b (activated tick before b) e in
    let (rows, reserved, may, same, on, is_b) = activated_lem tick before b row done in
    subst Booked (sym is_b) (
      active-Booked tick before b row t rows found reserved (allowed_active row.state may) same on
        booked))

-- A trade that ends.
pub end-Booked :
    (i : String) (b : Book) (row t : PaperTrade)
    → find_key trade_key i b.trades ≡ some row
    → t.id ≡ row.id
    → is_live t.state ≡ false
    → Booked b
    → Booked (put_trade t (record b { reservations = expire_active row.id b.reservations }))
end-Booked i b row t found same off (single, booked, instruments) = (
  λ k. ground (arith, single k, expire_active-ids k row.id b.reservations),
  λ j. elim (Bool-cases (str_eq t.id j)) [
    | inl it ↦
        let its_id : row.id ≡ j = sym same ∙ (str_eq_iff t.id j).0 it in
        let few : sum_of (for_trade row.id) b.reservations ≤ 1 =
          ground (arith, booked row.id, live_bound row.id b.trades) in
        let zero_left =
          subst (λ k. sum_of (for_trade k) (expire_active row.id b.reservations) ≡ 0) its_id
            (expire_active-trade row.id b.reservations single few) in
        ground (arith, zero_left)
    | inr other ↦ ground (
      arith,
      booked j,
      other,
      live-saved j t b.trades,
      expire_active-sum (for_trade j) (trade_inactive j) row.id b.reservations,
    )
  ],
  λ k. ground (
    arith,
    instruments k,
    expire_active-sum (for_instrument k) (instrument_inactive k) row.id b.reservations,
  ),
)

pub cancel-Booked : (before : PaperTrade) (b : Book) → Booked b → Booked (cancel_tx before b).1
unfolding cancel_tx
cancel-Booked before b booked = committed-Keeps Booked b _ booked (λ t b' e.
    let (row, found, done) =
      locked-ok before.id before.entity_version b (ended canceled (λ x. x) b) e in
    let (may, is_t, is_b) = ended_lem canceled (λ x. x) b row done in
    subst Booked (sym is_b) (
      end-Booked before.id b row t found (ap (λ (x : PaperTrade). x.id) is_t)
        (ground (arith, ap (λ (x : PaperTrade). x.state) is_t)) booked))

pub settle-Booked :
    (now : ℕ) (i : String) (dto : SettlePaperTrade) (b : Book)
    → Booked b
    → Booked (settle_tx now i dto b).1
unfolding settle_tx
settle-Booked now i dto b booked = committed-Keeps Booked b _ booked (λ t b' e.
    let (row, found, done) =
      locked-ok i dto.expected_version b (ended settled (with_result now dto) b) e in
    let (may, is_t, is_b) = ended_lem settled (with_result now dto) b row done in
    subst Booked (sym is_b) (
      end-Booked i b row t found (ap (λ (x : PaperTrade). x.id) is_t)
        (ground (arith, ap (λ (x : PaperTrade). x.state) is_t)) booked))

pub expire-Booked :
    (now : ℕ) (b : Book)
    → Booked b
    → Booked (record b { reservations = expire_reservations now b.reservations })
expire-Booked now b (single, booked, instruments) = (
  λ k. omega (arith, single k, expire_reservations-ids k now b.reservations),
  λ i. omega (
    arith,
    booked i,
    expire_reservations-sum (for_trade i) (trade_inactive i) now b.reservations,
  ),
  λ k. omega (
    arith,
    instruments k,
    expire_reservations-sum (for_instrument k) (instrument_inactive k) now b.reservations,
  ),
)
