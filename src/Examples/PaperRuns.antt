-- ===== src/Examples/PaperRuns.antt =====
-- Runs of paper-trading-service.
use arbibot.Base.{
  ℕ, String, ◌≡◌, refl, none, some, List, [], ◌∷◌, arith, count, sum_of, find_key, str_eq,
  rows_under,
}
use arbibot.Json.{end}
use arbibot.Store.Outcome.{ok}
use arbibot.PaperTrading.Trades.{
  canceled, trade_key, Book, PaperTrade, CreatePaperTrade, PatchPaperTrade, SettlePaperTrade, Tick,
  draft, settled, insert_trade,
}
use arbibot.PaperTrading.Trading.{settle_tx, reject, settle, patch, transition_to_active}
use arbibot.PaperTrading.Weights.{for_trade}
use arbibot.PaperTrading.Booked.{Booked, live}
use arbibot.PaperTrading.AutoDrive.{cancel_draft}
use arbibot.PaperTrading.Histories.{
  TradeAction, creates, patches, approves, rejects, settles, expires, cancels_draft, CurrentCopies,
  history_of, history-Booked,
}
use arbibot.PaperTrading.Settled.{Stands, ended_trade-Stands}

abbrev empty : Book
empty = record { trades = []; reservations = []; audit = [] }

empty-Booked : Booked empty
unfolding sum_of rows_under count live
empty-Booked = (λ k. omega arith, λ i. ground arith, λ k. omega arith)

abbrev dto : CreatePaperTrade
dto = record {
  opportunity_id = none;
  instrument_key = "ETH-USDC";
  route_key = none;
  notional = some "100";
  summary = none;
  idempotency_key = some "k1";
}

abbrev trade : String → PaperTrade
trade i = record {
  id = i;
  opportunity_id = none;
  instrument_key = "ETH-USDC";
  route_key = none;
  state = draft;
  notional = "100";
  summary = end;
  entry_price = none;
  exit_price = none;
  profit_usd = none;
  settled_at = none;
  entity_version = 1;
  idempotency_key = some "k1";
}

abbrev result : SettlePaperTrade
result = record {
  expected_version = 2;
  entry_price = "2000";
  exit_price = "2010";
  profit_usd = "0.5";
  spread_bps = some 50;
}

abbrev new_notional : PatchPaperTrade
new_notional = record { expected_version = 3; state = none; notional = some "200" }

abbrev at : ℕ → String → Tick
at now i = record { now = now; fresh_id = i }

abbrev other_dto : CreatePaperTrade
other_dto = record dto { idempotency_key = some "k4" }

abbrev other_draft : PaperTrade
other_draft = record (trade "t4") { idempotency_key = some "k4" }

-- A retried creation, an approval with a late copy of it, a settlement, a patch that comes after it,
-- and a draft that the worker cancels.
abbrev actions : List TradeAction
actions =
    creates (at 0 "t1") dto
    ∷ creates (at 1 "t2") dto
    ∷ approves (at 2 "r1") (trade "t1")
    ∷ approves (at 3 "r2") (trade "t1")
    ∷ settles 4 "t1" result
    ∷ patches "t1" new_notional
    ∷ rejects "t1" "operator"
    ∷ expires 5
    ∷ creates (at 6 "t4") other_dto
    ∷ cancels_draft other_draft
    ∷ []

current_from_empty : CurrentCopies actions empty
unfolding history_of find_key insert_trade reject settle_tx transition_to_active
current_from_empty = (tt, (tt, (tt, (tt, (tt, (tt, (tt, (tt, (tt, ((refl, refl), tt))))))))))

history-Booked_example : Booked (history_of actions empty)
history-Booked_example =
    history-Booked actions empty (tt, (tt, (tt, (tt, (tt, (refl, (tt, (tt, (tt, (tt, tt))))))))))
      current_from_empty empty-Booked

abbrev done : PaperTrade
done = record (trade "t1") {
  state = settled;
  entry_price = some "2000";
  exit_price = some "2010";
  profit_usd = some "0.5";
  settled_at = some 4;
  entity_version = 3;
}

abbrev after_settlement : Book
after_settlement = record { trades = done ∷ []; reservations = []; audit = [] }

standing : Stands done "t1" after_settlement
unfolding find_key str_eq
standing = (done, refl, (refl, refl, refl, refl, refl))

current_from_settlement : CurrentCopies actions after_settlement
unfolding history_of find_key insert_trade reject settle_tx transition_to_active
current_from_settlement = (tt, (tt, (tt, (tt, (tt, (tt, (tt, (tt, (tt, ((refl, refl), tt))))))))))

ended_trade-Stands_example : Stands done "t1" (history_of actions after_settlement)
ended_trade-Stands_example =
    ended_trade-Stands actions done "t1" after_settlement current_from_settlement refl standing

-- A trade that is settled already answers a second settlement as it is.
settled_once :
    settle 9 (λ b. b) "t1" result "operator" after_settlement ≡ (ok done, after_settlement)
unfolding settle find_key str_eq
settled_once = refl

-- A PATCH request may settle an active trade: its reservation stays active.
abbrev settle_by_patch : PatchPaperTrade
settle_by_patch = record { expected_version = 2; state = some settled; notional = none }

left_behind :
    sum_of
      (for_trade "t1")
      (history_of
        (creates (at 0 "t1") dto
          ∷ approves (at 2 "r1") (trade "t1")
          ∷ patches "t1" settle_by_patch
          ∷ [])
        empty).reservations
    ≡ 1
unfolding history_of sum_of patch transition_to_active insert_trade
left_behind = refl

-- The worker's save of a draft that was approved meanwhile cancels the trade and leaves its reservation;
-- of one that was settled meanwhile, it takes the result.
stale_save :
    let b =
      history_of
        (creates (at 0 "t1") dto
          ∷ approves (at 2 "r1") (trade "t1")
          ∷ cancels_draft (trade "t1")
          ∷ [])
        empty in
    (live "t1" b.trades ≡ 0) × (sum_of (for_trade "t1") b.reservations ≡ 1)
unfolding history_of sum_of live transition_to_active insert_trade cancel_draft
stale_save = (refl, refl)

stale_save_of_settled :
    find_key trade_key "t1" (history_of (cancels_draft (trade "t1") ∷ []) after_settlement).trades
    ≡ some (record (trade "t1") { state = canceled; entity_version = 2 })
unfolding history_of find_key str_eq cancel_draft
stale_save_of_settled = refl
