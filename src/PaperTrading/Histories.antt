-- ===== src/PaperTrading/Histories.antt =====
-- Histories of the two services of apps/paper-trading-service/src/paper.
use arbibot.Base.{find_key, refl, arith, some, ℕ, String, ◌≡◌, none, List, [], ◌∷◌, All}
use arbibot.PaperTrading.Reserving.{expire_reservations}
use arbibot.PaperTrading.Trades.{
  draft, trade_key, Book, PaperTrade, CreatePaperTrade, PatchPaperTrade, SettlePaperTrade, Tick,
  insert_trade,
}
use arbibot.PaperTrading.Trading.{patch, reject, transition_to_active, cancel_tx, settle_tx}
use arbibot.PaperTrading.AutoDrive.{cancel_draft, canceled_draft}
use arbibot.PaperTrading.Booked.{Booked}
use arbibot.PaperTrading.Bookings.{
  put-Booked, insert-Booked, patch-Booked, reject-Booked, activate-Booked, cancel-Booked,
  settle-Booked, expire-Booked,
}

-- The transactions, and the saves of a draft by the auto-drive worker. Those of `approve` and `cancel` come
-- with any row that was read before; a rejection is its read with its transaction.
pub data TradeAction : Type 0 where
  creates : Tick → CreatePaperTrade → TradeAction
  patches : String → PatchPaperTrade → TradeAction
  approves : Tick → PaperTrade → TradeAction
  rejects : String → String → TradeAction
  cancels : PaperTrade → TradeAction
  settles : ℕ → String → SettlePaperTrade → TradeAction
  expires : ℕ → TradeAction
  cancels_draft : PaperTrade → TradeAction

unfoldable pub perform : TradeAction → Book → Book
unfolding expire_reservations
perform (creates tick dto) b = (insert_trade tick dto b).1
perform (patches i dto) b = (patch i dto b).1
perform (approves tick before) b = (transition_to_active tick before b).1
perform (rejects i operator) b = (reject (λ x. x) i operator b).1
perform (cancels before) b = (cancel_tx before b).1
perform (settles now i dto) b = (settle_tx now i dto b).1
perform (cancels_draft d) b = cancel_draft d b
perform (expires now) b = record b { reservations = expire_reservations now b.reservations }

unfoldable pub history_of : List TradeAction → Book → Book
unfolding perform
history_of [] b = b
history_of (a ∷ actions) b = history_of actions (perform a b)

-- The copy that the worker saves is the row, a draft: nothing has changed it since it was read.
abbrev pub CurrentAt : TradeAction → Book → Type 0
CurrentAt (cancels_draft d) b = (find_key trade_key d.id b.trades ≡ some d) × (d.state ≡ draft)
CurrentAt _ b = Unit

abbrev pub CurrentCopies : List TradeAction → Book → Type 0
CurrentCopies [] b = Unit
CurrentCopies (a ∷ actions) b = CurrentAt a b × CurrentCopies actions (perform a b)

-- A PATCH request that sets no state.
abbrev pub SetsNoState : TradeAction → Type 0
SetsNoState (patches i dto) = dto.state ≡ none
SetsNoState _ = Unit

draft-Booked :
    (d : PaperTrade) (b : Book)
    → find_key trade_key d.id b.trades ≡ some d
    → d.state ≡ draft
    → Booked b
    → Booked (cancel_draft d b)
unfolding cancel_draft
draft-Booked d b found is_draft booked =
    put-Booked b d.id d (canceled_draft d) found refl (ground (arith, is_draft)) booked

perform-Booked :
    (a : TradeAction) (b : Book) → SetsNoState a → CurrentAt a b → Booked b → Booked (perform a b)
unfolding perform
perform-Booked (cancels_draft d) b calm (found, is_draft) booked =
    draft-Booked d b found is_draft booked
perform-Booked (creates tick dto) b calm current booked = insert-Booked tick dto b booked
perform-Booked (patches i dto) b calm current booked = patch-Booked i dto b calm booked
perform-Booked (approves tick before) b calm current booked = activate-Booked tick before b booked
perform-Booked (rejects i operator) b calm current booked = reject-Booked i operator b booked
perform-Booked (cancels before) b calm current booked = cancel-Booked before b booked
perform-Booked (settles now i dto) b calm current booked = settle-Booked now i dto b booked
perform-Booked (expires now) b calm current booked = expire-Booked now b booked

-- Virtual capital is booked for active trades only: over any history in which no PATCH request sets a
-- state, the active reservations of a trade are at most one, and none where the trade is not active,
-- those of an instrument are at most one, and each id has at most one reservation, if that holds at the
-- start. No other transaction comes between the read and the transaction of a rejection, nor between the
-- read of a draft by the auto-drive worker and its save as canceled.
pub history-Booked :
    (actions : List TradeAction) (b : Book)
    → All SetsNoState actions
    → CurrentCopies actions b
    → Booked b
    → Booked (history_of actions b)
unfolding history_of
history-Booked [] b calm current booked = booked
history-Booked (a ∷ actions) b calm current booked =
    history-Booked actions (perform a b) calm.1 current.1
      (perform-Booked a b calm.0 current.0 booked)
