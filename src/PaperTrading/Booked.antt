-- ===== src/PaperTrading/Booked.antt =====
-- When the virtual capital of paper-trades.service.ts is booked for active trades only.
use arbibot.Base.{
  ℕ, ◌≤◌, String, ◌≡◌, false, some, none, List, [], ◌∷◌, ◌++◌, sum_of, find_key, find_key-save_row,
  save_row, str_eq, arith, if◌then◌else◌,
}
use arbibot.PaperTrading.Reserving.{PaperReservation, is_active}
use arbibot.PaperTrading.Trades.{Book, PaperTrade, trade_key, is_live}
use arbibot.PaperTrading.Weights.{for_trade, for_instrument, Single}

abbrev pub live_row : PaperTrade → ℕ
live_row t = if is_live t.state then 1 else 0

-- Whether the trade of an id is active.
unfoldable pub live : String → List PaperTrade → ℕ
unfolding find_key
live i trades = elim (find_key trade_key i trades) [ none ↦ 0 | some t ↦ live_row t ]

-- Each id has at most one reservation, the active reservations of a trade are at most one, and none
-- where the trade is not active, and those of an instrument are at most one.
abbrev pub Booked : Book → Type 0
Booked b =
    Single b.reservations
    × ((i : String) → sum_of (for_trade i) b.reservations ≤ live i b.trades)
    × ((k : String) → sum_of (for_instrument k) b.reservations ≤ 1)

pub trade_inactive :
    (i : String) (r : PaperReservation) → is_active r.state ≡ false → for_trade i r ≡ 0
trade_inactive i r off = ground arith

pub instrument_inactive :
    (k : String) (r : PaperReservation) → is_active r.state ≡ false → for_instrument k r ≡ 0
instrument_inactive k r off = ground arith

pub live-saved :
    (i : String) (t : PaperTrade) (trades : List PaperTrade)
    → live i (save_row trade_key t trades) ≡ (if str_eq t.id i then live_row t else live i trades)
unfolding live
live-saved i t trades = ground (arith, find_key-save_row trade_key i t trades)

pub live-found :
    (i : String) (trades : List PaperTrade) {t : PaperTrade}
    → find_key trade_key i trades ≡ some t
    → live i trades ≡ live_row t
unfolding live
live-found i trades found = ground (arith, found)

pub live_bound : (i : String) (trades : List PaperTrade) → live i trades ≤ 1
unfolding live
live_bound i trades = ground arith

pub live-appended :
    (i : String) (t : PaperTrade) (trades : List PaperTrade)
    → is_live t.state ≡ false
    → live i (trades ++ t ∷ []) ≡ live i trades
unfolding live find_key
live-appended i t [] off = ground arith
live-appended i t (x ∷ trades) off = ground (arith, live-appended i t trades off)
