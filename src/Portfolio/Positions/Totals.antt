-- ===== src/Portfolio/Positions/Totals.antt =====
-- Sums over the rows of portfolio_positions, and what a save does to them.
use arbibot.Base.{
  ℕ, ◌≤◌, String, ◌≡◌, refl, true, ◌&&◌, some, List, length, save_row, str_eq, opt_str_eq, All,
  rows_under, inl, inr, arith, if◌then◌else◌,
}
use arbibot.Store.Outcome.{Result, ok, Result-cases}
use arbibot.Portfolio.Decimal.{Text, is_decimal, frac_part}
use arbibot.Portfolio.Decimal.Format.{units}
use arbibot.Portfolio.Positions.{Position, position_key, is_of, save_position}

-- A decimal text of at most `k` places.
abbrev pub Fits : ℕ → Text → Type 0
Fits k s = (is_decimal s ≡ true) × (length (frac_part s) ≤ k)

-- What the source relies on of a column `numeric(p, k)`: where it takes a decimal of at most `k` places,
-- it gives back one of the same number.
abbrev pub KeepsUnits : ℕ → (Text → Result Text) → Type 0
KeepsUnits k column = (s t : Text) → Fits k s → column s ≡ ok t → Fits k t × (units k t ≡ units k s)

-- The columns hold decimals: 18 places of the quantity, 8 of the notional.
abbrev pub HoldsDecimals : Position → Type 0
HoldsDecimals r = Fits 18 r.quantity × Fits 8 r.notional_usd

abbrev pub OneRowPerId : List Position → Type 0
OneRowPerId rows = (i : String) → rows_under position_key i rows ≤ 1

abbrev pub WellFormed : List Position → Type 0
WellFormed rows = All HoldsDecimals rows × OneRowPerId rows

-- The units that a plan holds of an instrument, and their notional.
abbrev pub quantity_of : String → String → Position → ℕ
quantity_of plan instrument r = if is_of plan instrument r then units 18 r.quantity else 0

abbrev pub notional_of : String → String → Position → ℕ
notional_of plan instrument r = if is_of plan instrument r then units 8 r.notional_usd else 0

-- Two rows of one position at one version, with the same numbers.
pub record Same (r s : Position) : Type 0 where
  pub same_id : s.id ≡ r.id
  pub same_plan : s.plan_id ≡ r.plan_id
  pub same_instrument : s.instrument_key ≡ r.instrument_key
  pub same_quantity : units 18 s.quantity ≡ units 18 r.quantity
  pub same_notional : units 8 s.notional_usd ≡ units 8 r.notional_usd
  pub same_version : s.entity_version ≡ r.entity_version

pub Same-refl : (r : Position) → Same r r
Same-refl r = record {
  same_id = refl;
  same_plan = refl;
  same_instrument = refl;
  same_quantity = refl;
  same_notional = refl;
  same_version = refl;
}

pub quantity_of-Same :
    (plan instrument : String) {r s : Position}
    → Same r s
    → quantity_of plan instrument s ≡ quantity_of plan instrument r
unfolding is_of
quantity_of-Same plan instrument {r} {s} e = λ i.
    if opt_str_eq (e.same_plan i) (some plan) && str_eq (e.same_instrument i) instrument
    then e.same_quantity i
    else 0

pub notional_of-Same :
    (plan instrument : String) {r s : Position}
    → Same r s
    → notional_of plan instrument s ≡ notional_of plan instrument r
unfolding is_of
notional_of-Same plan instrument {r} {s} e = λ i.
    if opt_str_eq (e.same_plan i) (some plan) && str_eq (e.same_instrument i) instrument
    then e.same_notional i
    else 0

module _ (quantity_column notional_column : Text → Result Text) where
  -- What a save stores.
  pub save_position_lem :
      (r : Position) (rows : List Position) {rows' : List Position}
      → KeepsUnits 18 quantity_column
      → KeepsUnits 8 notional_column
      → HoldsDecimals r
      → save_position quantity_column notional_column r rows ≡ ok rows'
      → (s : Position) × (rows' ≡ save_row position_key s rows) × Same r s × HoldsDecimals s
  unfolding save_position
  save_position_lem r rows {rows'} keeps_q keeps_n sound e =
      elim (Result-cases (quantity_column r.quantity)) [
        | inr (x, failed) ↦ absurd (ground arith)
        | inl (q, eq) ↦ elim (Result-cases (notional_column r.notional_usd)) [
          | inr (x, failed) ↦ absurd (ground arith)
          | inl (n, en) ↦
              let (fits_q, same_q) = keeps_q r.quantity q sound.0 eq in
              let (fits_n, same_n) = keeps_n r.notional_usd n sound.1 en in
              (
                record r { quantity = q; notional_usd = n },
                ground arith,
                record {
                  same_id = refl;
                  same_plan = refl;
                  same_instrument = refl;
                  same_quantity = same_q;
                  same_notional = same_n;
                  same_version = refl;
                },
                (fits_q, fits_n),
              )
        ]
      ]
