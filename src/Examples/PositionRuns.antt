-- ===== src/Examples/PositionRuns.antt =====
-- Runs of portfolio-service.
use arbibot.Base.{
  replicate, str_eq, str_eq_iff, false, ◌*◌, ◌^◌, subst, ℕ, ◌+◌, ◌≤◌, String, ◌≡◌, ◌≢◌, refl, true,
  false, Option, none, some, List, [], ◌∷◌, ◌++◌, Bool, find_key, length, sum_of, ◌⊎◌, arith, All,
  rows_under,
}
use arbibot.Store.Outcome.{Result, ok, err, failure, ok-injective}
use arbibot.Portfolio.Decimal.{
  split_point, Text, normalize, frac_part, is_decimal, add_non_negative_decimal_strings,
  format_scaled,
}
use arbibot.Portfolio.Decimal.Format.{units, format_scaled_lem}
use arbibot.Portfolio.Decimal.Sum.{add_sound}
use arbibot.Portfolio.Decimal.Grammar.{Numeral}
use arbibot.Portfolio.Decimal.Normal.{add_cases}
use arbibot.Portfolio.Positions.{
  Position, Portfolio, ConfirmFill, ClosePosition, CloseAudit, close_idempotent, position_key,
  confirm_fill, close, zero_text, is_zero_quantity, close_key, key_known, version_matches,
}
use arbibot.Portfolio.Positions.Totals.{Fits, KeepsUnits, WellFormed, Same}
use arbibot.Portfolio.Positions.Crediting.{Places}
use arbibot.Portfolio.Positions.Fills.{quantity_total, notional_total}
use arbibot.Portfolio.Positions.Deliveries.{
  Delivery, Fitting, UnusedIds, once, quantity_credit, notional_credit, deliver, deliver-once,
}
use arbibot.Portfolio.Positions.Close.{closed_row, CloseEffect, close_sound, close_again}

-- "1.25", "0.750" and "2", with the code units of a decimal text.
abbrev one_and_a_quarter : Text
one_and_a_quarter = 49 ∷ 46 ∷ 50 ∷ 53 ∷ []

abbrev three_quarters : Text
three_quarters = 48 ∷ 46 ∷ 55 ∷ 53 ∷ 48 ∷ []

-- " +7".
abbrev signed_seven : Text
signed_seven = 32 ∷ 43 ∷ 55 ∷ []

carried : add_non_negative_decimal_strings one_and_a_quarter three_quarters ≡ ok (50 ∷ [])
unfolding add_non_negative_decimal_strings replicate
carried = refl

signed : add_non_negative_decimal_strings signed_seven three_quarters ≡ ok (55 ∷ 46 ∷ 55 ∷ 53 ∷ [])
unfolding add_non_negative_decimal_strings replicate
signed = refl

refused_text : add_non_negative_decimal_strings (45 ∷ 49 ∷ []) three_quarters ≡ err failure
unfolding add_non_negative_decimal_strings
refused_text = refl

normal_a : normalize one_and_a_quarter ≡ ok one_and_a_quarter
unfolding normalize
normal_a = refl

normal_b : normalize three_quarters ≡ ok three_quarters
unfolding normalize
normal_b = refl

few_a : length (frac_part one_and_a_quarter) ≤ 18
unfolding split_point
few_a = omega arith

few_b : length (frac_part three_quarters) ≤ 18
unfolding split_point
few_b = omega arith

add_sound_example :
    (c : Text) × (add_non_negative_decimal_strings one_and_a_quarter three_quarters ≡ ok c)
    × (normalize c ≡ ok c)
    × (length (frac_part c) ≤ 18)
    × (units 18 c ≡ units 18 one_and_a_quarter + units 18 three_quarters)
add_sound_example = add_sound one_and_a_quarter three_quarters 18 normal_a normal_b few_a few_b

format_scaled_lem_example :
    (is_decimal (format_scaled 1050 3) ≡ true)
    × (length (frac_part (format_scaled 1050 3)) ≤ 3)
    × (units 3 (format_scaled 1050 3) ≡ 1050)
format_scaled_lem_example = format_scaled_lem 1050 3

-- "-1" is no decimal.
add_cases_example :
    ((c : Text) × (add_non_negative_decimal_strings (45 ∷ 49 ∷ []) three_quarters ≡ ok c)
      × Numeral (45 ∷ 49 ∷ [])
      × Numeral three_quarters)
    ⊎ ((add_non_negative_decimal_strings (45 ∷ 49 ∷ []) three_quarters ≡ err failure)
        × (¬ Numeral (45 ∷ 49 ∷ []) ⊎ ¬ Numeral three_quarters))
add_cases_example = add_cases (45 ∷ 49 ∷ []) three_quarters

-- Columns wide enough for every text.
abbrev wide : Text → Result Text
wide s = ok s

wide_keeps : (k : ℕ) → KeepsUnits k wide
wide_keeps k s t fits e =
    subst (λ x. Fits k x × (units k x ≡ units k s)) (ok-injective e) (fits, refl)

abbrev empty : Portfolio
empty = record { positions = []; fill_keys = []; close_keys = []; audited = [] }

empty-WellFormed : WellFormed empty.positions
unfolding rows_under
empty-WellFormed = (tt, λ i. omega arith)

abbrev fill : ConfirmFill
fill = record {
  plan_id = "p1";
  leg_id = "l1";
  instrument_key = "WETH";
  quantity = one_and_a_quarter;
  notional_usd = none;
  idempotency_key = "k1";
}

abbrev portfolio_of : Result Portfolio → Portfolio
portfolio_of (ok p) = p
portfolio_of (err e) = empty

abbrev second_fill : ConfirmFill
second_fill = record {
  plan_id = "p1";
  leg_id = "l1";
  instrument_key = "WETH";
  quantity = three_quarters;
  notional_usd = some one_and_a_quarter;
  idempotency_key = "k2";
}

quarter_holds : Places one_and_a_quarter 18
quarter_holds = (one_and_a_quarter, normal_a, few_a)

three_hold : Places three_quarters 18
three_hold = (three_quarters, normal_b, few_b)

free : Places zero_text 8
unfolding normalize split_point
free = (zero_text, refl, omega arith)

priced : Places one_and_a_quarter 8
unfolding normalize split_point
priced = (one_and_a_quarter, refl, omega arith)

abbrev deliveries : List Delivery
deliveries = ("x1", fill) ∷ ("x2", second_fill) ∷ ("x3", fill) ∷ []

differ : (a b : String) → str_eq a b ≡ false → a ≢ b
differ a b h e = absurd (ground (arith, str_eq_iff a b))

distinct_ids : UnusedIds deliveries empty.positions
unfolding rows_under str_eq
distinct_ids = (
  refl,
  (differ "x2" "x1" refl, (differ "x3" "x1" refl, tt)),
  (refl, (differ "x3" "x2" refl, tt), (refl, tt, tt)),
)

all_fit : All Fitting deliveries
all_fit = ((quarter_holds, free), ((three_hold, priced), ((quarter_holds, free), tt)))

abbrev after_deliveries : Portfolio
after_deliveries = portfolio_of (deliver wide wide deliveries empty)

delivered : deliver wide wide deliveries empty ≡ ok after_deliveries
unfolding deliver replicate
delivered = refl

deliver-once_example :
    WellFormed after_deliveries.positions
    × (quantity_total "p1" "WETH" after_deliveries
        ≡ quantity_total "p1" "WETH" empty
          + sum_of (quantity_credit "p1" "WETH") (once empty.fill_keys deliveries))
    × (notional_total "p1" "WETH" after_deliveries
        ≡ notional_total "p1" "WETH" empty
          + sum_of (notional_credit "p1" "WETH") (once empty.fill_keys deliveries))
deliver-once_example =
    deliver-once wide wide deliveries empty "p1" "WETH" (wide_keeps 18) (wide_keeps 8)
      empty-WellFormed distinct_ids all_fit delivered

two_units : quantity_total "p1" "WETH" after_deliveries ≡ 2 * 10 ^ 18
unfolding deliver sum_of replicate units
two_units = refl

abbrev closing : ClosePosition
closing = record {
  operator_id = "op";
  idempotency_key = some " c1 ";
  approve_reason = none;
  expected_entity_version = some 3;
}

abbrev row_of : Result (Position × Portfolio) → Position
row_of (ok (r, p)) = r
row_of (err e) = record {
  id = "";
  plan_id = none;
  instrument_key = "";
  quantity = zero_text;
  notional_usd = zero_text;
  entity_version = 0;
}

abbrev tables_of : Result (Position × Portfolio) → Portfolio
tables_of (ok (r, p)) = p
tables_of (err e) = empty

abbrev found_row : Option Position → Position
found_row none = row_of (err failure)
found_row (some r) = r

abbrev open_row : Position
open_row = found_row (find_key position_key "x1" after_deliveries.positions)

-- The audit service takes every entry, and it takes none.
abbrev heard : CloseAudit → Bool
heard entry = true

abbrev unheard : CloseAudit → Bool
unheard entry = false

abbrev answer : Position
answer = row_of (close wide wide heard "x1" closing after_deliveries)

abbrev after_close : Portfolio
after_close = tables_of (close wide wide heard "x1" closing after_deliveries)

open_is_found : find_key position_key "x1" after_deliveries.positions ≡ some open_row
unfolding deliver find_key replicate
open_is_found = refl

closed_now : close wide wide heard "x1" closing after_deliveries ≡ ok (answer, after_close)
unfolding close deliver replicate
closed_now = refl

-- A close whose audit call throws is rolled back.
close_rolls_back : close wide wide unheard "x1" closing after_deliveries ≡ err failure
unfolding close deliver replicate
close_rolls_back = refl

key_given : close_key closing ≡ some "c1"
unfolding close_key
key_given = refl

some_left : is_zero_quantity open_row.quantity ≡ false
unfolding is_zero_quantity deliver find_key replicate
some_left = refl

close_sound_example :
    (old : Position) × (find_key position_key "x1" after_deliveries.positions ≡ some old)
    × (((key_known "x1" (close_key closing) after_deliveries.close_keys ≡ true)
          × (answer ≡ old)
          × (after_close ≡ after_deliveries))
        ⊎ ((version_matches closing.expected_entity_version old.entity_version ≡ true)
            × (is_zero_quantity old.quantity ≡ true)
            × (answer ≡ old)
            × (after_close ≡ record after_deliveries {
              audited = after_deliveries.audited ++ close_idempotent "x1" closing.operator_id ∷ [];
            }))
        ⊎ ((version_matches closing.expected_entity_version old.entity_version ≡ true)
            × (is_zero_quantity old.quantity ≡ false)
            × (answer ≡ closed_row old)
            × CloseEffect "x1" closing old after_deliveries after_close))
close_sound_example =
    close_sound wide wide heard "x1" closing after_deliveries (wide_keeps 18) (wide_keeps 8)
      deliver-once_example.0 closed_now

close_again_example :
    (s : Position) × (close wide wide heard "x1" closing after_close ≡ ok (s, after_close))
    × Same answer s
close_again_example =
    close_again wide wide heard "x1" closing after_deliveries (wide_keeps 18) (wide_keeps 8)
      deliver-once_example.0 key_given open_is_found some_left closed_now

-- After the close the notional of the position is still there, and the next fill counts it again.
abbrev third_fill : ConfirmFill
third_fill = record second_fill { idempotency_key = "k3" }

notional_is_kept :
    notional_total "p1" "WETH" (portfolio_of (confirm_fill wide wide "x4" third_fill after_close))
    ≡ 250000000
unfolding confirm_fill close deliver sum_of replicate units
notional_is_kept = refl

-- A close under a key that met a quantity of zero does not record it: after the next fill, the same call
-- closes the position.
abbrev early_close : ClosePosition
early_close = record {
  operator_id = "op";
  idempotency_key = some "c2";
  approve_reason = none;
  expected_entity_version = none;
}

abbrev after_early : Portfolio
after_early = tables_of (close wide wide heard "x1" early_close after_close)

late_close :
    quantity_total "p1" "WETH" (
      tables_of (
        close wide wide heard "x1" early_close
          (portfolio_of (confirm_fill wide wide "x4" third_fill after_early))))
    ≡ 0
unfolding confirm_fill close deliver sum_of replicate units
late_close = refl
