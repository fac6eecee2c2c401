-- ===== src/Portfolio/Positions/Crediting.antt =====
-- What the steps of `confirmFill` of positions.service.ts do to the table of positions.
use arbibot.Base.{
  sum_of-save_new, sum_of-save_row, subst, ℕ, ◌+◌, ◌≤◌, String, ◌≡◌, refl, sym, ap, ◌∙◌, Bool, true,
  false, ◌&&◌, some, List, [], ◌∷◌, length, sum_of, find_by, save_row, str_eq, str_eq_iff,
  opt_str_eq, get_or, All-save_row, All-Occurs, Occurs, rows_under, count, find_by-test,
  find_by-Occurs, rows_under-save_other, rows_under-save_row, Bool-cases, Option-cases, inl, inr,
  ◌≢◌, arith, if◌then◌else◌,
}
use arbibot.Store.Outcome.{Result, ok, err, Result-cases, ok-injective}
use arbibot.Portfolio.Decimal.{value, Text, normalize, is_decimal, frac_part}
use arbibot.Portfolio.Decimal.Format.{units}
use arbibot.Portfolio.Decimal.Sum.{add_sound, normalize-decimal, normalize_lem}
use arbibot.Portfolio.Positions.{
  Position, ConfirmFill, position_key, is_of, save_position, new_position, zero_text,
  found_or_created, add_fill,
}
use arbibot.Portfolio.Positions.Totals.{
  Fits, KeepsUnits, HoldsDecimals, WellFormed, quantity_of, notional_of, Same, Same-refl,
  quantity_of-Same, notional_of-Same, save_position_lem,
}

-- The places of a text that `normalize` takes, and the number that it stands for.
abbrev pub Places : Text → ℕ → Type 0
Places raw k = (s : Text) × (normalize raw ≡ ok s) × (length (frac_part s) ≤ k)

abbrev pub units_or_zero : ℕ → Result Text → ℕ
units_or_zero k (ok s) = units k s
units_or_zero k (err e) = 0

unfoldable pub units_in : ℕ → Text → ℕ
unfolding normalize
units_in k raw = units_or_zero k (normalize raw)

Occurs-save_row : (r : Position) (rows : List Position) → Occurs r (save_row position_key r rows)
unfolding save_row
Occurs-save_row r [] = inl refl
Occurs-save_row r (x ∷ rows) = elim (Bool-cases (str_eq x.id r.id)) [
  | inl hit ↦ rw hit (inl refl)
  | inr miss ↦ rw miss (inr (Occurs-save_row r rows))
]

rows_under-new :
    (r : Position) (k : String) (rows : List Position)
    → rows_under position_key r.id rows ≡ 0
    → rows_under position_key k (save_row position_key r rows)
      ≡ rows_under position_key k rows + (if str_eq r.id k then 1 else 0)
unfolding save_row rows_under count
rows_under-new r k [] fresh = ground arith
rows_under-new r k (x ∷ rows) fresh =
    ground (arith, str_eq_iff x.id r.id, rows_under-new r k rows (ground (arith)))

rows_under-save_new :
    (r : Position) (k : String) (rows : List Position)
    → rows_under position_key r.id rows ≡ 0
    → rows_under position_key k rows ≤ 1
    → rows_under position_key k (save_row position_key r rows) ≤ 1
rows_under-save_new r k rows fresh few = elim (Bool-cases (str_eq r.id k)) [
  | inl hit ↦ ground (
    arith,
    rows_under-new r k rows fresh,
    (let e : rows_under position_key k rows ≡ 0 =
          subst (λ i. rows_under position_key i rows ≡ 0) ((str_eq_iff r.id k).0 hit) fresh in
        e),
  )
  | inr other ↦ ground (arith, rows_under-new r k rows fresh)
]

pub zero-Fits : (k : ℕ) → Fits k zero_text × (units k zero_text ≡ 0)
unfolding is_decimal units value
zero-Fits k = ((refl, omega arith), omega arith)

-- The sums of a fill are exact.
add_fill_lem :
    (dto : ConfirmFill) (r : Position) {r' : Position}
    → HoldsDecimals r
    → Places dto.quantity 18
    → Places (get_or dto.notional_usd zero_text) 8
    → add_fill dto r ≡ ok r'
    → HoldsDecimals r'
      × (r'.id ≡ r.id)
      × (r'.plan_id ≡ r.plan_id)
      × (r'.instrument_key ≡ r.instrument_key)
      × (r'.entity_version ≡ r.entity_version + 1)
      × (units 18 r'.quantity ≡ units 18 r.quantity + units_in 18 dto.quantity)
      × (units 8 r'.notional_usd
          ≡ units 8 r.notional_usd + units_in 8 (get_or dto.notional_usd zero_text))
unfolding add_fill units_in
add_fill_lem dto r {r'} sound (q, eq, fits_q) (n, en, fits_n) e =
    let (c, sum_q, norm_q, few_q, exact_q) =
      add_sound r.quantity dto.quantity 18 (normalize-decimal r.quantity sound.0.0) eq sound.0.1
        fits_q in
    let (d, sum_n, norm_n, few_n, exact_n) =
      add_sound r.notional_usd (get_or dto.notional_usd zero_text) 8
        (normalize-decimal r.notional_usd sound.1.0) en sound.1.1 fits_n in
    let shape : r'
        ≡ record r { quantity = c; notional_usd = d; entity_version = r.entity_version + 1 } =
      ok-injective (sym e ∙ (rw (sum_q, sum_n) refl)) in
    rw shape (
      ((normalize_lem c norm_q, few_q), (normalize_lem d norm_n, few_n)),
      refl,
      refl,
      refl,
      refl,
      rw eq exact_q,
      rw en exact_n,
    )

-- The amounts of a fill in the sum of a plan and an instrument.
abbrev pub credit : String → String → ConfirmFill → ℕ → ℕ
credit plan instrument dto n =
    if str_eq dto.plan_id plan && str_eq dto.instrument_key instrument then n else 0

-- A table with the row that a fill goes to.
pub record Ready (fresh : String) (dto : ConfirmFill) (rows rows' : List Position) (r : Position)
    : Type 0 where
  pub well_formed : WellFormed rows'
  stored : Position
  present : Occurs stored rows'
  same : Same r stored
  sound : HoldsDecimals r
  its_plan : r.plan_id ≡ some dto.plan_id
  its_instrument : r.instrument_key ≡ dto.instrument_key
  other_ids :
      (k : String) → k ≢ fresh → rows_under position_key k rows' ≡ rows_under position_key k rows
  quantity_kept :
      (plan instrument : String)
      → sum_of (quantity_of plan instrument) rows' ≡ sum_of (quantity_of plan instrument) rows
  notional_kept :
      (plan instrument : String)
      → sum_of (notional_of plan instrument) rows' ≡ sum_of (notional_of plan instrument) rows

is_of_lem :
    (plan instrument : String) (r : Position)
    → is_of plan instrument r ≡ true
    → (r.plan_id ≡ some plan) × (r.instrument_key ≡ instrument)
unfolding is_of opt_str_eq
is_of_lem plan instrument r h = elim (Option-cases r.plan_id) [
  | inl missing ↦ absurd (ground arith)
  | inr (p, there) ↦ (
    there ∙ ap some ((str_eq_iff p plan).0 (ground arith)),
    (str_eq_iff r.instrument_key instrument).0 (ground arith),
  )
]

found_row :
    (fresh : String) (dto : ConfirmFill) (rows : List Position) (r : Position)
    → WellFormed rows
    → find_by (is_of dto.plan_id dto.instrument_key) rows ≡ some r
    → Ready fresh dto rows rows r
found_row fresh dto rows r wf found =
    let test : is_of dto.plan_id dto.instrument_key r ≡ true =
      find_by-test (is_of dto.plan_id dto.instrument_key) rows found in
    let its = is_of_lem dto.plan_id dto.instrument_key r test in
    let there : Occurs r rows = find_by-Occurs (is_of dto.plan_id dto.instrument_key) rows found in
    record {
      well_formed = wf;
      stored = r;
      present = there;
      same = Same-refl r;
      sound = All-Occurs HoldsDecimals rows wf.0 there;
      its_plan = its.0;
      its_instrument = its.1;
      other_ids = λ k other. refl;
      quantity_kept = λ plan instrument. refl;
      notional_kept = λ plan instrument. refl;
    }

created_row :
    (dto : ConfirmFill) (fresh : String) (rows : List Position) (s : Position)
    → WellFormed rows
    → rows_under position_key fresh rows ≡ 0
    → Same (new_position fresh dto) s
    → HoldsDecimals s
    → Ready fresh dto rows (save_row position_key s rows) (new_position fresh dto)
unfolding new_position
created_row dto fresh rows s wf unused same sound =
    let unused' : rows_under position_key s.id rows ≡ 0 =
      subst (λ k. rows_under position_key k rows ≡ 0) (sym same.same_id) unused in
    let (fits_q, zero_q) = zero-Fits 18 in
    let (fits_n, zero_n) = zero-Fits 8 in
    record {
      well_formed = (
        All-save_row position_key HoldsDecimals s rows sound wf.0,
        λ k. rows_under-save_new s k rows unused' (wf.1 k),
      );
      stored = s;
      present = Occurs-save_row s rows;
      same = same;
      sound = (fits_q, fits_n);
      its_plan = refl;
      its_instrument = refl;
      other_ids = λ k other.
          rows_under-save_other position_key k s rows (λ e. other (sym e ∙ same.same_id));
      quantity_kept = λ plan instrument. ground (
        arith,
        sum_of-save_new position_key (quantity_of plan instrument) s rows unused',
        same.same_quantity,
        zero_q,
      );
      notional_kept = λ plan instrument. ground (
        arith,
        sum_of-save_new position_key (notional_of plan instrument) s rows unused',
        same.same_notional,
        zero_n,
      );
    }

-- The row of the fill is there, or saved over the one that was.
pub record Credited (fresh : String) (dto : ConfirmFill) (rows rows' : List Position) : Type 0 where
  pub well_formed : WellFormed rows'
  pub new_ids :
      (k : String) → k ≢ fresh → rows_under position_key k rows' ≡ rows_under position_key k rows
  pub quantity_added :
      (plan instrument : String)
      → sum_of (quantity_of plan instrument) rows'
        ≡ sum_of (quantity_of plan instrument) rows
          + credit plan instrument dto (units_in 18 dto.quantity)
  pub notional_added :
      (plan instrument : String)
      → sum_of (notional_of plan instrument) rows'
        ≡ sum_of (notional_of plan instrument) rows
          + credit plan instrument dto (units_in 8 (get_or dto.notional_usd zero_text))

-- What a row weighs more after the sums of a fill.
weight_added :
    (plan instrument : String) (dto : ConfirmFill) (r r' : Position)
    → r'.plan_id ≡ r.plan_id
    → r'.instrument_key ≡ r.instrument_key
    → r.plan_id ≡ some dto.plan_id
    → r.instrument_key ≡ dto.instrument_key
    → (is_of plan instrument r' ≡ is_of plan instrument r)
      × (is_of plan instrument r
          ≡ (str_eq dto.plan_id plan && str_eq dto.instrument_key instrument))
unfolding is_of opt_str_eq
weight_added plan instrument dto r r' a b c d = (
  λ i. opt_str_eq (a i) (some plan) && str_eq (b i) instrument,
  λ i. opt_str_eq (c i) (some plan) && str_eq (d i) instrument,
)

if_added :
    (t : Bool) (a b c : ℕ)
    → a ≡ b + c
    → (if t then a else 0) ≡ (if t then b else 0) + (if t then c else 0)
if_added true a b c e = e
if_added false a b c e = omega arith

-- The balance of a table after a save over the row of the fill.
sum_saved :
    (f : Position → ℕ) (rows rows' : List Position) (stored r r' s : Position) (c : ℕ)
    → sum_of f rows' ≡ sum_of f rows
    → sum_of f (save_row position_key s rows') + f stored ≡ sum_of f rows' + f s
    → f s ≡ f r'
    → f stored ≡ f r
    → f r' ≡ f r + c
    → sum_of f (save_row position_key s rows') ≡ sum_of f rows + c
sum_saved f rows rows' stored r r' s c kept saved new_one old_one more = omega arith

module _ (quantity_column notional_column : Text → Result Text) where
  pub found_or_created_lem :
      (fresh : String) (dto : ConfirmFill) (rows : List Position) {r : Position}
      {rows' : List Position}
      → KeepsUnits 18 quantity_column
      → KeepsUnits 8 notional_column
      → WellFormed rows
      → rows_under position_key fresh rows ≡ 0
      → found_or_created quantity_column notional_column fresh dto
          (find_by (is_of dto.plan_id dto.instrument_key) rows)
          rows
        ≡ ok (r, rows')
      → Ready fresh dto rows rows' r
  unfolding found_or_created
  found_or_created_lem fresh dto rows {r} {rows'} keeps_q keeps_n wf unused e =
      elim (Option-cases (find_by (is_of dto.plan_id dto.instrument_key) rows)) [
        | inr (x, found) ↦
            let there : ok (x, rows) ≡ ok (r, rows') = rw found at e in
            subst (λ p. Ready fresh dto rows p.1 p.0) (ok-injective there)
              (found_row fresh dto rows x wf found)
        | inl missing ↦
            elim (Result-cases
              (save_position quantity_column notional_column (new_position fresh dto) rows)) [
                | inr (x, failed) ↦ absurd (ground arith)
                | inl (rows_saved, saved) ↦
                    let there : ok (new_position fresh dto, rows_saved) ≡ ok (r, rows') =
                      rw (missing, saved) at e in
                    let (s, shape, same, sound) =
                      save_position_lem quantity_column notional_column (new_position fresh dto)
                        rows keeps_q keeps_n ((zero-Fits 18).0, (zero-Fits 8).0) saved in
                    subst (λ p. Ready fresh dto rows p.1 p.0) (ok-injective there)
                      (subst (λ t. Ready fresh dto rows t (new_position fresh dto)) (sym shape)
                        (created_row dto fresh rows s wf unused same sound))
              ]
      ]

  pub saved_fill :
      (fresh : String) (dto : ConfirmFill) (rows rows' rows_saved : List Position) (r r' : Position)
      → KeepsUnits 18 quantity_column
      → KeepsUnits 8 notional_column
      → Places dto.quantity 18
      → Places (get_or dto.notional_usd zero_text) 8
      → Ready fresh dto rows rows' r
      → add_fill dto r ≡ ok r'
      → save_position quantity_column notional_column r' rows' ≡ ok rows_saved
      → Credited fresh dto rows rows_saved
  saved_fill fresh dto rows rows' rows_saved r r' keeps_q keeps_n fits_q fits_n h added saved =
      let (sound, i, p, k, _, q, n) = add_fill_lem dto r h.sound fits_q fits_n added in
      let (s, shape, same, sound_s) =
        save_position_lem quantity_column notional_column r' rows' keeps_q keeps_n sound saved in
      let over : s.id ≡ h.stored.id = same.same_id ∙ i ∙ sym h.same.same_id in
      let step : (f : Position → ℕ)
          → sum_of f (save_row position_key s rows') + f h.stored ≡ sum_of f rows' + f s =
        λ f.
          sum_of-save_row position_key f h.stored s rows' h.present over (h.well_formed.1 s.id) in
      subst (Credited fresh dto rows) (sym shape) (record {
        well_formed = (
          All-save_row position_key HoldsDecimals s rows' sound_s h.well_formed.0,
          λ i.
              subst (λ m. m ≤ 1) (sym (rows_under-save_row position_key i s rows' h.present over))
                (h.well_formed.1 i),
        );
        new_ids = λ k other.
            rows_under-save_row position_key k s rows' h.present over ∙ h.other_ids k other;
        quantity_added = λ plan instrument.
            let (same_test, test) =
              weight_added plan instrument dto r r' p k h.its_plan h.its_instrument in
            sum_saved (quantity_of plan instrument) rows rows' h.stored r r' s
              (credit plan instrument dto (units_in 18 dto.quantity))
              (h.quantity_kept plan instrument) (step (quantity_of plan instrument))
              (quantity_of-Same plan instrument same) (quantity_of-Same plan instrument h.same)
              (rw (same_test, test) (if_added _ _ _ _ q));
        notional_added = λ plan instrument.
            let (same_test, test) =
              weight_added plan instrument dto r r' p k h.its_plan h.its_instrument in
            sum_saved (notional_of plan instrument) rows rows' h.stored r r' s
              (credit plan instrument dto (units_in 8 (get_or dto.notional_usd zero_text)))
              (h.notional_kept plan instrument) (step (notional_of plan instrument))
              (notional_of-Same plan instrument same) (notional_of-Same plan instrument h.same)
              (rw (same_test, test) (if_added _ _ _ _ n));
      })
