-- ===== src/Portfolio/Positions/Deliveries.antt =====
-- Sequences of calls of `confirmFill` of positions.service.ts, in which fills come again.
use arbibot.Base.{
  subst, ℕ, ◌+◌, String, ◌≡◌, ◌≢◌, refl, sym, ap, ◌∙◌, true, List, [], ◌∷◌, ◌++◌, sum_of, get_or,
  rows_under, Bool-cases, inl, inr, arith, if◌then◌else◌, All,
}
use arbibot.Store.Outcome.{Result, ok, Result-cases, ok-injective, ◌>>=◌}
use arbibot.Portfolio.Decimal.{Text}
use arbibot.Portfolio.Positions.{
  Position, Portfolio, ConfirmFill, PositionFillKey, position_key, zero_text, confirm_fill,
}
use arbibot.Portfolio.Positions.Totals.{KeepsUnits, WellFormed}
use arbibot.Portfolio.Positions.Crediting.{Places, units_in, credit}
use arbibot.Portfolio.Positions.Fills.{fill_key, known, quantity_total, notional_total, new_fill}

-- A call, with the id that a new row would get.
abbrev pub Delivery : Type 0
Delivery = String × ConfirmFill

abbrev pub Fitting : Delivery → Type 0
Fitting d = Places d.1.quantity 18 × Places (get_or d.1.notional_usd zero_text) 8

-- The ids of new rows are neither in use nor given twice.
abbrev pub UnusedIds : List Delivery → List Position → Type 0
UnusedIds [] rows = Unit
UnusedIds (d ∷ ds) rows =
    (rows_under position_key d.0 rows ≡ 0) × All (λ x. x.0 ≢ d.0) ds × UnusedIds ds rows

-- The contract of the endpoint: of the fills that come, each leg and key counts once.
unfoldable pub once : List PositionFillKey → List Delivery → List ConfirmFill
once keys [] = []
once keys (d ∷ ds) =
    let again = once keys ds in
    let rest = once (keys ++ fill_key d.1 ∷ []) ds in if known d.1 keys then again else d.1 ∷ rest

abbrev pub quantity_credit : String → String → ConfirmFill → ℕ
quantity_credit plan instrument dto = credit plan instrument dto (units_in 18 dto.quantity)

abbrev pub notional_credit : String → String → ConfirmFill → ℕ
notional_credit plan instrument dto =
    credit plan instrument dto (units_in 8 (get_or dto.notional_usd zero_text))

UnusedIds-step :
    (fresh : String) (ds : List Delivery) (rows rows' : List Position)
    → ((k : String) → k ≢ fresh → rows_under position_key k rows' ≡ rows_under position_key k rows)
    → All (λ x. x.0 ≢ fresh) ds
    → UnusedIds ds rows
    → UnusedIds ds rows'
UnusedIds-step fresh [] rows rows' kept others h = tt
UnusedIds-step fresh (d ∷ ds) rows rows' kept others h =
    (kept d.0 others.0 ∙ h.0, h.1, UnusedIds-step fresh ds rows rows' kept others.1 h.2)

module _ (quantity_column notional_column : Text → Result Text) where
  -- The calls in their order, as far as none fails.
  unfoldable pub deliver : List Delivery → Portfolio → Result Portfolio
  unfolding confirm_fill
  deliver [] p = ok p
  deliver (d ∷ ds) p =
      confirm_fill quantity_column notional_column d.0 d.1 p >>= λ p'. deliver ds p'

  known_again :
      (d : Delivery) (p : Portfolio) {p' : Portfolio}
      → known d.1 p.fill_keys ≡ true
      → confirm_fill quantity_column notional_column d.0 d.1 p ≡ ok p'
      → ok p ≡ ok p'
  unfolding confirm_fill
  known_again d p again e = rw again at e

  -- A sequence of calls that succeed adds to each plan and instrument exactly the quantities and the
  -- notionals of the fills that are new to the table of keys, each counted once however often it is
  -- delivered. The amounts have at most 18 and 8 decimal places, the columns keep the numbers of texts
  -- that they take, and the ids of new rows are neither in use nor given twice.
  pub deliver-once :
      (ds : List Delivery) (p : Portfolio) {p' : Portfolio} (plan instrument : String)
      → KeepsUnits 18 quantity_column
      → KeepsUnits 8 notional_column
      → WellFormed p.positions
      → UnusedIds ds p.positions
      → All Fitting ds
      → deliver ds p ≡ ok p'
      → WellFormed p'.positions
        × (quantity_total plan instrument p'
            ≡ quantity_total plan instrument p
              + sum_of (quantity_credit plan instrument) (once p.fill_keys ds))
        × (notional_total plan instrument p'
            ≡ notional_total plan instrument p
              + sum_of (notional_credit plan instrument) (once p.fill_keys ds))
  unfolding deliver once sum_of
  deliver-once [] p {p'} plan instrument keeps_q keeps_n wf unused fits e =
      let same : p ≡ p' = ok-injective e in
      subst
        (λ x.
          WellFormed x.positions
          × (quantity_total plan instrument x ≡ quantity_total plan instrument p + 0)
          × (notional_total plan instrument x ≡ notional_total plan instrument p + 0))
        same (wf, omega arith, omega arith)
  deliver-once (d ∷ ds) p {p'} plan instrument keeps_q keeps_n wf unused fits e =
      elim (Result-cases (confirm_fill quantity_column notional_column d.0 d.1 p)) [
        | inr (x, failed) ↦ absurd (ground arith)
        | inl (p1, first) ↦
            let later : deliver ds p1 ≡ ok p' = rw first at e in
            elim (Bool-cases (known d.1 p.fill_keys)) [
              | inl again ↦
                  let same : p1 ≡ p =
                    sym (ok-injective (let x : ok p ≡ ok p1 = known_again d p again first in x)) in
                  let (wf', q, n) =
                    deliver-once ds p plan instrument keeps_q keeps_n wf unused.2 fits.1
                      (subst (λ x. deliver ds x ≡ ok p') same later) in
                  let rest : once p.fill_keys (d ∷ ds) ≡ once p.fill_keys ds = rw again refl in
                  (
                    wf',
                    omega (arith, q, ap (sum_of (quantity_credit plan instrument)) rest),
                    omega (arith, n, ap (sum_of (notional_credit plan instrument)) rest),
                  )
              | inr fresh_key ↦
                  let (added, keys, _) =
                    new_fill quantity_column notional_column d.0 d.1 p keeps_q keeps_n wf unused.0
                      fits.0.0 fits.0.1 fresh_key first in
                  let (wf', q, n) =
                    deliver-once ds p1 plan instrument keeps_q keeps_n added.well_formed
                      (UnusedIds-step d.0 ds p.positions p1.positions added.new_ids unused.1
                        unused.2)
                      fits.1 later in
                  let rest : once p.fill_keys (d ∷ ds) ≡ d.1 ∷ once p1.fill_keys ds =
                    rw (fresh_key, keys) refl in
                  (
                    wf',
                    omega (
                      arith,
                      q,
                      added.quantity_added plan instrument,
                      ap (sum_of (quantity_credit plan instrument)) rest,
                    ),
                    omega (
                      arith,
                      n,
                      added.notional_added plan instrument,
                      ap (sum_of (notional_credit plan instrument)) rest,
                    ),
                  )
            ]
      ]
