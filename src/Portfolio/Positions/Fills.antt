-- ===== src/Portfolio/Positions/Fills.antt =====
-- `confirmFill` of positions.service.ts: what a fill adds, and what a sequence of deliveries adds up to.
use arbibot.Base.{
  subst, ℕ, String, ◌≡◌, sym, Bool, false, List, [], ◌∷◌, ◌++◌, any, sum_of, find_by, get_or,
  rows_under, inl, inr, arith,
}
use arbibot.Store.Outcome.{Result, ok, Result-cases}
use arbibot.Portfolio.Decimal.{Text}
use arbibot.Portfolio.Positions.{
  Portfolio, ConfirmFill, PositionFillKey, position_key, is_of, save_position, zero_text,
  found_or_created, add_fill, confirm_fill, same_fill,
}
use arbibot.Portfolio.Positions.Totals.{KeepsUnits, WellFormed, quantity_of, notional_of}
use arbibot.Portfolio.Positions.Crediting.{Places, Credited, found_or_created_lem, saved_fill}

abbrev pub fill_key : ConfirmFill → PositionFillKey
fill_key dto = record { leg_id = dto.leg_id; idempotency_key = dto.idempotency_key }

abbrev pub known : ConfirmFill → List PositionFillKey → Bool
known dto keys = any (same_fill dto.leg_id dto.idempotency_key) keys

abbrev pub quantity_total : String → String → Portfolio → ℕ
quantity_total plan instrument p = sum_of (quantity_of plan instrument) p.positions

abbrev pub notional_total : String → String → Portfolio → ℕ
notional_total plan instrument p = sum_of (notional_of plan instrument) p.positions

module _ (quantity_column notional_column : Text → Result Text) where
  pub new_fill :
      (fresh : String) (dto : ConfirmFill) (p : Portfolio) {p' : Portfolio}
      → KeepsUnits 18 quantity_column
      → KeepsUnits 8 notional_column
      → WellFormed p.positions
      → rows_under position_key fresh p.positions ≡ 0
      → Places dto.quantity 18
      → Places (get_or dto.notional_usd zero_text) 8
      → known dto p.fill_keys ≡ false
      → confirm_fill quantity_column notional_column fresh dto p ≡ ok p'
      → Credited fresh dto p.positions p'.positions
        × (p'.fill_keys ≡ p.fill_keys ++ fill_key dto ∷ [])
        × (p'.close_keys ≡ p.close_keys)
  unfolding confirm_fill
  new_fill fresh dto p {p'} keeps_q keeps_n wf unused fits_q fits_n unknown e =
      elim (Result-cases (
        found_or_created quantity_column notional_column fresh dto
          (find_by (is_of dto.plan_id dto.instrument_key) p.positions) p.positions)) [
            | inr (x, failed) ↦ absurd (ground arith)
            | inl ((r, rows'), found) ↦ elim (Result-cases (add_fill dto r)) [
              | inr (x, failed) ↦ absurd (ground arith)
              | inl (r', added) ↦
                  elim (Result-cases (save_position quantity_column notional_column r' rows')) [
                    | inr (x, failed) ↦ absurd (ground arith)
                    | inl (rows_saved, saved) ↦
                        let ready =
                          found_or_created_lem quantity_column notional_column fresh dto p.positions
                            keeps_q keeps_n wf unused found in
                        let shape : p'.positions ≡ rows_saved = ground arith in
                        (
                          subst (Credited fresh dto p.positions) (sym shape) (
                              saved_fill quantity_column notional_column fresh dto p.positions rows'
                                rows_saved r r' keeps_q keeps_n fits_q fits_n ready added saved),
                          ground arith,
                          ground arith,
                        )
                  ]
            ]
          ]
