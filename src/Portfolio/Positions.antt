-- ===== src/Portfolio/Positions.antt =====
-- apps/portfolio-service/src/positions/positions.service.ts. The columns `quantity` and `notional_usd`
-- are parameters: the text that the database keeps for a text, or the error of an overflow. Each
-- method is one transaction: an error rolls all of it back.
pub mod Crediting
pub mod Fills
pub mod Deliveries
pub mod Totals
pub mod Close
use arbibot.Base.{
  ℕ, ◌+◌, ◌*◌, String, Bool, true, false, not, ◌&&◌, ◌||◌, Option, none, some, List, [], ◌∷◌, ◌++◌,
  any, sum_of, find_by, find_key, save_row, str_eq, opt_str_eq, trim, non_empty, get_or, ◌==◌,
  if◌then◌else◌,
}
use arbibot.Store.Outcome.{Result, ok, err, failure, not_found, conflict, ◌>>=◌}
use arbibot.Portfolio.Decimal.{
  Text, add_non_negative_decimal_strings, is_decimal, int_part, frac_part, value,
}

-- `PortfolioPositionEntity`.
pub record Position : Type 0 where
  pub id : String
  pub plan_id : Option String
  pub instrument_key : String
  pub quantity : Text
  pub notional_usd : Text
  pub entity_version : ℕ

-- `PortfolioPositionFillIdempotencyEntity`.
pub record PositionFillKey : Type 0 where
  pub leg_id : String
  pub idempotency_key : String

-- `PortfolioPositionCloseIdempotencyEntity`.
pub record PositionCloseKey : Type 0 where
  pub position_id : String
  pub idempotency_key : String

-- `ConfirmFillDto`.
pub record ConfirmFill : Type 0 where
  pub plan_id : String
  pub leg_id : String
  pub instrument_key : String
  pub quantity : Text
  pub notional_usd : Option Text
  pub idempotency_key : String

-- `ClosePositionDto`.
pub record ClosePosition : Type 0 where
  pub operator_id : String
  pub idempotency_key : Option String
  pub approve_reason : Option String
  pub expected_entity_version : Option ℕ

-- The two entries of the audit log: the position was closed at a version, or was at zero already.
pub data CloseAudit : Type 0 where
  position_closed : String → String → ℕ → CloseAudit
  close_idempotent : String → String → CloseAudit

-- The three tables, and the calls of the audit client.
pub record Portfolio : Type 0 where
  pub positions : List Position
  pub fill_keys : List PositionFillKey
  pub close_keys : List PositionCloseKey
  pub audited : List CloseAudit

abbrev pub position_key : Position → String
position_key r = r.id

abbrev pub zero_text : Text
zero_text = 48 ∷ []

-- `where: { legId, idempotencyKey }`.
unfoldable pub same_fill : String → String → PositionFillKey → Bool
unfolding str_eq
same_fill leg key k = str_eq k.leg_id leg && str_eq k.idempotency_key key

-- `where: { planId, instrumentKey }`.
unfoldable pub is_of : String → String → Position → Bool
unfolding opt_str_eq str_eq
is_of plan instrument r = opt_str_eq r.plan_id (some plan) && str_eq r.instrument_key instrument

-- `where: { positionId, idempotencyKey }`.
unfoldable pub same_close : String → String → PositionCloseKey → Bool
unfolding str_eq
same_close position key k = str_eq k.position_id position && str_eq k.idempotency_key key

-- `isZeroQuantity`, on the texts that the column gives: `Number` of a decimal text is zero where all its
-- digits are, and any other text counts as zero.
unfoldable pub is_zero_quantity : Text → Bool
unfolding is_decimal value
is_zero_quantity q = not (is_decimal q) || (value 0 (int_part q) == 0 && value 0 (frac_part q) == 0)

unfoldable pub new_position : String → ConfirmFill → Position
new_position fresh dto = record {
  id = fresh;
  plan_id = some dto.plan_id;
  instrument_key = dto.instrument_key;
  quantity = zero_text;
  notional_usd = zero_text;
  entity_version = 1;
}

-- The sums of a fill, and the next version.
unfoldable pub add_fill : ConfirmFill → Position → Result Position
unfolding add_non_negative_decimal_strings
add_fill dto r = add_non_negative_decimal_strings r.quantity dto.quantity >>= λ quantity.
    add_non_negative_decimal_strings r.notional_usd (get_or dto.notional_usd zero_text)
    >>= λ notional. ok (record r {
      quantity = quantity;
      notional_usd = notional;
      entity_version = r.entity_version + 1;
    })

-- `idem !== undefined && idem.length > 0`, of the trimmed key.
unfoldable pub close_key : ClosePosition → Option String
unfolding trim non_empty
close_key dto = elim dto.idempotency_key [
  | none ↦ none
  | some key ↦ if non_empty (trim key) then some (trim key) else none
]

unfoldable pub key_known : String → Option String → List PositionCloseKey → Bool
unfolding any same_close
key_known position none keys = false
key_known position (some key) keys = any (same_close position key) keys

unfoldable pub add_key : String → Option String → List PositionCloseKey → List PositionCloseKey
add_key position none keys = keys
add_key position (some key) keys =
    keys ++ record { position_id = position; idempotency_key = key } ∷ []

abbrev pub version_matches : Option ℕ → ℕ → Bool
version_matches none v = true
version_matches (some expected) v = v == expected

module _ (quantity_column notional_column : Text → Result Text) where
  -- `em.save` of a position.
  unfoldable pub save_position : Position → List Position → Result (List Position)
  unfolding save_row
  save_position r rows = quantity_column r.quantity >>= λ quantity.
      notional_column r.notional_usd >>= λ notional.
      ok (save_row position_key (record r { quantity = quantity; notional_usd = notional }) rows)

  -- The position of the fill, created where there is none.
  unfoldable pub found_or_created :
      String → ConfirmFill → Option Position → List Position → Result (Position × List Position)
  unfolding save_position new_position
  found_or_created fresh dto (some r) rows = ok (r, rows)
  found_or_created fresh dto none rows =
      save_position (new_position fresh dto) rows >>= λ rows'. ok (new_position fresh dto, rows')

  -- `confirmFill`. `fresh` is the database's next id.
  unfoldable pub confirm_fill : String → ConfirmFill → Portfolio → Result Portfolio
  unfolding found_or_created add_fill save_position any find_by same_fill is_of
  confirm_fill fresh dto p =
      if any (same_fill dto.leg_id dto.idempotency_key) p.fill_keys
      then ok p
      else (found_or_created fresh dto (find_by (is_of dto.plan_id dto.instrument_key) p.positions)
            p.positions
          >>= λ found. add_fill dto found.0 >>= λ r. save_position r found.1 >>= λ rows.
              ok (record p {
                positions = rows;
                fill_keys =
                    p.fill_keys
                    ++ record { leg_id = dto.leg_id; idempotency_key = dto.idempotency_key } ∷ [];
              }))

-- `appends` tells whether the awaited `audit.appendEntry` returns; where it throws, so does the
-- transaction.
module _ (quantity_column notional_column : Text → Result Text) (appends : CloseAudit → Bool) where
  -- The entry is appended, and the transaction goes on to its end.
  unfoldable pub append_entry : CloseAudit → Position → Portfolio → Result (Position × Portfolio)
  append_entry entry r p =
      if appends entry then ok (r, record p { audited = p.audited ++ entry ∷ [] }) else err failure

  close_open : String → ClosePosition → Position → Portfolio → Result (Position × Portfolio)
  unfolding save_position close_key add_key append_entry
  close_open i dto r p =
      let closed : Position = record r {
        quantity = zero_text;
        entity_version = r.entity_version + 1;
      } in
      save_position quantity_column notional_column closed p.positions >>= λ rows.
      append_entry (position_closed i dto.operator_id closed.entity_version) closed
        (record p { positions = rows; close_keys = add_key i (close_key dto) p.close_keys })

  close_found : String → ClosePosition → Position → Portfolio → Result (Position × Portfolio)
  unfolding close_open is_zero_quantity append_entry
  close_found i dto r p =
      if not (version_matches dto.expected_entity_version r.entity_version)
      then err conflict
      else if is_zero_quantity r.quantity
      then append_entry (close_idempotent i dto.operator_id) r p
      else close_open i dto r p

  -- `close`.
  unfoldable pub close : String → ClosePosition → Portfolio → Result (Position × Portfolio)
  unfolding close_found close_key key_known find_key
  close i dto p = elim (find_key position_key i p.positions) [
    | none ↦ err not_found
    | some r ↦ if key_known i (close_key dto) p.close_keys then ok (r, p) else close_found i dto r p
  ]
