-- ===== src/Portfolio/Positions/Close.antt =====
-- `close` of positions.service.ts.
use arbibot.Base.{
  sum_of-save_row, subst, ◌+◌, ◌≤◌, String, ◌≡◌, refl, sym, ap, ◌∙◌, true, false, some, List, [],
  ◌∷◌, ◌++◌, Bool, any, sum_of, find_key, find_key-key, find_key-Occurs, find_key-save_row,
  save_row, str_eq_iff, rows_under-save_row, All-save_row, All-Occurs, Bool-cases, Option-cases,
  inl, inr, ◌⊎◌, arith,
}
use arbibot.Store.Outcome.{Result, ok, Result-cases}
use arbibot.Portfolio.Decimal.{Text}
use arbibot.Portfolio.Positions.{
  Position, Portfolio, ClosePosition, CloseAudit, position_closed, close_idempotent, append_entry,
  PositionCloseKey, position_key, zero_text, is_of, save_position, close, close_found, close_open,
  close_key, key_known, add_key, is_zero_quantity, version_matches, same_close,
}
use arbibot.Portfolio.Positions.Totals.{
  KeepsUnits, HoldsDecimals, Same, Same-refl, WellFormed, quantity_of, notional_of,
  quantity_of-Same, notional_of-Same, save_position_lem,
}
use arbibot.Portfolio.Positions.Crediting.{zero-Fits}
use arbibot.Portfolio.Positions.Fills.{quantity_total, notional_total}

abbrev pub closed_row : Position → Position
closed_row r = record r { quantity = zero_text; entity_version = r.entity_version + 1 }

-- What an effective close does to the tables.
pub record CloseEffect (i : String) (dto : ClosePosition) (old : Position) (p p' : Portfolio)
    : Type 0 where
  pub well_formed : WellFormed p'.positions
  pub quantity_gone :
      (plan instrument : String)
      → quantity_total plan instrument p' + quantity_of plan instrument old
        ≡ quantity_total plan instrument p
  pub notional_kept :
      (plan instrument : String)
      → notional_total plan instrument p' ≡ notional_total plan instrument p
  pub stored :
      (s : Position) × (find_key position_key i p'.positions ≡ some s) × Same (closed_row old) s
  pub fills_kept : p'.fill_keys ≡ p.fill_keys
  pub key_added : p'.close_keys ≡ add_key i (close_key dto) p.close_keys
  pub entry_added :
      p'.audited ≡ p.audited ++ position_closed i dto.operator_id (old.entity_version + 1) ∷ []

of_closed :
    (plan instrument : String) (r : Position)
    → (quantity_of plan instrument (closed_row r) ≡ 0)
      × (notional_of plan instrument (closed_row r) ≡ notional_of plan instrument r)
unfolding is_of
of_closed plan instrument r = let (_, none_left) = zero-Fits 18 in (ground (arith, none_left), refl)

last_known :
    (i key : String) (keys : List PositionCloseKey)
    → key_known i (some key) (add_key i (some key) keys) ≡ true
unfolding key_known add_key any same_close
last_known i key [] = ground (arith, str_eq_iff i i, str_eq_iff key key)
last_known i key (k ∷ keys) = ground (arith, last_known i key keys)

module _ (quantity_column notional_column : Text → Result Text) (appends : CloseAudit → Bool) where
  close_open_lem :
      (i : String) (dto : ClosePosition) (old r : Position) (p p' : Portfolio)
      → KeepsUnits 18 quantity_column
      → KeepsUnits 8 notional_column
      → WellFormed p.positions
      → find_key position_key i p.positions ≡ some old
      → close_open quantity_column notional_column appends i dto old p ≡ ok (r, p')
      → (r ≡ closed_row old) × CloseEffect i dto old p p'
  unfolding close_open append_entry
  close_open_lem i dto old r p p' keeps_q keeps_n wf found e =
      elim (Result-cases
        (save_position quantity_column notional_column (closed_row old) p.positions)) [
          | inr (x, failed) ↦ absurd (ground arith)
          | inl (rows, saved) ↦
              let entry = position_closed i dto.operator_id (old.entity_version + 1) in
              let appended : appends entry ≡ true = elim (Bool-cases (appends entry)) [
                | inl returned ↦ returned
                | inr thrown ↦ absurd (ground (arith, saved, thrown))
              ] in
              let there = find_key-Occurs position_key i p.positions found in
              let was = find_key-key position_key i p.positions found in
              let sound = All-Occurs HoldsDecimals p.positions wf.0 there in
              let (s, shape, same, sound_s) =
                save_position_lem quantity_column notional_column (closed_row old) p.positions
                  keeps_q keeps_n ((zero-Fits 18).0, sound.1) saved in
              let over : s.id ≡ old.id = same.same_id in
              let rows_are : p'.positions ≡ save_row position_key s p.positions =
                (let x : p'.positions ≡ rows = ground arith in x) ∙ shape in
              (
                ground arith,
                record {
                  well_formed = subst WellFormed (sym rows_are) (
                    All-save_row position_key HoldsDecimals s p.positions sound_s wf.0,
                    λ k.
                        subst (λ m. m ≤ 1)
                          (sym (rows_under-save_row position_key k s p.positions there over))
                          (wf.1 k),
                  );
                  quantity_gone = λ plan instrument. omega (
                    arith,
                    ap (sum_of (quantity_of plan instrument)) rows_are,
                    sum_of-save_row position_key (quantity_of plan instrument) old s p.positions
                        there over (wf.1 s.id),
                    quantity_of-Same plan instrument same,
                    (of_closed plan instrument old).0,
                  );
                  notional_kept = λ plan instrument. omega (
                    arith,
                    ap (sum_of (notional_of plan instrument)) rows_are,
                    sum_of-save_row position_key (notional_of plan instrument) old s p.positions
                        there over (wf.1 s.id),
                    notional_of-Same plan instrument same,
                    (of_closed plan instrument old).1,
                  );
                  stored = (
                    s,
                    ap (find_key position_key i) rows_are
                        ∙ rw
                            (
                              find_key-save_row position_key i s p.positions,
                              (str_eq_iff s.id i).1 (over ∙ was),
                            )
                            refl,
                    same,
                  );
                  fills_kept = ground arith;
                  key_added = ground arith;
                  entry_added = ground arith;
                },
              )
        ]

  -- A close that succeeds answers with the row of the position. Either its key is known, and nothing
  -- changes; or the version is the expected one, where one is given, and the quantity is zero, so just
  -- the audit log grows, by its one entry; or just the quantity of this position leaves the sum of its
  -- plan and instrument, the version grows by one, the key is recorded, and the entry of the close is
  -- appended. No notional and no key of a fill changes.
  pub close_sound :
      (i : String) (dto : ClosePosition) (p : Portfolio) {r : Position} {p' : Portfolio}
      → KeepsUnits 18 quantity_column
      → KeepsUnits 8 notional_column
      → WellFormed p.positions
      → close quantity_column notional_column appends i dto p ≡ ok (r, p')
      → (old : Position) × (find_key position_key i p.positions ≡ some old)
        × (((key_known i (close_key dto) p.close_keys ≡ true) × (r ≡ old) × (p' ≡ p))
            ⊎ ((version_matches dto.expected_entity_version old.entity_version ≡ true)
                × (is_zero_quantity old.quantity ≡ true)
                × (r ≡ old)
                × (p'
                    ≡ record p { audited = p.audited ++ close_idempotent i dto.operator_id ∷ [] }))
            ⊎ ((version_matches dto.expected_entity_version old.entity_version ≡ true)
                × (is_zero_quantity old.quantity ≡ false)
                × (r ≡ closed_row old)
                × CloseEffect i dto old p p'))
  unfolding close close_found append_entry
  close_sound i dto p {r} {p'} keeps_q keeps_n wf e =
      elim (Option-cases (find_key position_key i p.positions)) [
        | inl missing ↦ absurd (ground arith)
        | inr (old, found) ↦ (
          old,
          found,
          elim (Bool-cases (key_known i (close_key dto) p.close_keys)) [
            | inl again ↦ inl (again, ground arith, ground arith)
            | inr new_key ↦
                elim (Bool-cases (version_matches dto.expected_entity_version old.entity_version)) [
                  | inr stale ↦ absurd (ground arith)
                  | inl current ↦ elim (Bool-cases (is_zero_quantity old.quantity)) [
                    | inl zero_left ↦
                        elim (Bool-cases (appends (close_idempotent i dto.operator_id))) [
                          | inr thrown ↦ absurd (ground (arith, zero_left, thrown))
                          | inl appended ↦
                              inr (inl (current, zero_left, ground arith, ground arith))
                        ]
                    | inr some_left ↦
                        let opened : close_open quantity_column notional_column appends i dto old p
                            ≡ ok (r, p') =
                          ground arith in
                        let (answer, effect) =
                          close_open_lem i dto old r p p' keeps_q keeps_n wf found opened in
                        inr (inr (current, some_left, answer, effect))
                  ]
                ]
          ],
        )
      ]

  known_close :
      (i : String) (dto : ClosePosition) (p : Portfolio) {s : Position}
      → find_key position_key i p.positions ≡ some s
      → key_known i (close_key dto) p.close_keys ≡ true
      → close quantity_column notional_column appends i dto p ≡ ok (s, p)
  unfolding close
  known_close i dto p found again = ground arith

  -- A close of a position whose quantity is not zero can be repeated under its key: the answer is the
  -- row as the first call left it, with the same version and numbers, and nothing changes.
  pub close_again :
      (i : String) (dto : ClosePosition) (p : Portfolio) {key : String} {old r : Position}
      {p' : Portfolio}
      → KeepsUnits 18 quantity_column
      → KeepsUnits 8 notional_column
      → WellFormed p.positions
      → close_key dto ≡ some key
      → find_key position_key i p.positions ≡ some old
      → is_zero_quantity old.quantity ≡ false
      → close quantity_column notional_column appends i dto p ≡ ok (r, p')
      → (s : Position) × (close quantity_column notional_column appends i dto p' ≡ ok (s, p'))
        × Same r s
  close_again i dto p {key} {old} {r} {p'} keeps_q keeps_n wf has_key found some_left e =
      let (row, there, how) = close_sound i dto p keeps_q keeps_n wf e in
      elim how [
        | inl (again, same_row, same_tables) ↦ (
          r,
          ap (close quantity_column notional_column appends i dto) same_tables ∙ e,
          Same-refl r,
        )
        | inr (inl (_, zero_left, _, _)) ↦
            absurd (ground (arith, zero_left, some_left, there, found))
        | inr (inr (_, _, answer, effect)) ↦
            let (s, stored, same) = effect.stored in
            (
              s,
              known_close i dto p' stored
                  (rw (effect.key_added, has_key) (last_known i key p.close_keys)),
              subst (λ x. Same x s) (sym answer) same,
            )
      ]
