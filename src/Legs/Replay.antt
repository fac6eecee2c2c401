-- ===== src/Legs/Replay.antt =====
-- `applyFill` of legs.service.ts with an idempotency key.
use arbibot.Base.{
  find_key, find_by, save_row, String, ◌≡◌, ap, ◌∙◌, inl, inr, Bool, true, false, ◌&&◌, Option,
  some, none, List, [], ◌∷◌, ◌++◌, Option-cases, arith, any, str_eq, str_eq_iff, find_by-save_row,
  find_by-test,
}
use arbibot.Store.Types.{Leg, Plan, FillKey, World, Call, leg_key, plan_key}
use arbibot.Store.Exec.{returned, find_plan}
use arbibot.Legs.Send.{find_leg_of_plan}
use arbibot.Legs.Fill.{ApplyFill, Settlement, apply_fill_tx, usable_key, fill_seen}

any-last :
    {A : Type 0} (p : A → Bool) (xs : List A) (x : A) → p x ≡ true → any p (xs ++ x ∷ []) ≡ true
unfolding any
any-last p [] x h = ground arith
any-last p (y ∷ ys) x h = ground (arith, any-last p ys x h)

-- A fill whose key was seen answers with the leg as it is, and does nothing.
seen_fill :
    (call : Call) (plan_id leg_id key : String) (dto : ApplyFill) (w : World) {plan : Plan}
    {l : Leg}
    → usable_key dto.idempotency_key ≡ some key
    → find_plan plan_id w ≡ some plan
    → find_leg_of_plan plan_id leg_id w ≡ some l
    → fill_seen leg_id key w.fills ≡ true
    → apply_fill_tx call plan_id leg_id dto w ≡ returned (l, none) w
unfolding apply_fill_tx
seen_fill call plan_id leg_id key dto w has found found_leg seen = ground arith

abbrev pub fill_key : Leg → String → FillKey
fill_key l key = record {
  leg_id = l.id;
  idempotency_key = key;
  resulting_state = l.state;
  resulting_filled_quantity = l.filled_quantity;
  resulting_entity_version = l.entity_version;
}

-- What a fill under a key that was not seen leaves.
first_fill :
    (call : Call) (plan_id leg_id key : String) (dto : ApplyFill) (w : World) {l' : Leg}
    {s : Option Settlement} {w' : World}
    → usable_key dto.idempotency_key ≡ some key
    → fill_seen leg_id key w.fills ≡ false
    → apply_fill_tx call plan_id leg_id dto w ≡ returned (l', s) w'
    → (plan : Plan) × (l : Leg) × (find_plan plan_id w ≡ some plan)
      × (find_leg_of_plan plan_id leg_id w ≡ some l)
      × (w'.plans ≡ w.plans)
      × (w'.legs ≡ save_row leg_key l' w.legs)
      × (l'.id ≡ l.id)
      × (l'.plan_id ≡ l.plan_id)
      × (w'.fills ≡ w.fills ++ fill_key l' key ∷ [])
unfolding apply_fill_tx
first_fill call plan_id leg_id key dto w {l'} has unseen e =
    elim (Option-cases (find_plan plan_id w)) [
      | inl missing ↦ absurd (ground arith)
      | inr (plan, found) ↦ elim (Option-cases (find_leg_of_plan plan_id leg_id w)) [
        | inl missing ↦ absurd (ground arith)
        | inr (l, found_leg) ↦ (
          plan,
          l,
          found,
          found_leg,
          ground arith,
          ground arith,
          ground arith,
          ground arith,
          ground arith,
        )
      ]
    ]

-- A fill that was accepted under an idempotency key that was new for the leg can be repeated under
-- the key, whatever else the second request says: it answers with the leg as the first one left it,
-- settles nothing and changes nothing.
pub apply_fill_again :
    (call again : Call) (plan_id leg_id key : String) (dto dto' : ApplyFill) (w : World) {l' : Leg}
    {s : Option Settlement} {w' : World}
    → usable_key dto.idempotency_key ≡ some key
    → usable_key dto'.idempotency_key ≡ some key
    → fill_seen leg_id key w.fills ≡ false
    → apply_fill_tx call plan_id leg_id dto w ≡ returned (l', s) w'
    → apply_fill_tx again plan_id leg_id dto' w' ≡ returned (l', none) w'
unfolding find_leg_of_plan fill_seen
apply_fill_again call again plan_id leg_id key dto dto' w {l'} {s} {w'} has has' unseen e =
    let (plan, l, found, found_leg, plans, legs, id, owner, fills) =
      first_fill call plan_id leg_id key dto w has unseen e in
    let hit = find_by-test _ w.legs found_leg in
    let test : (str_eq l'.id leg_id && str_eq l'.plan_id plan_id) ≡ true = ground (arith, hit) in
    seen_fill again plan_id leg_id key dto' w' has' (ap (find_key plan_key plan_id) plans ∙ found)
      (ap (find_by (λ x. str_eq x.id leg_id && str_eq x.plan_id plan_id)) legs
        ∙ find_by-save_row leg_key (λ x. str_eq x.id leg_id && str_eq x.plan_id plan_id) l' w.legs
            (λ x at. ground (arith, str_eq_iff x.id leg_id, str_eq_iff l'.id leg_id)) test)
      (ap (any (λ f. str_eq f.leg_id leg_id && str_eq f.idempotency_key key)) fills
        ∙ any-last _ w.fills (fill_key l' key) (ground (arith, str_eq_iff key key)))
