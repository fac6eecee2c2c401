-- ===== src/Messaging/Polling.antt =====
-- What outbox-poll.ts fetches, and what an update of one row does to a sum over the rows.
use arbibot.Base.{
  subst, ℕ, ◌≤◌, ◌<◌, ◌≡◌, refl, sym, ap, Bool, true, false, String, List, [], ◌∷◌, keep, take,
  count, sum_of, All, Occurs, Bool-cases, inl, inr, ◌⊎◌, arith, ◌==◌,
}
use arbibot.Messaging.{
  OutboxRow, eligible, id_before, insert_row, order_by_id, fetch_locked_outbox_batch, update_row,
}

Occurs-insert_row :
    (r s : OutboxRow) (rows : List OutboxRow)
    → Occurs r (insert_row s rows)
    → (s ≡ r) ⊎ Occurs r rows
unfolding insert_row
Occurs-insert_row r s [] (inl e) = inl e
Occurs-insert_row r s [] (inr o) = absurd o
Occurs-insert_row r s (x ∷ rows) o = elim (Bool-cases (id_before s x)) [
  | inl before ↦ elim (rw before at o) [ inl e ↦ inl e | inr rest ↦ inr rest ]
  | inr behind ↦ elim (rw behind at o) [
    | inl e ↦ inr (inl e)
    | inr rest ↦ elim (Occurs-insert_row r s rows rest) [ inl e ↦ inl e | inr q ↦ inr (inr q) ]
  ]
]

Occurs-order_by_id :
    (r : OutboxRow) (rows : List OutboxRow) → Occurs r (order_by_id rows) → Occurs r rows
unfolding order_by_id
Occurs-order_by_id r [] o = o
Occurs-order_by_id r (x ∷ rows) o = elim (Occurs-insert_row r x (order_by_id rows) o) [
  | inl e ↦ inl e
  | inr rest ↦ inr (Occurs-order_by_id r rows rest)
]

Occurs-keep :
    (p : OutboxRow → Bool) (r : OutboxRow) (rows : List OutboxRow)
    → Occurs r (keep p rows)
    → Occurs r rows × (p r ≡ true)
unfolding keep
Occurs-keep p r [] o = absurd o
Occurs-keep p r (x ∷ rows) o = elim (Bool-cases (p x)) [
  | inl hit ↦ elim (rw hit at o) [
    | inl e ↦ (inl e, subst (λ y. p y ≡ true) e hit)
    | inr rest ↦ let (there, test) = Occurs-keep p r rows rest in (inr there, test)
  ]
  | inr miss ↦ let (there, test) = Occurs-keep p r rows (rw miss at o) in (inr there, test)
]

insert_row-nil : (r : OutboxRow) (rows : List OutboxRow) → insert_row r rows ≡ [] → ⊥
unfolding insert_row
insert_row-nil r [] e = cc e
insert_row-nil r (x ∷ rows) e = elim (Bool-cases (id_before r x)) [
  | inl before ↦ ground arith
  | inr behind ↦ ground arith
]

order_by_id-nil : (rows : List OutboxRow) → order_by_id rows ≡ [] → rows ≡ []
unfolding order_by_id
order_by_id-nil [] e = refl
order_by_id-nil (x ∷ rows) e = absurd (insert_row-nil x (order_by_id rows) e)

keep-nil :
    (p : OutboxRow → Bool) (rows : List OutboxRow) → keep p rows ≡ [] → All (λ r. p r ≡ false) rows
unfolding keep
keep-nil p [] e = tt
keep-nil p (x ∷ rows) e = elim (Bool-cases (p x)) [
  | inl hit ↦ absurd (ground arith)
  | inr miss ↦ (miss, keep-nil p rows (rw miss at e))
]

first_fetched :
    (p : OutboxRow → Bool) (rows batch : List OutboxRow)
    → batch ≡ order_by_id (keep p rows)
    → ((take 1 batch ≡ []) × All (λ r. p r ≡ false) rows)
      ⊎ ((r : OutboxRow) × (take 1 batch ≡ r ∷ []) × Occurs r rows × (p r ≡ true))
unfolding take
first_fetched p rows [] e = inl (refl, keep-nil p rows (order_by_id-nil (keep p rows) (sym e)))
first_fetched p rows (r ∷ batch) e =
    let here : Occurs r (order_by_id (keep p rows)) = subst (Occurs r) e (inl refl) in
    let (there, test) = Occurs-keep p r rows (Occurs-order_by_id r (keep p rows) here) in
    inr (r, refl, there, test)

-- A batch of one is empty where no row is eligible, and an eligible row of the table otherwise.
pub fetch_one :
    (t : String) (types : List String) (rows : List OutboxRow)
    → ((fetch_locked_outbox_batch 1 (t ∷ types) rows ≡ [])
        × All (λ r. eligible (t ∷ types) r ≡ false) rows)
      ⊎ ((r : OutboxRow) × (fetch_locked_outbox_batch 1 (t ∷ types) rows ≡ r ∷ [])
          × Occurs r rows
          × (eligible (t ∷ types) r ≡ true))
unfolding fetch_locked_outbox_batch
fetch_one t types rows = first_fetched (eligible (t ∷ types)) rows _ refl

unfoldable pub rows_with_id : ℕ → List OutboxRow → ℕ
unfolding count
rows_with_id i rows = count (λ r. r.id == i) rows

pub rows_with_id-update_row :
    (i k : ℕ) (f : OutboxRow → OutboxRow) (rows : List OutboxRow)
    → ((r : OutboxRow) → (f r).id ≡ r.id)
    → rows_with_id k (update_row i f rows) ≡ rows_with_id k rows
unfolding rows_with_id update_row count
rows_with_id-update_row i k f [] same = refl
rows_with_id-update_row i k f (x ∷ rows) same =
    ground (arith, same x, rows_with_id-update_row i k f rows same)

-- Two updates of one row are one.
pub update_row-update_row :
    (i : ℕ) (f g : OutboxRow → OutboxRow) (rows : List OutboxRow)
    → ((r : OutboxRow) → (f r).id ≡ r.id)
    → update_row i g (update_row i f rows) ≡ update_row i (λ r. g (f r)) rows
unfolding update_row
update_row-update_row i f g [] same = refl
update_row-update_row i f g (x ∷ rows) same =
    ground (arith, same x, update_row-update_row i f g rows same)

pub row_counted :
    (r : OutboxRow) (rows : List OutboxRow) → Occurs r rows → 1 ≤ rows_with_id r.id rows
unfolding rows_with_id count
row_counted r [] o = absurd o
row_counted r (x ∷ rows) (inl e) = ground (arith, ap (λ y. y.id) e)
row_counted r (x ∷ rows) (inr o) = ground (arith, row_counted r rows o)

module _ (w : OutboxRow → ℕ) where
  sum_of-update_none :
      (i : ℕ) (f : OutboxRow → OutboxRow) (rows : List OutboxRow)
      → rows_with_id i rows ≡ 0
      → sum_of w (update_row i f rows) ≡ sum_of w rows
  unfolding rows_with_id update_row count sum_of
  sum_of-update_none i f [] h = refl
  sum_of-update_none i f (x ∷ rows) h = ground (arith, sum_of-update_none i f rows)

  -- An update that makes its row lighter makes the table lighter.
  pub sum_of-update_row :
      (r : OutboxRow) (f : OutboxRow → OutboxRow) (rows : List OutboxRow)
      → Occurs r rows
      → rows_with_id r.id rows ≤ 1
      → w (f r) < w r
      → sum_of w (update_row r.id f rows) < sum_of w rows
  unfolding rows_with_id update_row count sum_of
  sum_of-update_row r f [] o few less = absurd o
  sum_of-update_row r f (x ∷ rows) (inl e) few less =
      let hit : x.id ≡ r.id = ap (λ y. y.id) e in
      ground (
        arith,
        hit,
        ap w e,
        ap (λ y. w (f y)) e,
        sum_of-update_none r.id f rows (ground (arith, hit)),
      )
  sum_of-update_row r f (x ∷ rows) (inr o) few less =
      let there : 1 ≤ rows_with_id r.id rows = row_counted r rows o in
      ground (arith, there, sum_of-update_row r f rows o (ground arith) less)
