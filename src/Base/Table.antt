-- ===== src/Base/Table.antt =====
-- Database tables: rows under a text key. `find_by` is `findOne`, `save_row` is `em.save`.
use Prim.Native.Nat.{ℕ, ◌+◌, ◌≤◌}
use Prim.Native.String.{String}
use mathlib.Core.Path.{ap, ◌≡◌, refl, subst, sym, ◌∙◌}
use mathlib.Core.Logic.{◌≢◌, ◌⊎◌, inl, inr}
use mathlib.Core.Bool.{Bool, true}
use mathlib.Core.Option.{Option, none, some}
use mathlib.Core.List.{◌++◌, List, [], ◌∷◌}
use native.Mathlib.Omega.{arith}
use arbibot.Base.Tests.{if◌then◌else◌, Bool-cases}
use arbibot.Base.Lists.{All, All_mono, count, count-append, sum_of}
use arbibot.Base.Text.{str_eq, str_eq_iff}

module _ {ℓ} {A : Type ℓ} where
  -- The first row that passes a test.
  unfoldable pub find_by : (A → Bool) → List A → Option A
  find_by p [] = none
  find_by p (r ∷ rows) = if p r then some r else find_by p rows

  pub find_by-test : (p : A → Bool) (rows : List A) {r : A} → find_by p rows ≡ some r → p r ≡ true
  unfolding find_by
  find_by-test p [] e = cc
  find_by-test p (x ∷ rows) e = elim (Bool-cases (p x)) [
    | inl hit ↦ ground (arith)
    | inr miss ↦ find_by-test p rows (ground arith)
  ]

-- A row of the table.
abbrev pub Occurs : {A : Type 0} → A → List A → Type 0
Occurs a [] = ⊥
Occurs a (x ∷ xs) = (x ≡ a) ⊎ Occurs a xs

module _ {A : Type 0} where
  pub find_by-Occurs :
      (p : A → Bool) (rows : List A) {r : A} → find_by p rows ≡ some r → Occurs r rows
  unfolding find_by
  find_by-Occurs p [] e = absurd (cc e)
  find_by-Occurs p (x ∷ rows) e = elim (Bool-cases (p x)) [
    | inl hit ↦ inl (ground arith)
    | inr miss ↦ inr (find_by-Occurs p rows (ground arith))
  ]

  pub All-Occurs {κ} : (P : A → Type κ) (rows : List A) {r : A} → All P rows → Occurs r rows → P r
  All-Occurs P [] hs o = absurd o
  All-Occurs P (x ∷ rows) hs (inl e) = subst P e hs.0
  All-Occurs P (x ∷ rows) hs (inr o) = All-Occurs P rows hs.1 o

module _ {ℓ} {A : Type ℓ} (key : A → String) where
  -- A row replaces the one with its key, and is appended where there is none.
  unfoldable pub save_row : A → List A → List A
  save_row r [] = r ∷ []
  save_row r (x ∷ rows) =
      let rest = save_row r rows in if str_eq (key x) (key r) then r ∷ rows else x ∷ rest

  unfoldable pub find_key : String → List A → Option A
  find_key k [] = none
  find_key k (x ∷ rows) = if str_eq (key x) k then some x else find_key k rows

  pub find_key-key : (k : String) (rows : List A) {r : A} → find_key k rows ≡ some r → key r ≡ k
  unfolding find_key
  find_key-key k [] e = cc
  find_key-key k (x ∷ rows) {r} e = elim (Bool-cases (str_eq (key x) k)) [
    | inl hit ↦ ground (arith, str_eq_iff (key x) k)
    | inr miss ↦ find_key-key k rows (ground arith)
  ]

  -- Reading after a save: the row that was saved, or what was there.
  pub find_key-save_row :
      (k : String) (r : A) (rows : List A)
      → find_key k (save_row r rows) ≡ (if str_eq (key r) k then some r else find_key k rows)
  unfolding find_key save_row
  find_key-save_row k r [] = refl
  find_key-save_row k r (x ∷ rows) = ground (
    arith,
    str_eq_iff (key x) (key r),
    str_eq_iff (key x) k,
    str_eq_iff (key r) k,
    find_key-save_row k r rows,
  )

  pub All-save_row {κ} :
      (P : A → Type κ) (r : A) (rows : List A) → P r → All P rows → All P (save_row r rows)
  unfolding save_row
  All-save_row P r [] h hs = (h, tt)
  All-save_row P r (x ∷ rows) h hs = elim (Bool-cases (str_eq (key x) (key r))) [
    | inl hit ↦ rw hit (h, hs.1)
    | inr miss ↦ rw miss (hs.0, All-save_row P r rows h hs.1)
  ]

module _ {A : Type 0} (key : A → String) where
  pub find_key-Occurs :
      (k : String) (rows : List A) {r : A} → find_key key k rows ≡ some r → Occurs r rows
  unfolding find_key
  find_key-Occurs k [] e = absurd (cc e)
  find_key-Occurs k (x ∷ rows) e = elim (Bool-cases (str_eq (key x) k)) [
    | inl hit ↦ inl (ground arith)
    | inr miss ↦ inr (find_key-Occurs k rows (ground arith))
  ]

-- The number of rows under a key.
unfoldable pub rows_under {ℓ} : {A : Type ℓ} → (A → String) → String → List A → ℕ
unfolding count
rows_under key k rows = count (λ r. str_eq (key r) k) rows

module _ {A : Type 0} (key : A → String) (k : String) where
  pub rows_under-append :
      (xs ys : List A) → rows_under key k (xs ++ ys) ≡ rows_under key k xs + rows_under key k ys
  unfolding rows_under
  rows_under-append xs ys = count-append _ xs ys

  -- Rows of other keys do not count.
  pub rows_under-other : (rows : List A) → All (λ r. key r ≢ k) rows → rows_under key k rows ≡ 0
  unfolding rows_under
  rows_under-other [] h = refl
  rows_under-other (x ∷ rows) h =
      ground (arith, str_eq_iff (key x) k, h.0, rows_under-other rows h.1)

  rows_under-none : (rows : List A) → rows_under key k rows ≡ 0 → All (λ r. key r ≢ k) rows
  unfolding rows_under
  rows_under-none [] e = tt
  rows_under-none (x ∷ rows) e =
      (λ same. absurd (ground (arith, str_eq_iff (key x) k)), rows_under-none rows (ground arith))

  -- A save of a row of another key, and one over a row that is there, keep the number.
  pub rows_under-save_other :
      (r : A) (rows : List A)
      → key r ≢ k
      → rows_under key k (save_row key r rows) ≡ rows_under key k rows
  unfolding rows_under save_row
  rows_under-save_other r [] other = ground (arith, str_eq_iff (key r) k)
  rows_under-save_other r (x ∷ rows) other =
      ground (
        arith,
        str_eq_iff (key r) k,
        str_eq_iff (key x) (key r),
        rows_under-save_other r rows other,
      )

  pub rows_under-save_row :
      {old : A} (r : A) (rows : List A)
      → Occurs old rows
      → key r ≡ key old
      → rows_under key k (save_row key r rows) ≡ rows_under key k rows
  unfolding rows_under save_row
  rows_under-save_row r [] o same = absurd o
  rows_under-save_row r (x ∷ rows) (inl e) same =
      let hit : key x ≡ key r = cc (ap key e, same) in
      ground (arith, hit, str_eq_iff (key x) (key r))
  rows_under-save_row r (x ∷ rows) (inr o) same =
      ground (arith, str_eq_iff (key x) (key r), rows_under-save_row r rows o same)

  -- Where a key has one row, what holds of the row that is saved under it, and of all rows of other
  -- keys, holds of the whole table.
  pub All-save_only_row :
      (P : A → Type 0) (r : A) (rows : List A)
      → ((x : A) → key x ≢ k → P x)
      → key r ≡ k
      → rows_under key k rows ≤ 1
      → P r
      → All P (save_row key r rows)
  unfolding rows_under save_row
  All-save_only_row P r [] others same few h = (h, tt)
  All-save_only_row P r (x ∷ rows) others same few h = elim (Bool-cases (str_eq (key x) (key r))) [
    | inl hit ↦ rw hit (
      h,
      All_mono (λ y. key y ≢ k) P others rows
          (rows_under-none rows (ground (arith, str_eq_iff (key x) (key r), str_eq_iff (key x) k))),
    )
    | inr miss ↦ rw miss (
      others x (λ e. absurd (ground (arith, str_eq_iff (key x) (key r)))),
      All-save_only_row P r rows others same (ground arith) h,
    )
  ]

-- What a test of the key and more finds after a save of a row that passes it.
pub find_by-save_row :
    {A : Type 0} (key : A → String) (p : A → Bool) (r : A) (rows : List A)
    → ((x : A) → p x ≡ true → key x ≡ key r)
    → p r ≡ true
    → find_by p (save_row key r rows) ≡ some r
unfolding find_by save_row
find_by-save_row key p r [] only hit = rw hit refl
find_by-save_row key p r (x ∷ rows) only hit = elim (Bool-cases (str_eq (key x) (key r))) [
  | inl same ↦ rw (same, hit) refl
  | inr other ↦ elim (Bool-cases (p x)) [
    | inl yes_it_is ↦ absurd (ground (arith, str_eq_iff (key x) (key r), only x yes_it_is))
    | inr miss ↦ rw (other, miss) (find_by-save_row key p r rows only hit)
  ]
]

-- A weight of the rows, summed, after a save.
module _ {A : Type 0} (key : A → String) where
  pub rows_under-Occurs : (r : A) (rows : List A) → Occurs r rows → 1 ≤ rows_under key (key r) rows
  unfolding rows_under count
  rows_under-Occurs r [] o = absurd o
  rows_under-Occurs r (x ∷ rows) (inl e) = ground (arith, ap key e, str_eq_iff (key x) (key r))
  rows_under-Occurs r (x ∷ rows) (inr o) = ground (arith, rows_under-Occurs r rows o)

  -- A row whose key has no other row is the one that its key finds.
  pub find_key-only :
      (r : A) (rows : List A)
      → Occurs r rows
      → rows_under key (key r) rows ≤ 1
      → find_key key (key r) rows ≡ some r
  unfolding find_key rows_under count
  find_key-only r [] o few = absurd o
  find_key-only r (x ∷ rows) (inl e) few = ground (arith, e, ap key e, str_eq_iff (key x) (key r))
  find_key-only r (x ∷ rows) (inr o) few = elim (Bool-cases (str_eq (key x) (key r))) [
    | inl hit ↦ absurd (ground (arith, rows_under-Occurs r rows o))
    | inr miss ↦ ground (arith, find_key-only r rows o (ground arith))
  ]

  -- A save over a row puts its weight in the place of the old one.
  pub sum_of-save_row :
      (f : A → ℕ) (old r : A) (rows : List A)
      → Occurs old rows
      → key r ≡ key old
      → rows_under key (key r) rows ≤ 1
      → sum_of f (save_row key r rows) + f old ≡ sum_of f rows + f r
  unfolding sum_of save_row rows_under count
  sum_of-save_row f old r [] o same few = absurd o
  sum_of-save_row f old r (x ∷ rows) (inl e) same few =
      let hit : key x ≡ key r = ap key e ∙ sym same in
      ground (arith, hit, ap f e, str_eq_iff (key x) (key r))
  sum_of-save_row f old r (x ∷ rows) (inr o) same few =
      let there : 1 ≤ rows_under key (key r) rows =
        subst (λ k. 1 ≤ rows_under key k rows) (sym same) (rows_under-Occurs old rows o) in
      ground (
        arith,
        there,
        str_eq_iff (key x) (key r),
        sum_of-save_row f old r rows o same (ground (arith, str_eq_iff (key x) (key r))),
      )

  -- A save of a row with a new key adds its weight.
  pub sum_of-save_new :
      (f : A → ℕ) (r : A) (rows : List A)
      → rows_under key (key r) rows ≡ 0
      → sum_of f (save_row key r rows) ≡ sum_of f rows + f r
  unfolding sum_of save_row rows_under count
  sum_of-save_new f r [] fresh = ground arith
  sum_of-save_new f r (x ∷ rows) fresh =
      ground (arith, str_eq_iff (key x) (key r), sum_of-save_new f r rows)

  -- A save over the row that a key finds puts its weight in the place of the old one.
  pub sum_of-save_found :
      (f : A → ℕ) (k : String) (rows : List A) (old r : A)
      → find_key key k rows ≡ some old
      → key r ≡ k
      → sum_of f (save_row key r rows) + f old ≡ sum_of f rows + f r
  unfolding sum_of save_row find_key
  sum_of-save_found f k [] old r found same = absurd (cc found)
  sum_of-save_found f k (x ∷ rows) old r found same = elim (Bool-cases (str_eq (key x) k)) [
    | inl hit ↦
        let here : x ≡ old = ground arith in
        ground (arith, ap f here, str_eq_iff (key x) k, str_eq_iff (key x) (key r), same)
    | inr miss ↦ ground (
      arith,
      same,
      str_eq_iff (key x) k,
      str_eq_iff (key x) (key r),
      sum_of-save_found f k rows old r (ground arith) same,
    )
  ]

pub find_by-last :
    {A : Type 0} (p : A → Bool) (rows : List A) (r : A)
    → find_by p rows ≡ none
    → p r ≡ true
    → find_by p (rows ++ r ∷ []) ≡ some r
unfolding find_by
find_by-last p [] r unfound hit = rw hit refl
find_by-last p (x ∷ rows) r unfound hit = elim (Bool-cases (p x)) [
  | inl there ↦ absurd (ground arith)
  | inr miss ↦ rw miss (find_by-last p rows r (rw miss at unfound) hit)
]
