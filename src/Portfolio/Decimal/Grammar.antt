-- ===== src/Portfolio/Decimal/Grammar.antt =====
-- Which texts add-decimal-string.ts takes for decimals.
use arbibot.Base.{
  ◌≤◌, ◌≡◌, ◌≢◌, refl, sym, subst, true, none, some, [], ◌∷◌, ◌++◌, all, All, ◌==◌, is_space,
  Bool-cases, Option-cases, inl, inr, ◌⊎◌, arith,
}
use arbibot.Portfolio.Decimal.{Text, is_digit, digits_only, is_decimal, split_point, int_part}

-- One digit or more.
abbrev pub Digits : Text → Type 0
Digits s = (s ≢ []) × All (λ c. (48 ≤ c) × (c ≤ 57)) s

-- Digits, or digits, a point and digits.
abbrev pub Decimal : Text → Type 0
Decimal s = Digits s ⊎ ((i : Text) × (f : Text) × Digits i × Digits f × (s ≡ i ++ 46 ∷ f))

-- A decimal, perhaps behind a plus, with white space around.
abbrev pub Numeral : Text → Type 0
Numeral raw =
    (before : Text) × (sign : Text) × (s : Text) × (behind : Text) × (raw
      ≡ before ++ (sign ++ (s ++ behind)))
    × (all is_space before ≡ true)
    × ((sign ≡ []) ⊎ (sign ≡ 43 ∷ []))
    × Decimal s
    × (all is_space behind ≡ true)

all-digits : (s : Text) → all is_digit s ≡ true → All (λ c. (48 ≤ c) × (c ≤ 57)) s
unfolding all
all-digits [] h = tt
all-digits (c ∷ s) h = ((ground arith, ground arith), all-digits s (ground arith))

digits-all : (s : Text) → All (λ c. (48 ≤ c) × (c ≤ 57)) s → all is_digit s ≡ true
unfolding all
digits-all [] h = refl
digits-all (c ∷ s) h = ground (arith, h.0, digits-all s h.1)

digits_only-Digits : (s : Text) → digits_only s ≡ true → Digits s
unfolding digits_only
digits_only-Digits [] h = absurd (cc h)
digits_only-Digits (c ∷ s) h = (cc, all-digits (c ∷ s) h)

Digits-digits_only : (s : Text) → Digits s → digits_only s ≡ true
unfolding digits_only
Digits-digits_only [] (some_digit, h) = absurd (some_digit refl)
Digits-digits_only (c ∷ s) (some_digit, h) = digits-all (c ∷ s) h

split_whole : (s : Text) → (split_point s).1 ≡ none → s ≡ int_part s
unfolding split_point
split_whole [] e = refl
split_whole (c ∷ s) e = elim (Bool-cases (c == 46)) [
  | inl point ↦ absurd (ground (arith, point))
  | inr other ↦ ground (arith, other, split_whole s (ground (arith, other)))
]

split_at : (s f : Text) → (split_point s).1 ≡ some f → s ≡ int_part s ++ 46 ∷ f
unfolding split_point
split_at [] f e = absurd (cc e)
split_at (c ∷ s) f e = elim (Bool-cases (c == 46)) [
  | inl point ↦ ground (arith, point)
  | inr other ↦ let rest = split_at s f (ground (arith, other)) in ground (arith, other, rest)
]

pub is_decimal-Decimal : (s : Text) → is_decimal s ≡ true → Decimal s
unfolding is_decimal
is_decimal-Decimal s h = elim (Option-cases (split_point s).1) [
  | inl whole ↦
      inl
        (subst Digits (sym (split_whole s whole)) (digits_only-Digits (int_part s) (ground arith)))
  | inr (f, point) ↦ inr (
    int_part s,
    f,
    digits_only-Digits (int_part s) (ground arith),
    digits_only-Digits f (ground arith),
    split_at s f point,
  )
]

digits-split_point : (s : Text) → all is_digit s ≡ true → split_point s ≡ (s, none)
unfolding all split_point
digits-split_point [] h = refl
digits-split_point (c ∷ s) h = ground (arith, digits-split_point s (ground arith))

point-split_point : (s f : Text) → all is_digit s ≡ true → split_point (s ++ 46 ∷ f) ≡ (s, some f)
unfolding all split_point
point-split_point [] f h = refl
point-split_point (c ∷ s) f h = ground (arith, point-split_point s f (ground arith))

pub Decimal-is_decimal : (s : Text) → Decimal s → is_decimal s ≡ true
unfolding is_decimal
Decimal-is_decimal s (inl d) =
    ground (arith, digits-split_point s (digits-all s d.1), Digits-digits_only s d)
Decimal-is_decimal s (inr (i, f, di, df, e)) =
    rw (e, point-split_point i f (digits-all i di.1))
      (ground (arith, Digits-digits_only i di, Digits-digits_only f df))
