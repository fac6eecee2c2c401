-- ===== src/Portfolio/Decimal/Normal.antt =====
-- The normal form of a text in add-decimal-string.ts.
use arbibot.Base.{
  ℕ, ◌≡◌, ◌≢◌, refl, ap, subst, ◌∙◌, true, ◌&&◌, [], ◌∷◌, ◌++◌, all, ◌==◌, is_space, Bool-cases,
  inl, inr, ◌⊎◌, arith,
}
use arbibot.Store.Outcome.{ok, err, failure}
use arbibot.Portfolio.Decimal.{
  Text, is_decimal, skip_spaces, cut_spaces, cut_last_space, strip_plus, normalize, add_decimals,
  add_non_negative_decimal_strings,
}
use arbibot.Portfolio.Decimal.Sum.{
  decimal-plain, cut_spaces-plain, strip_plus-plain, normalize-cases,
}
use arbibot.Portfolio.Decimal.Grammar.{Numeral, is_decimal-Decimal, Decimal-is_decimal}

-- The spaces before, the spaces behind, and the plus are there.
skipped : (s : Text) → (b : Text) × (s ≡ b ++ skip_spaces s) × (all is_space b ≡ true)
unfolding skip_spaces all
skipped [] = ([], refl, refl)
skipped (c ∷ s) = elim (Bool-cases (is_space c)) [
  | inl space ↦
      let (b, e, h) = skipped s in (c ∷ b, rw space (ap (λ t. c ∷ t) e), ground (arith, space, h))
  | inr other ↦ ([], rw other refl, refl)
]

cut_step :
    (c : ℕ) (s t a : Text)
    → s ≡ t ++ a
    → all is_space a ≡ true
    → (a' : Text) × (c ∷ s ≡ cut_last_space c t ++ a') × (all is_space a' ≡ true)
unfolding cut_last_space all
cut_step c s [] a e h = elim (Bool-cases (is_space c)) [
  | inl space ↦ (c ∷ a, rw space (ap (λ x. c ∷ x) e), ground (arith, space, h))
  | inr other ↦ (a, rw other (ap (λ x. c ∷ x) e), h)
]
cut_step c s (d ∷ t) a e h = (a, ap (λ x. c ∷ x) e, h)

cut : (s : Text) → (a : Text) × (s ≡ cut_spaces s ++ a) × (all is_space a ≡ true)
unfolding cut_spaces all
cut [] = ([], refl, refl)
cut (c ∷ s) = let (a, e, h) = cut s in cut_step c s (cut_spaces s) a e h

signed : (s : Text) → (p : Text) × (s ≡ p ++ strip_plus s) × ((p ≡ []) ⊎ (p ≡ 43 ∷ []))
unfolding strip_plus
signed [] = ([], refl, inl refl)
signed (c ∷ s) = elim (Bool-cases (c == 43)) [
  | inl plus ↦ (43 ∷ [], ground (arith, plus), inr refl)
  | inr other ↦ ([], rw other refl, inl refl)
]

append_assoc : (s t u : Text) → (s ++ t) ++ u ≡ s ++ (t ++ u)
append_assoc [] t u = refl
append_assoc (c ∷ s) t u = ap (λ x. c ∷ x) (append_assoc s t u)

-- A text that normalizes is a numeral.
normalize-Numeral : (raw : Text) {s : Text} → normalize raw ≡ ok s → Numeral raw
unfolding normalize
normalize-Numeral raw {s} e =
    let (before, e1, h1) = skipped raw in
    let (behind, e2, h2) = cut (skip_spaces raw) in
    let (sign, e3, h3) = signed (cut_spaces (skip_spaces raw)) in
    let v : Text = strip_plus (cut_spaces (skip_spaces raw)) in
    (
      before,
      sign,
      v,
      behind,
      e1 ∙ ap (λ t. before ++ t) (e2 ∙ ap (λ t. t ++ behind) e3 ∙ append_assoc sign v behind),
      h1,
      h3,
      is_decimal-Decimal v (ground arith),
      h2,
    )

all_spaces :
    (c : ℕ) (s : Text) → all is_space (c ∷ s) ≡ true → (is_space c ≡ true) × (all is_space s ≡ true)
unfolding all
all_spaces c s h = elim (Bool-cases (is_space c)) [
  | inl space ↦ (space, subst (λ b. b && all is_space s ≡ true) space h)
  | inr other ↦ absurd (cc (h, other))
]

skip_over : (b s : Text) → all is_space b ≡ true → skip_spaces (b ++ s) ≡ skip_spaces s
unfolding skip_spaces all
skip_over [] s h = refl
skip_over (c ∷ b) s h = let (blank, rest) = all_spaces c b h in rw blank (skip_over b s rest)

cut_blank : (a : Text) → all is_space a ≡ true → cut_spaces a ≡ []
unfolding cut_spaces cut_last_space all
cut_blank [] h = refl
cut_blank (c ∷ a) h = let (blank, rest) = all_spaces c a h in rw (cut_blank a rest, blank) refl

cut_behind : (s a : Text) → all is_space a ≡ true → cut_spaces (s ++ a) ≡ cut_spaces s
unfolding cut_spaces
cut_behind [] a h = cut_blank a h
cut_behind (c ∷ s) a h = ap (cut_last_space c) (cut_behind s a h)

bare : (s a : Text) → is_decimal s ≡ true → all is_space a ≡ true → normalize (s ++ a) ≡ ok s
unfolding normalize skip_spaces all
bare [] a d h = absurd (ground arith)
bare (c ∷ s) a d h =
    let p = decimal-plain (c ∷ s) d in
    let kept : skip_spaces (c ∷ s ++ a) ≡ c ∷ s ++ a = ground (arith, p) in
    rw (kept, cut_behind (c ∷ s) a h, cut_spaces-plain (c ∷ s) p, strip_plus-plain (c ∷ s) p, d)
      refl

plus : (s a : Text) → is_decimal s ≡ true → all is_space a ≡ true → normalize (43 ∷ s ++ a) ≡ ok s
unfolding normalize skip_spaces cut_spaces cut_last_space strip_plus is_space
plus [] a d h = absurd (ground arith)
plus (c ∷ s) a d h =
    rw (cut_behind (c ∷ s) a h, cut_spaces-plain (c ∷ s) (decimal-plain (c ∷ s) d), d) refl

signed_lem :
    (sign s a : Text)
    → (sign ≡ []) ⊎ (sign ≡ 43 ∷ [])
    → is_decimal s ≡ true
    → all is_space a ≡ true
    → normalize (sign ++ (s ++ a)) ≡ ok s
signed_lem sign s a (inl e) d h = rw e (bare s a d h)
signed_lem sign s a (inr e) d h = rw e (plus s a d h)

-- A numeral normalizes.
Numeral-normalize : (raw : Text) → Numeral raw → normalize raw ≢ err failure
unfolding normalize
Numeral-normalize raw (before, sign, s, a, e, hb, hs, d, ha) refused =
    let done : normalize raw ≡ ok s =
      rw (e, skip_over before (sign ++ (s ++ a)) hb)
        (signed_lem sign s a hs (Decimal-is_decimal s d) ha) in
    cc

-- Where both texts are numerals, there is a sum. Otherwise the sum is refused. A numeral is a
-- number of digits, perhaps with a point and more digits behind it, perhaps behind a plus, and
-- with white space around.
pub add_cases :
    (a b : Text)
    → ((c : Text) × (add_non_negative_decimal_strings a b ≡ ok c) × Numeral a × Numeral b)
      ⊎ ((add_non_negative_decimal_strings a b ≡ err failure) × (¬ Numeral a ⊎ ¬ Numeral b))
unfolding add_non_negative_decimal_strings
add_cases a b = elim (normalize-cases a) [
  | inr bad ↦ inr (rw bad refl, inl (λ n. Numeral-normalize a n bad))
  | inl (a', ea) ↦ elim (normalize-cases b) [
    | inr bad ↦ inr (rw (ea, bad) refl, inr (λ n. Numeral-normalize b n bad))
    | inl (b', eb) ↦
        inl (add_decimals a' b', rw (ea, eb) refl, normalize-Numeral a ea, normalize-Numeral b eb)
  ]
]
