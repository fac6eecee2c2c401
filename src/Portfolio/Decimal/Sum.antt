-- ===== src/Portfolio/Decimal/Sum.antt =====
-- The sums of add-decimal-string.ts are exact.
use arbibot.Base.{
  ℕ, ◌+◌, ◌*◌, ◌^◌, ◌-◌, ◌≤◌, ◌≡◌, refl, ap, Bool, true, ◌||◌, [], ◌∷◌, ◌++◌, all, length, ◌==◌,
  is_space, Bool-cases, Option-cases, inl, inr, ◌⊎◌, arith,
}
use arbibot.Store.Outcome.{ok, err, failure}
use arbibot.Portfolio.Decimal.{
  Text, is_digit, value, pad_end, digits_only, is_decimal, split_point, int_part, frac_part, max,
  skip_spaces, cut_spaces, cut_last_space, strip_plus, normalize, add_decimals,
  add_non_negative_decimal_strings,
}
use arbibot.Portfolio.Decimal.Format.{units, units_rescale, value-pad_end, format_scaled_lem}

abbrev plain : ℕ → Bool
plain c = is_digit c || c == 46

digits-plain : (s : Text) → all is_digit s ≡ true → all plain s ≡ true
unfolding all
digits-plain [] h = refl
digits-plain (c ∷ s) h = ground (arith, digits-plain s)

parts-plain :
    (s : Text)
    → all is_digit (int_part s) ≡ true
    → all is_digit (frac_part s) ≡ true
    → all plain s ≡ true
unfolding all split_point
parts-plain [] hi hf = refl
parts-plain (c ∷ s) hi hf = elim (Bool-cases (c == 46)) [
  | inl point ↦ ground (arith, digits-plain s)
  | inr other ↦ ground (arith, parts-plain s)
]

digits_only-all : (s : Text) → digits_only s ≡ true → all is_digit s ≡ true
unfolding digits_only
digits_only-all [] h = absurd (ground arith)
digits_only-all (c ∷ s) h = h

pub decimal-plain : (s : Text) → is_decimal s ≡ true → all plain s ≡ true
unfolding is_decimal all
decimal-plain s h = elim (Option-cases (split_point s).1) [
  | inl whole ↦ parts-plain s (digits_only-all (int_part s) (ground arith)) (ground arith)
  | inr (f, point) ↦
      parts-plain s (digits_only-all (int_part s) (ground arith))
        (ground (arith, digits_only-all f))
]

skip_spaces-plain : (s : Text) → all plain s ≡ true → skip_spaces s ≡ s
unfolding all skip_spaces is_space
skip_spaces-plain [] h = refl
skip_spaces-plain (c ∷ s) h = ground arith

pub cut_spaces-plain : (s : Text) → all plain s ≡ true → cut_spaces s ≡ s
unfolding all cut_spaces cut_last_space is_space
cut_spaces-plain [] h = refl
cut_spaces-plain (c ∷ []) h = ground arith
cut_spaces-plain (c ∷ d ∷ s) h = ap (cut_last_space c) (cut_spaces-plain (d ∷ s) (ground arith))

pub strip_plus-plain : (s : Text) → all plain s ≡ true → strip_plus s ≡ s
unfolding all strip_plus
strip_plus-plain [] h = refl
strip_plus-plain (c ∷ s) h = ground arith

-- A decimal text is its own normal form.
pub normalize-decimal : (s : Text) → is_decimal s ≡ true → normalize s ≡ ok s
unfolding normalize
normalize-decimal s h =
    let p = decimal-plain s h in
    rw (skip_spaces-plain s p, cut_spaces-plain s p, strip_plus-plain s p, h) refl

pub normalize_lem : (raw : Text) {s : Text} → normalize raw ≡ ok s → is_decimal s ≡ true
unfolding normalize
normalize_lem raw e = ground arith

-- The digits of a summand at a scale that holds its places.
summand :
    (s : Text) (k : ℕ)
    → length (frac_part s) ≤ k
    → value 0 (int_part s ++ pad_end k (frac_part s)) ≡ units k s
unfolding units
summand s k few = value-pad_end (int_part s) (frac_part s) k few

add_decimals_lem :
    (a b : Text)
    → let k : ℕ = max (length (frac_part a)) (length (frac_part b)) in
      (is_decimal (add_decimals a b) ≡ true)
      × (length (frac_part (add_decimals a b)) ≤ k)
      × (units k (add_decimals a b) ≡ units k a + units k b)
unfolding add_decimals
add_decimals_lem a b =
    let k : ℕ = max (length (frac_part a)) (length (frac_part b)) in
    let (is_dec, few, same) =
      format_scaled_lem
        (value 0 (int_part a ++ pad_end k (frac_part a))
          + value 0 (int_part b ++ pad_end k (frac_part b)))
        k in
    (is_dec, few, omega (arith, same, summand a k (ground arith), summand b k (ground arith)))

sum_at :
    (a b c : Text) (m k : ℕ)
    → length (frac_part a) ≤ m
    → length (frac_part b) ≤ m
    → length (frac_part c) ≤ m
    → m ≤ k
    → units m c ≡ units m a + units m b
    → units k c ≡ units k a + units k b
sum_at a b c m k ha hb hc more e = omega (
  arith,
  units_rescale a m k ha more,
  units_rescale b m k hb more,
  units_rescale c m k hc more,
  ap (λ (t : ℕ). t * 10 ^ (k - m)) e,
)

-- The sum of two decimals, each with a sign or spaces around it or not, is exact at every scale that
-- holds the places of both: it is a decimal text with no more places, which is accepted again as it
-- stands, for just the sum of the two numbers.
pub add_sound :
    (a b : Text) {a' b' : Text} (k : ℕ)
    → normalize a ≡ ok a'
    → normalize b ≡ ok b'
    → length (frac_part a') ≤ k
    → length (frac_part b') ≤ k
    → (c : Text) × (add_non_negative_decimal_strings a b ≡ ok c)
      × (normalize c ≡ ok c)
      × (length (frac_part c) ≤ k)
      × (units k c ≡ units k a' + units k b')
unfolding add_non_negative_decimal_strings
add_sound a b {a'} {b'} k ea eb ha hb =
    let m : ℕ = max (length (frac_part a')) (length (frac_part b')) in
    let (is_dec, few, same) = add_decimals_lem a' b' in
    (
      add_decimals a' b',
      rw (ea, eb) refl,
      normalize-decimal (add_decimals a' b') is_dec,
      ground (arith, few),
      sum_at a' b' (add_decimals a' b') m k (ground arith) (ground arith) few (ground arith) same,
    )

pub normalize-cases : (a : Text) → ((s : Text) × (normalize a ≡ ok s)) ⊎ (normalize a ≡ err failure)
unfolding normalize
normalize-cases a = elim (Bool-cases (is_decimal (strip_plus (cut_spaces (skip_spaces a))))) [
  | inl fits ↦ inl (strip_plus (cut_spaces (skip_spaces a)), rw fits refl)
  | inr other ↦ inr (rw other refl)
]
