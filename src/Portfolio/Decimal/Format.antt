-- ===== src/Portfolio/Decimal/Format.antt =====
-- What `formatScaledUnsignedInteger` writes, read back as a number of units.
use arbibot.Base.{
  subst, ℕ, zero, suc, ◌+◌, ◌-◌, ◌*◌, ◌^◌, ◌≤◌, ◌<◌, ◌≡◌, refl, ap, ◌∙◌, true, Option, none, some,
  [], ◌∷◌, ◌++◌, all, length, take, drop, replicate, length-append, length-take, length-drop,
  take-drop, length-replicate, arith,
}
use arbibot.Portfolio.Decimal.{
  Text, is_digit, value, to_digits, pad_start, pad_end, trim_zeros, digits_only, is_decimal,
  split_point, int_part, frac_part, join_point, format_scaled,
}
use arbibot.Portfolio.Decimal.Digits.{
  value-append, value-replicate, value_split, pow_add, value-to_digits, to_digits-all,
  length-to_digits, value-pad_start, pad_start-all, length-pad_start, trim_zeros_lem, all-append,
}

-- The number that a decimal text stands for, in units of the `k`-th decimal place.
unfoldable pub units : ℕ → Text → ℕ
unfolding value
units k s = value 0 (int_part s) * 10 ^ k + value 0 (frac_part s) * 10 ^ (k - length (frac_part s))

pub scaled : (v m n : ℕ) {k : ℕ} → m + n ≡ k → v * 10 ^ m * 10 ^ n ≡ v * 10 ^ k
scaled v m n {k} e =
    omega (arith, ap (λ (t : ℕ). v * t) (pow_add m n), ap (λ (t : ℕ). v * 10 ^ t) e)

-- The digits that are added stand for the number in units of the scale.
pub value-pad_end :
    (i f : Text) (k : ℕ)
    → length f ≤ k
    → value 0 (i ++ pad_end k f) ≡ value 0 i * 10 ^ k + value 0 f * 10 ^ (k - length f)
unfolding value
value-pad_end i f k h = omega (
  arith,
  value-append 0 i (pad_end k f),
  value-append (value 0 i) f (replicate (k - length f) 48),
  value-replicate (value (value 0 i) f) (k - length f),
  ap (λ (t : ℕ). t * 10 ^ (k - length f)) (value_split (value 0 i) f),
  scaled (value 0 i) (length f) (k - length f) {k = k} (omega arith),
)

-- More places multiply the number of units.
pub units_rescale :
    (s : Text) (m k : ℕ) → length (frac_part s) ≤ m → m ≤ k → units k s ≡ units m s * 10 ^ (k - m)
unfolding units
units_rescale s m k few more =
    let f = frac_part s in
    omega (
      arith,
      scaled (value 0 (int_part s)) m (k - m) {k = k} (omega arith),
      scaled (value 0 f) (m - length f) (k - m) {k = k - length f} (omega arith),
    )

split_point-digits : (i : Text) → all is_digit i ≡ true → split_point i ≡ (i, none)
unfolding split_point all
split_point-digits [] h = refl
split_point-digits (c ∷ i) h = ground (arith, split_point-digits i)

split_point-point : (i f : Text) → all is_digit i ≡ true → split_point (i ++ 46 ∷ f) ≡ (i, some f)
unfolding split_point all
split_point-point [] f h = refl
split_point-point (c ∷ i) f h = ground (arith, split_point-point i f)

abbrev optional : Text → Option Text
optional [] = none
optional (c ∷ f) = some (c ∷ f)

-- Splitting at the point takes apart what was joined.
split_point-join_point :
    (i f : Text) → all is_digit i ≡ true → split_point (join_point i f) ≡ (i, optional f)
unfolding join_point
split_point-join_point i [] h = split_point-digits i h
split_point-join_point i (c ∷ f) h = split_point-point i (c ∷ f) h

-- A text joined of digits is a decimal, of the number that its parts stand for.
join_point_lem :
    (i f : Text)
    → 0 < length i
    → all is_digit i ≡ true
    → all is_digit f ≡ true
    → (is_decimal (join_point i f) ≡ true)
      × (int_part (join_point i f) ≡ i)
      × (frac_part (join_point i f) ≡ f)
unfolding is_decimal digits_only
join_point_lem [] f some_digits hi hf = absurd (omega arith)
join_point_lem (c ∷ i) [] some_digits hi hf =
    let e = split_point-join_point (c ∷ i) [] hi in
    (ground (arith, e), ground (arith, e), ground (arith, e))
join_point_lem (c ∷ i) (d ∷ f) some_digits hi hf =
    let e = split_point-join_point (c ∷ i) (d ∷ f) hi in
    (ground (arith, e), ground (arith, e), ground (arith, e))

units_of :
    (s i f : Text) (k : ℕ)
    → int_part s ≡ i
    → frac_part s ≡ f
    → units k s ≡ value 0 i * 10 ^ k + value 0 f * 10 ^ (k - length f)
unfolding units
units_of s i f k p q = λ j. value 0 (p j) * 10 ^ k + value 0 (q j) * 10 ^ (k - length (q j))

-- Digits with zeros behind them, behind other digits.
value_parts :
    (i f t s : Text) (m k : ℕ)
    → i ++ f ≡ s
    → f ≡ t ++ replicate m 48
    → length t + m ≡ k
    → value 0 i * 10 ^ k + value 0 t * 10 ^ (k - length t) ≡ value 0 s
value_parts i f t s m k whole zeros len = omega (
  arith,
  ap (value 0) whole,
  value-append 0 i f,
  value_split (value 0 i) f,
  ap (value 0) zeros,
  value-append 0 t (replicate m 48),
  value-replicate (value 0 t) m,
  ap (λ (x : ℕ). value 0 t * 10 ^ x) (let e : k - length t ≡ m = omega (arith, len) in e),
  ap (λ (x : ℕ). value 0 i * 10 ^ x)
      (let e : length f ≡ k = omega (
        arith,
        ap length zeros,
        length-append t (replicate m 48),
        length-replicate {A = ℕ} m 48,
      ) in
        e),
)

-- Where the digits are cut, and the zeros behind the point removed.
cut_digits :
    (s : Text) (k : ℕ)
    → suc k < length s
    → all is_digit s ≡ true
    → let c : Text =
        join_point (take (length s - suc k) s) (trim_zeros (drop (length s - suc k) s)) in
      (is_decimal c ≡ true) × (length (frac_part c) ≤ suc k) × (units (suc k) c ≡ value 0 s)
cut_digits s k long h =
    let c : Text =
      join_point (take (length s - suc k) s) (trim_zeros (drop (length s - suc k) s)) in
    let cut : ℕ = length s - suc k in
    let i : Text = take cut s in
    let f : Text = drop cut s in
    let t : Text = trim_zeros f in
    let (m, zeros) = trim_zeros_lem f in
    let whole : i ++ f ≡ s = take-drop cut s in
    let (hi, hf) = all-append i f (rw whole h) in
    let places : length f ≡ suc k = omega (arith, length-drop cut s) in
    let len : length t + m ≡ suc k = omega (
      arith,
      places,
      ap length zeros,
      length-append t (replicate m 48),
      length-replicate {A = ℕ} m 48,
    ) in
    let (is_dec, is_int, is_frac) =
      join_point_lem i t (omega (arith, length-take cut s (omega arith))) hi
        (all-append t (replicate m 48) (subst (λ x. all is_digit x ≡ true) zeros hf)).0 in
    (
      is_dec,
      omega (arith, len, ap length is_frac),
      units_of c i t (suc k) is_int is_frac ∙ value_parts i f t s m (suc k) whole zeros len,
    )

whole_units :
    (s : Text) → value 0 s * 10 ^ 0 + value 0 [] * 10 ^ (0 - length {A = ℕ} []) ≡ value 0 s
unfolding value
whole_units s = omega arith

-- What is written for a number of units at a scale is a decimal text with no more places than the
-- scale, and it stands for this number.
pub format_scaled_lem :
    (n k : ℕ)
    → (is_decimal (format_scaled n k) ≡ true)
      × (length (frac_part (format_scaled n k)) ≤ k)
      × (units k (format_scaled n k) ≡ n)
unfolding format_scaled all
format_scaled_lem n zero =
    let h = to_digits-all n in
    let (is_dec, is_int, is_frac) = join_point_lem (to_digits n) [] (length-to_digits n) h refl in
    (
      is_dec,
      omega (arith, ap length is_frac),
      units_of (to_digits n) (to_digits n) [] 0 is_int is_frac
          ∙ whole_units (to_digits n)
          ∙ value-to_digits n,
    )
format_scaled_lem n (suc k) =
    let digits : Text = pad_start (k + 2) (suc k) (to_digits n) in
    let (is_dec, few, same) =
      cut_digits digits k
        (length-pad_start (k + 2) (suc k) (to_digits n) (omega (arith, length-to_digits n)))
        (pad_start-all (k + 2) (suc k) (to_digits n) (to_digits-all n)) in
    (is_dec, few, same ∙ value-pad_start (k + 2) (suc k) (to_digits n) ∙ value-to_digits n)
