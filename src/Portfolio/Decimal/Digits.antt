-- ===== src/Portfolio/Decimal/Digits.antt =====
-- Digit texts of add-decimal-string.ts: the numbers that they spell.
use arbibot.Base.{
  ℕ, zero, suc, ◌+◌, ◌-◌, ◌*◌, ◌/◌, ◌%◌, ◌^◌, ◌≤◌, ◌<◌, ◌≡◌, refl, ap, true, [], ◌∷◌, ◌++◌, all,
  length, ◌==◌, replicate, Bool-cases, inl, inr, arith,
}
use native.Mathlib.Nat.{zero-add}
use native.Mathlib.Omega.{pow_step}
use arbibot.Portfolio.Decimal.{
  Text, is_digit, value, emit, to_digits, pad_start, trim_zeros, keep_digit,
}

pub value-append : (n : ℕ) (xs ys : Text) → value n (xs ++ ys) ≡ value (value n xs) ys
unfolding value
value-append n [] ys = refl
value-append n (c ∷ xs) ys = value-append (n * 10 + (c - 48)) xs ys

-- Zeros behind a number multiply it by a power of ten.
pub value-replicate : (n m : ℕ) → value n (replicate m 48) ≡ n * 10 ^ m
unfolding value replicate
value-replicate n zero = omega arith
value-replicate n (suc m) =
    omega (arith, value-replicate (n * 10 + (48 - 48)) m, ap (λ (t : ℕ). n * t) (pow_step 10 m))

pub value_split : (n : ℕ) (xs : Text) → value n xs ≡ n * 10 ^ length xs + value 0 xs
unfolding value
value_split n [] = omega arith
value_split n (c ∷ xs) = omega (
  arith,
  value_split (n * 10 + (c - 48)) xs,
  value_split (0 * 10 + (c - 48)) xs,
  ap (λ (t : ℕ). n * t) (pow_step 10 (length xs)),
)

suc_add : (a b : ℕ) → suc a + b ≡ suc (a + b)
suc_add a b = omega arith

pub pow_add : (a b : ℕ) → 10 ^ (a + b) ≡ 10 ^ a * 10 ^ b
pow_add zero b = simp (zero-add) (omega arith)
pow_add (suc a) b = omega (
  arith,
  pow_step 10 (a + b),
  pow_add a b,
  ap (λ (t : ℕ). 10 ^ t) (suc_add a b),
  ap (λ (t : ℕ). t * 10 ^ b) (pow_step 10 a),
)

value-emit : (fuel n : ℕ) (out : Text) → n ≤ fuel → value 0 (emit fuel n out) ≡ value n out
unfolding emit value
value-emit zero n out h = ground arith
value-emit (suc fuel) n out h = ground (arith, value-emit fuel (n / 10) ((48 + n % 10) ∷ out))

-- The digits of a number spell it: the rounds of the loop are enough.
pub value-to_digits : (n : ℕ) → value 0 (to_digits n) ≡ n
unfolding to_digits value
value-to_digits n = ground (arith, value-emit n n [])

emit-all :
    (fuel n : ℕ) (out : Text) → all is_digit out ≡ true → all is_digit (emit fuel n out) ≡ true
unfolding emit all
emit-all zero n out h = h
emit-all (suc fuel) n out h = ground (arith, emit-all fuel (n / 10) ((48 + n % 10) ∷ out))

pub to_digits-all : (n : ℕ) → all is_digit (to_digits n) ≡ true
unfolding to_digits all
to_digits-all n = ground (arith, emit-all n n [] refl)

length-emit : (fuel n : ℕ) (out : Text) → length out ≤ length (emit fuel n out)
unfolding emit
length-emit zero n out = omega arith
length-emit (suc fuel) n out = ground (arith, length-emit fuel (n / 10) ((48 + n % 10) ∷ out))

pub length-to_digits : (n : ℕ) → 0 < length (to_digits n)
unfolding to_digits emit
length-to_digits zero = ground arith
length-to_digits (suc n) = ground (arith, length-emit n (suc n / 10) ((48 + suc n % 10) ∷ []))

pub value-pad_start : (fuel scale : ℕ) (s : Text) → value 0 (pad_start fuel scale s) ≡ value 0 s
unfolding pad_start value
value-pad_start zero scale s = refl
value-pad_start (suc fuel) scale s = ground (arith, value-pad_start fuel scale (48 ∷ s))

pub pad_start-all :
    (fuel scale : ℕ) (s : Text)
    → all is_digit s ≡ true
    → all is_digit (pad_start fuel scale s) ≡ true
unfolding pad_start all
pad_start-all zero scale s h = h
pad_start-all (suc fuel) scale s h = ground (arith, pad_start-all fuel scale (48 ∷ s))

-- The loop ends with more digits than the scale.
pub length-pad_start :
    (fuel scale : ℕ) (s : Text) → scale < length s + fuel → scale < length (pad_start fuel scale s)
unfolding pad_start
length-pad_start zero scale s h = omega arith
length-pad_start (suc fuel) scale s h = ground (arith, length-pad_start fuel scale (48 ∷ s))

-- What `trim_zeros` removes is zeros.
pub trim_zeros_lem : (s : Text) → (m : ℕ) × (s ≡ trim_zeros s ++ replicate m 48)
unfolding trim_zeros replicate keep_digit
trim_zeros_lem [] = (0, refl)
trim_zeros_lem (c ∷ s) = kept c s (trim_zeros s) (trim_zeros_lem s)
  where
    kept :
        (c : ℕ) (s t : Text)
        → ((m : ℕ) × (s ≡ t ++ replicate m 48))
        → (m : ℕ) × (c ∷ s ≡ keep_digit c t ++ replicate m 48)
    kept c s [] (m, e) = elim (Bool-cases (c == 48)) [
      | inl is_zero ↦ (suc m, ground (arith, e))
      | inr other ↦ (m, ground (arith, e))
    ]
    kept c s (d ∷ t) (m, e) = (m, ap (λ z. c ∷ z) e)

pub all-append :
    (xs ys : Text)
    → all is_digit (xs ++ ys) ≡ true
    → (all is_digit xs ≡ true) × (all is_digit ys ≡ true)
unfolding all
all-append [] ys h = (refl, h)
all-append (x ∷ xs) ys h = ground (arith, all-append xs ys)
