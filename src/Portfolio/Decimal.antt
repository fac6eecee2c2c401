-- ===== src/Portfolio/Decimal.antt =====
-- apps/portfolio-service/src/positions/add-decimal-string.ts. A text is the list of its code units:
-- 43 is `+`, 46 is `.`, 48 to 57 are the digits.
pub mod Digits
pub mod Format
pub mod Sum
pub mod Grammar
pub mod Normal
use arbibot.Base.{
  ℕ, zero, suc, ◌+◌, ◌-◌, ◌*◌, ◌/◌, ◌%◌, ◌≡◌, refl, Bool, true, false, ◌&&◌, Option, none, some,
  List, [], ◌∷◌, ◌++◌, all, length, leb, ltb, ◌==◌, is_space, take, drop, replicate, get_or,
  if◌then◌else◌,
}
use arbibot.Store.Outcome.{Result, ok, err, failure, ◌>>=◌}

abbrev pub Text : Type 0
Text = List ℕ

pub skip_spaces : Text → Text
unfolding is_space
skip_spaces [] = []
skip_spaces (c ∷ s) = let rest = skip_spaces s in if is_space c then rest else c ∷ s

cut_last_space : ℕ → Text → Text
unfolding is_space
cut_last_space c [] = if is_space c then [] else c ∷ []
cut_last_space c (d ∷ s) = c ∷ d ∷ s

pub cut_spaces : Text → Text
unfolding cut_last_space
cut_spaces [] = []
cut_spaces (c ∷ s) = cut_last_space c (cut_spaces s)

-- `.replace(/^\+/, '')`.
pub strip_plus : Text → Text
strip_plus [] = []
strip_plus (c ∷ s) = if c == 43 then s else c ∷ s

abbrev pub is_digit : ℕ → Bool
is_digit c = leb 48 c && leb c 57

-- `s.split('.')`: the part before the first point, and the part behind it, where there is one.
unfoldable pub split_point : Text → Text × Option Text
split_point [] = ([], none)
split_point (c ∷ s) =
    let rest = split_point s in if c == 46 then ([], some s) else (c ∷ rest.0, rest.1)

-- `\d+`.
unfoldable pub digits_only : Text → Bool
unfolding all
digits_only [] = false
digits_only (c ∷ s) = all is_digit (c ∷ s)

abbrev fits : Text × Option Text → Bool
fits (i, none) = digits_only i
fits (i, some f) = digits_only i && digits_only f

-- `/^\d+(\.\d+)?$/.test(s)`.
unfoldable pub is_decimal : Text → Bool
unfolding split_point digits_only
is_decimal s = fits (split_point s)

abbrev pub int_part : Text → Text
int_part s = (split_point s).0

abbrev pub frac_part : Text → Text
frac_part s = get_or (split_point s).1 []

-- `normalize`.
unfoldable pub normalize : Text → Result Text
unfolding skip_spaces cut_spaces strip_plus is_decimal
normalize raw =
    let s = strip_plus (cut_spaces (skip_spaces raw)) in if is_decimal s then ok s else err failure

-- `BigInt(digits)`: the number that digits spell behind `n`.
unfoldable pub value : ℕ → Text → ℕ
value n [] = n
value n (c ∷ s) = value (n * 10 + (c - 48)) s

-- `n.toString()`: the digits of `n`, put before `out` from the last one on.
unfoldable pub emit : ℕ → ℕ → Text → Text
emit zero n out = out
emit (suc fuel) n out = elim (n == 0) [
  | true ↦ out
  | false ↦ emit fuel (n / 10) ((48 + n % 10) ∷ out)
]

unfoldable pub to_digits : ℕ → Text
unfolding emit
to_digits n = if n == 0 then 48 ∷ [] else emit n n []

-- `f.padEnd(scale, '0')`.
abbrev pub pad_end : ℕ → Text → Text
pad_end scale f = f ++ replicate (scale - length f) 48

-- `while (digits.length <= scale) digits = '0' + digits`, for `fuel` rounds at most.
unfoldable pub pad_start : ℕ → ℕ → Text → Text
pad_start zero scale digits = digits
pad_start (suc fuel) scale digits = elim (leb (length digits) scale) [
  | true ↦ pad_start fuel scale (48 ∷ digits)
  | false ↦ digits
]

unfoldable pub keep_digit : ℕ → Text → Text
keep_digit c [] = if c == 48 then [] else c ∷ []
keep_digit c (d ∷ s) = c ∷ d ∷ s

-- `.replace(/0+$/, '')`.
unfoldable pub trim_zeros : Text → Text
unfolding keep_digit
trim_zeros [] = []
trim_zeros (c ∷ s) = keep_digit c (trim_zeros s)

-- The point is written where digits stand behind it.
unfoldable pub join_point : Text → Text → Text
join_point i [] = i
join_point i (c ∷ f) = i ++ 46 ∷ c ∷ f

-- `formatScaledUnsignedInteger`. Each round of its loop adds a digit, so `scale + 1` rounds are enough.
unfoldable pub format_scaled : ℕ → ℕ → Text
unfolding to_digits pad_start trim_zeros join_point take drop
format_scaled sum zero = to_digits sum
format_scaled sum (suc k) =
    let digits = pad_start (k + 2) (suc k) (to_digits sum) in
    let cut = length digits - suc k in join_point (take cut digits) (trim_zeros (drop cut digits))

abbrev pub max : ℕ → ℕ → ℕ
max a b = if leb a b then b else a

-- `addNonNegativeDecimalStrings`, once both texts are normalized.
unfoldable pub add_decimals : Text → Text → Text
unfolding value format_scaled
add_decimals a b =
    let scale = max (length (frac_part a)) (length (frac_part b)) in
    format_scaled
      (value 0 (int_part a ++ pad_end scale (frac_part a))
        + value 0 (int_part b ++ pad_end scale (frac_part b)))
      scale

-- `addNonNegativeDecimalStrings`.
unfoldable pub add_non_negative_decimal_strings : Text → Text → Result Text
unfolding normalize add_decimals
add_non_negative_decimal_strings a b =
    normalize a >>= λ a'. normalize b >>= λ b'. ok (add_decimals a' b')
