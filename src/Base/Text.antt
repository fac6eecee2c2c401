-- ===== src/Base/Text.antt =====
-- What the source uses of JavaScript strings: equality, `length > 0`, `trim`, concatenation.
use Prim.Native.Nat.{ℕ}
use Prim.Native.Char.{Char, code}
use Prim.Native.String.{String}
use mathlib.Core.Path.{◌≡◌}
use mathlib.Core.Logic.{◌↔◌}
use mathlib.Core.Bool.{Bool, true, false, ◌&&◌, ◌||◌}
use mathlib.Core.Option.{Option, none, some}
use mathlib.Core.List.{List, [], ◌∷◌}
use text.Mathlib.Text.{◌==◌ as string_eq}
use text.Mathlib.TextEquality.{eq_iff}
use arbibot.Base.Tests.{leb, ◌==◌, if◌then◌else◌}

-- `===` on strings. Shut: proofs use `str_eq_iff`.
unfoldable pub str_eq : String → String → Bool
str_eq a b = string_eq a b

pub str_eq_iff : (a b : String) → (str_eq a b ≡ true) ↔ (a ≡ b)
unfolding str_eq
str_eq_iff a b = eq_iff a b

-- `===` between two values of type `string | null`.
unfoldable pub opt_str_eq : Option String → Option String → Bool
unfolding str_eq
opt_str_eq none none = true
opt_str_eq (some a) (some b) = str_eq a b
opt_str_eq _ _ = false

-- `s.length > 0`.
unfoldable pub non_empty : String → Bool
non_empty String.[] = false
non_empty (String.◌∷◌ c s) = true

-- The white space that `trim` removes.
unfoldable pub is_space : ℕ → Bool
is_space c =
    (leb 9 c && leb c 13)
    || c == 32
    || c == 160
    || c == 5760
    || (leb 8192 c && leb c 8202)
    || c == 8232
    || c == 8233
    || c == 8239
    || c == 8287
    || c == 12288
    || c == 65279

unfoldable pub trim_start : String → String
unfolding is_space
trim_start String.[] = String.[]
trim_start (String.◌∷◌ c s) = if is_space (code c) then trim_start s else String.◌∷◌ c s

end_space : Char → String → String
unfolding is_space
end_space c String.[] = if is_space (code c) then String.[] else String.◌∷◌ c String.[]
end_space c (String.◌∷◌ d s) = String.◌∷◌ c (String.◌∷◌ d s)

unfoldable pub trim_end : String → String
unfolding end_space
trim_end String.[] = String.[]
trim_end (String.◌∷◌ c s) = end_space c (trim_end s)

-- `s.trim()`.
unfoldable pub trim : String → String
unfolding trim_start trim_end
trim s = trim_end (trim_start s)

-- `a + b`, and the template literals.
unfoldable pub concat : String → String → String
concat String.[] t = t
concat (String.◌∷◌ c s) t = String.◌∷◌ c (concat s t)

-- `set.has(s)` and `array.includes(s)`.
unfoldable pub includes : String → List String → Bool
unfolding str_eq
includes s [] = false
includes s (t ∷ ts) = str_eq s t || includes s ts
