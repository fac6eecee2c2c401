-- ===== src/Store/Outcome.antt =====
-- The result of a check or a method: a value, or the exception that was thrown.
use arbibot.Base.{◌≡◌, ◌⊎◌, inl, inr, refl, ap, Bool, true, false, Option, none, some}

-- The Nest exceptions, and any other thrown error. Their messages are not modelled.
pub data Error : Type 0 where
  not_found conflict bad_request unprocessable service_unavailable failure : Error

pub data Result {ℓ} (A : Type ℓ) : Type ℓ where
  ok : A → Result A
  err : Error → Result A

infixl 5 ◌>>=◌ ◌>>◌
abbrev pub ◌>>=◌ {ℓ κ} : {A : Type ℓ} {B : Type κ} → Result A → (A → Result B) → Result B
ok a >>= f = f a
err e >>= f = err e

abbrev pub ◌>>◌ {ℓ κ} : {A : Type ℓ} {B : Type κ} → Result A → Result B → Result B
m >> k = m >>= λ _. k

-- `if (row === null) throw e`.
abbrev pub demand {ℓ} : {A : Type ℓ} → Option A → Error → Result A
demand none e = err e
demand (some a) e = ok a

-- `if (!test) throw e`.
abbrev pub assert : Bool → Error → Result (Unit {0})
assert true e = ok tt
assert false e = err e

pub Result-cases {ℓ} :
    {A : Type ℓ} (r : Result A) → ((a : A) × (r ≡ ok a)) ⊎ ((e : Error) × (r ≡ err e))
Result-cases (ok a) = inl (a, refl)
Result-cases (err e) = inr (e, refl)

value_or {ℓ} : {A : Type ℓ} → A → Result A → A
value_or d (ok a) = a
value_or d (err e) = d

pub ok-injective {ℓ} : {A : Type ℓ} {a b : A} → ok a ≡ ok b → a ≡ b
unfolding value_or
ok-injective {A} {a} e = ap (value_or a) e
