-- ===== src/Capital/Gate.antt =====
-- The ceiling of capital-limits.service.ts at work in `attemptReserve` of capital.service.ts.
use arbibot.Base.{
  ℕ, ◌+◌, ◌≤◌, ◌≡◌, refl, ◌⊎◌, inl, inr, false, Option, none, some, arith, Bool-cases, leb, ap, sym,
  ◌∙◌,
}
use arbibot.Store.Outcome.{ok, ok-injective}
use arbibot.Capital.Reservations.{
  Request, ReserveCapital, Reservation, Ledger, active_total, attempt_reserve, reserved,
}
use arbibot.Capital.Limits.{
  Texts, Environment, CachedCeiling, Moment, parse_env_ceiling, get_max_active_capital_usd, resolve,
  refreshed, safe_default_ceiling_usd,
}
use arbibot.Capital.Ceiling.{attempt_reserve_within_ceiling}

-- At most what is set, where anything is.
abbrev pub AtMost : ℕ → Option ℕ → Type 0
AtMost n none = Unit
AtMost n (some bound) = n ≤ bound

abbrev value_of : Option CachedCeiling → Option ℕ
value_of none = none
value_of (some k) = some k.value

abbrev pub Below : ℕ → Option ℕ → Option CachedCeiling → Type 0
Below n env_ceiling cache = AtMost n env_ceiling × AtMost n (value_of cache)

weaken_bound : (n m : ℕ) (bound : Option ℕ) → n ≤ m → AtMost m bound → AtMost n bound
weaken_bound n m none le h = tt
weaken_bound n m (some bound) le h = omega arith

-- Where a ceiling comes from.
abbrev Source : Environment → Option ℕ → Option CachedCeiling → ℕ → Type 0
Source env env_ceiling cache c =
    (env_ceiling ≡ some c)
    ⊎ ((k : CachedCeiling) × (cache ≡ some k) × (k.value ≡ c))
    ⊎ ((env.production ≡ false) × (c ≡ safe_default_ceiling_usd))

known_ceilings :
    (env : Environment) (e : ℕ) (k : CachedCeiling) {c : ℕ}
    → resolve env (some e) (some k) ≡ ok c
    → Below c (some e) (some k) × Source env (some e) (some k) c
unfolding resolve
known_ceilings env e k {c} r = elim (Bool-cases (leb e k.value)) [
  | inl lower ↦
      let is_e : e ≡ c = ground arith in ((ground arith, ground arith), inl (ap some is_e))
  | inr higher ↦
      let is_k : k.value ≡ c = ground arith in
      ((ground arith, ground arith), inr (inl (k, refl, is_k)))
]

-- A ceiling that is found is no more than either of those that are set, and it is one of them, or the
-- default outside production.
resolve_lem :
    (env : Environment) (env_ceiling : Option ℕ) (cache : Option CachedCeiling) {c : ℕ}
    → resolve env env_ceiling cache ≡ ok c
    → Below c env_ceiling cache × Source env env_ceiling cache c
unfolding resolve
resolve_lem env (some e) (some k) r = known_ceilings env e k r
resolve_lem env (some e) none {c} r =
    let is_e = ok-injective r in ((ground arith, tt), inl (ap some is_e))
resolve_lem env none (some k) {c} r =
    let is_k = ok-injective r in ((tt, ground arith), inr (inl (k, refl, is_k)))
resolve_lem env none none {c} r = (
  (tt, tt),
  elim (Bool-cases env.production) [
    | inl live ↦ absurd (ground arith)
    | inr test ↦ inr (inr (test, ground arith))
  ],
)

-- A reservation that is accepted under the ceiling of the limits, with no other request in between,
-- leaves the active reservations and the open positions together within the ceiling of the
-- environment, where it sets one, and within the one that is cached from config-service, where there
-- is one. In production there is one of the two.
pub reserved_within_limits :
    (texts : Texts) (env : Environment) (m : Moment) (cache : Option CachedCeiling) (req : Request)
    (dto : ReserveCapital) (l : Ledger) {r : Reservation} {l' : Ledger}
    → req.ceiling ≡ (get_max_active_capital_usd texts env m cache).0
    → attempt_reserve req dto l.reservations l ≡ reserved r l'
    → let cached = (get_max_active_capital_usd texts env m cache).1 in
      Below
        (active_total l'.reservations + req.open_positions_usd)
        (parse_env_ceiling texts env)
        cached
      × ((env.production ≡ false)
          ⊎ ((e : ℕ) × (parse_env_ceiling texts env ≡ some e))
          ⊎ ((k : CachedCeiling) × (cached ≡ some k)))
unfolding get_max_active_capital_usd
reserved_within_limits texts env m cache req dto l {r} {l'} limits accepted =
    let cached = refreshed texts m cache in
    let env_ceiling = parse_env_ceiling texts env in
    let total = active_total l'.reservations + req.open_positions_usd in
    let (c, known, _, fits, _, _, _, _, _, _) = attempt_reserve_within_ceiling req dto l accepted in
    let (below, source) = resolve_lem env env_ceiling cached (sym limits ∙ known) in
    (
      (
        weaken_bound total c env_ceiling fits below.0,
        weaken_bound total c (value_of cached) fits below.1,
      ),
      elim source [
        | inl e ↦ inr (inl (c, e))
        | inr (inl (k, e, _)) ↦ inr (inr (k, e))
        | inr (inr (test, _)) ↦ inl test
      ],
    )
