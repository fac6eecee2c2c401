-- ===== src/Capital/Limits.antt =====
-- capital-limits.service.ts: the ceiling, from the environment and from config-service.
use arbibot.Base.{
  ℕ, ◌-◌, ◌*◌, String, Bool, true, false, Option, none, some, str_eq, ltb, leb, if◌then◌else◌,
}
use arbibot.Json.{Json, null, obj, arr, prop, as_string, as_number}
use arbibot.Store.Outcome.{Result, ok, err, service_unavailable}

-- What JavaScript makes of a text. `number` is `Number(raw)` in units of the last decimal place, `none`
-- where it is no finite number or a negative one; `json` is `JSON.parse`, `none` where it throws.
pub record Texts : Type 0 where
  pub blank : String → Bool
  pub number : String → Option ℕ
  pub json : String → Option Json

pub record Environment : Type 0 where
  pub production : Bool
  pub capital_max_active_usd : Option String

-- The answer to `signedFetch`; `unanswered` where it throws or is aborted.
pub data Response : Type 0 where
  answered : Bool → ℕ → String → Response
  unanswered : Response

pub record FetchJsonResult : Type 0 where
  pub is_ok : Bool
  pub status : ℕ
  pub body : Json

-- The field `cache`.
pub record CachedCeiling : Type 0 where
  pub value : ℕ
  pub fetched_at_ms : ℕ

-- The clock when the call begins and when the answer is stored, and the answer that a fetch gets. A call
-- that joins a fetch in flight ends with what that fetch stores, so it is a call with its answer.
pub record Moment : Type 0 where
  pub now : ℕ
  pub stored_at : ℕ
  pub response : Response

-- `SAFE_DEFAULT_CEILING_USD`, in units of the last of eight decimal places.
abbrev pub safe_default_ceiling_usd : ℕ
safe_default_ceiling_usd = 1000 * 100000000

abbrev pub config_cache_ttl_ms : ℕ
config_cache_ttl_ms = 10000

-- `typeof v === 'object'`, without `null`.
abbrev is_object : Json → Bool
is_object (obj fs) = true
is_object (arr vs) = true
is_object _ = false

-- The precedence of the two ceilings.
unfoldable pub resolve : Environment → Option ℕ → Option CachedCeiling → Result ℕ
resolve env (some e) (some c) = ok (if leb e c.value then e else c.value)
resolve env (some e) none = ok e
resolve env none (some c) = ok c.value
resolve env none none =
    if env.production then err service_unavailable else ok safe_default_ceiling_usd

module _ (texts : Texts) where
  -- The body stays `null` where there is no text or none that can be parsed.
  body_of : String → Json
  body_of text =
      if str_eq text "" then null else elim (texts.json text) [ none ↦ null | some v ↦ v ]

  unfoldable pub fetch_json : Response → FetchJsonResult
  unfolding body_of
  fetch_json unanswered = record { is_ok = false; status = 0; body = null }
  fetch_json (answered good status text) = record {
    is_ok = good;
    status = status;
    body = body_of text;
  }

  positive : Option ℕ → Option ℕ
  positive none = none
  positive (some n) = if ltb 0 n then some n else none

  -- The ceiling in the text of the configuration.
  unfoldable pub ceiling_in : String → Option ℕ
  unfolding positive
  ceiling_in text = if str_eq text "" then none else elim (texts.json text) [
    | none ↦ none
    | some parsed ↦
        if is_object parsed
        then positive (as_number (prop "maxActiveCapitalUsd" (some parsed)))
        else none
  ]

  -- `parseResponse`.
  unfoldable pub parse_response : FetchJsonResult → Option ℕ
  unfolding ceiling_in
  parse_response res =
      if res.is_ok
      then (if is_object res.body
          then elim (as_string (prop "configValue" (some res.body))) [
            | none ↦ none
            | some text ↦ ceiling_in text
          ]
          else none)
      else none

  -- `parseEnvCeiling`.
  unfoldable pub parse_env_ceiling : Environment → Option ℕ
  unfolding positive
  parse_env_ceiling env = elim env.capital_max_active_usd [
    | none ↦ none
    | some raw ↦ if texts.blank raw then none else positive (texts.number raw)
  ]

  -- `refresh`.
  unfoldable pub refresh : Moment → Option CachedCeiling → Option CachedCeiling
  unfolding fetch_json parse_response
  refresh m cache = elim (parse_response (fetch_json m.response)) [
    | none ↦ cache
    | some value ↦ some (record { value = value; fetched_at_ms = m.stored_at })
  ]

  needs_refresh : ℕ → Option CachedCeiling → Bool
  needs_refresh now none = true
  needs_refresh now (some c) = ltb config_cache_ttl_ms (now - c.fetched_at_ms)

  pub refreshed : Moment → Option CachedCeiling → Option CachedCeiling
  unfolding refresh needs_refresh
  refreshed m cache = if needs_refresh m.now cache then refresh m cache else cache

  -- `getMaxActiveCapitalUsd`.
  unfoldable pub get_max_active_capital_usd :
      Environment → Moment → Option CachedCeiling → Result ℕ × Option CachedCeiling
  unfolding refreshed resolve parse_env_ceiling
  get_max_active_capital_usd env m cache =
      (resolve env (parse_env_ceiling env) (refreshed m cache), refreshed m cache)
