-- ===== src/Legs/Playbook.antt =====
-- What legs.service.ts, venue-factory.service.ts and multi-leg-plan-builder.service.ts read from
-- `plan.playbookConfig`, and EXECUTION_BEGIN_LEG_COUNT.
use Prim.Native.Char.{code}
use arbibot.Base.{
  ℕ, ◌+◌, ◌-◌, ◌*◌, String, Bool, false, ◌&&◌, ◌||◌, Option, none, some, List, [], ◌∷◌, leb, ltb,
  ◌==◌, includes, non_empty, trim, concat, if◌then◌else◌,
}
use arbibot.Json.{Json, Items, get_item, prop, as_array, as_string, as_number}
use arbibot.Store.Types.{Plan}

-- `v[i]` where `Array.isArray(v)`.
unfoldable pub entry_at : ℕ → Option Json → Option Json
unfolding as_array get_item
entry_at i v = elim (as_array v) [ none ↦ none | some items ↦ get_item i items ]

-- `typeof v === 'string' && v.length > 0`, with the text.
unfoldable pub filled_text : Option Json → Option String
unfolding as_string non_empty
filled_text v = elim (as_string v) [ none ↦ none | some s ↦ if non_empty s then some s else none ]

abbrev pub or_else {ℓ} : {A : Type ℓ} → Option A → Option A → Option A
or_else none b = b
or_else (some a) b = some a

-- `extractVenueKey`: the entry of `legs`, else the entry of `dexSwaps`, else the plan's default.
unfoldable pub extract_venue_key : Option Json → ℕ → Option String
unfolding entry_at filled_text prop
extract_venue_key config i =
    or_else (filled_text (prop "venueKey" (entry_at i (prop "legs" config)))) (
      or_else (filled_text (prop "venueKey" (entry_at i (prop "dexSwaps" config))))
        (filled_text (prop "venueKey" config)))

-- `DEX_VENUE_KEYS`.
abbrev pub dex_venue_keys : List String
dex_venue_keys = "uniswap-v2" ∷ "uniswap-v3" ∷ "sushiswap" ∷ "pancakeswap-v2" ∷ "biswap" ∷ []

unfoldable pub is_live_venue_key : Option String → Bool
unfolding includes
is_live_venue_key none = false
is_live_venue_key (some k) = includes k dex_venue_keys

-- `readLegTokenIn`.
unfoldable pub read_leg_token_in : Option Json → ℕ → Option String
unfolding entry_at filled_text prop
read_leg_token_in config i = filled_text (prop "tokenIn" (entry_at i (prop "legs" config)))

-- `parsePlaybookConfig`, with the `legs` of the config.
unfoldable pub parse_playbook_config : Option Json → Option Items
unfolding as_number prop as_array
parse_playbook_config config = elim (as_number (prop "schemaVersion" config)) [
  | none ↦ none
  | some n ↦ if n == 1 then as_array (prop "legs" config) else none
]

-- `resolveInstrumentKeyForPlan`.
unfoldable pub resolve_instrument_key : Plan → String
unfolding non_empty trim concat
resolve_instrument_key plan =
    let by_plan : String = concat "arb:execution-plan:" plan.id in
    let by_risk : String = elim plan.risk_decision_id [
      | none ↦ by_plan
      | some d ↦ if non_empty d then concat "arb:risk-decision:" d else by_plan
    ] in
    elim plan.route_key [ none ↦ by_risk | some k ↦ if non_empty (trim k) then trim k else by_risk ]

is_digit : ℕ → Bool
is_digit c = leb b'0' c && leb c b'9'

-- The digits at the front of a text, after those read so far; `none` if there are none at all.
leading_digits : Option ℕ → String → Option ℕ
unfolding is_digit
leading_digits read String.[] = read
leading_digits read (String.◌∷◌ c s) =
    let rest =
      leading_digits (some (elim read [ none ↦ 0 | some n ↦ n ] * 10 + (code c - b'0'))) s in
    if is_digit (code c) then rest else read

-- `Number.parseInt(raw, 10)` of a trimmed text. A negative number is `none`: the caller refuses both.
parse_natural : String → Option ℕ
unfolding leading_digits
parse_natural String.[] = none
parse_natural (String.◌∷◌ c s) =
    if code c == b'+' then leading_digits none s else leading_digits none (String.◌∷◌ c s)

-- `readBeginLegCount` of the value of EXECUTION_BEGIN_LEG_COUNT.
unfoldable pub read_begin_leg_count : Option String → ℕ
unfolding parse_natural trim
read_begin_leg_count none = 1
read_begin_leg_count (some raw) = elim (parse_natural (trim raw)) [
  | none ↦ 1
  | some n ↦ if ltb n 1 || ltb 16 n then 1 else n
]
