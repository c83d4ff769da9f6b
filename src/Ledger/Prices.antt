-- ===== src/Ledger/Prices.antt =====
-- The rate tables, the multiplier of a model, and the amounts that `earn` and `spend` start from.
use kry.Base.{
  ℕ, ◌==◌, Bool, true, false, ◌&&◌, ◌||◌, not, if◌then◌else◌, Option, none, some, List, [], ◌∷◌,
}
use kry.Base.Texts.{Text, codes, text_eq, mem_text}
use kry.Base.Dicts.{lookup}
use kry.Base.Results.{Result, ok, err, value_error, ◌>>=◌, ◌>>◌, raise_if}
use kry.Double.{Double, is_finite, of_int, lt, le, sub, literal, zero_double}
use kry.Double.Products.{mul, quotient}
use kry.Json.Values.{Json, int, float}

-- `float(value)` of a number that is no bool; an integer that overflows raises ValueError here.
unfoldable pub as_float : Json → Result Double
unfolding of_int
as_float (int n) = ok (of_int n)
as_float (float d) = ok d
as_float _ = err value_error

-- `_finite_number`
unfoldable pub finite_number : Bool → Json → Result Double
unfolding as_float lt
finite_number nonnegative v = do
  d ← as_float v
  raise_if (not (is_finite d)) value_error
  raise_if (nonnegative && lt d zero_double) value_error
  ok d

-- `_MODEL_OUTPUT_USD_PER_M`
unfoldable pub model_output_usd_per_m : List (Text × Double)
unfolding literal
model_output_usd_per_m =
    (codes "claude-fable-5", literal 50 1)
    ∷ (codes "claude-sonnet-5", literal 10 1)
    ∷ (codes "claude-sonnet-4-6", literal 15 1)
    ∷ (codes "claude-sonnet-4-5", literal 15 1)
    ∷ (codes "claude-haiku-4-5", literal 5 1)
    ∷ (codes "opus", literal 25 1)
    ∷ (codes "sonnet", literal 75 10)
    ∷ (codes "haiku", literal 125 100)
    ∷ (codes "gpt-5", literal 10 1)
    ∷ (codes "gpt-4o-mini", literal 60 100)
    ∷ (codes "gpt-4o", literal 10 1)
    ∷ (codes "deepseek-v4-pro", literal 110 100)
    ∷ (codes "deepseek", literal 55 100)
    ∷ (codes "qwen", literal 125 100)
    ∷ (codes "gemini", literal 0 1)
    ∷ []

abbrev pub free_prefixes : List Text
free_prefixes = codes "google" ∷ codes "groq" ∷ codes "nim" ∷ codes "local" ∷ codes "pool" ∷ []

abbrev pub model_namespaces : List Text
model_namespaces =
    codes "gh"
    ∷ codes "ghm"
    ∷ codes "or"
    ∷ codes "openrouter"
    ∷ codes "anthropic"
    ∷ codes "openai"
    ∷ codes "deepseek"
    ∷ codes "qwen"
    ∷ []

abbrev pub model_aliases : List (Text × Text)
model_aliases =
    (codes "claude-fable-5-1", codes "claude-fable-5")
    ∷ (codes "claude-opus", codes "opus")
    ∷ (codes "claude-opus-4", codes "opus")
    ∷ (codes "claude-opus-4-5", codes "opus")
    ∷ (codes "claude-opus-4-6", codes "opus")
    ∷ (codes "claude-opus-4-7", codes "opus")
    ∷ (codes "claude-opus-4-8", codes "opus")
    ∷ (codes "claude-opus-5", codes "opus")
    ∷ (codes "claude-opus-4-1-20250805", codes "opus")
    ∷ (codes "claude-opus-4-5-20251101", codes "opus")
    ∷ (codes "gpt-4o-2024-08-06", codes "gpt-4o")
    ∷ (codes "gpt-4o-2024-11-20", codes "gpt-4o")
    ∷ (codes "gpt-4o-mini-2024-07-18", codes "gpt-4o-mini")
    ∷ (codes "claude-sonnet", codes "sonnet")
    ∷ (codes "claude-sonnet-4-8", codes "sonnet")
    ∷ (codes "claude-sonnet-4-5-20250929", codes "claude-sonnet-4-5")
    ∷ (codes "claude-haiku", codes "haiku")
    ∷ (codes "claude-haiku-4-5-20251001", codes "claude-haiku-4-5")
    ∷ (codes "deepseek-v4-flash", codes "deepseek")
    ∷ (codes "deepseek-r1", codes "deepseek")
    ∷ (codes "qwen2-5:14b", codes "qwen")
    ∷ (codes "gemini-2-5-pro", codes "gemini")
    ∷ (codes "gemini-3-5-flash", codes "gemini")
    ∷ (codes "gemini-flash", codes "gemini")
    ∷ []

-- `EARN_RATES`
unfoldable pub earn_rates : List (Text × Double)
unfolding literal
earn_rates =
    (codes "cache_hit", literal 1 1)
    ∷ (codes "l3_semantic_match", literal 8 10)
    ∷ (codes "short_circuit", literal 1 1)
    ∷ (codes "compression", literal 6 10)
    ∷ (codes "feed_bag_deposit", literal 7 10)
    ∷ (codes "cache_creation", literal 0 1)
    ∷ (codes "continuity_capsule", literal 1 10)
    ∷ []

abbrev pub or_rate : Double → Option Double → Double
or_rate d none = d
or_rate d (some r) = r

abbrev pub or_text : Text → Option Text → Text
or_text s none = s
or_text s (some t) = t

-- The parts before the last, and the last, of `s.replace(".", "-").split("/")`.
abbrev pub dashed : ℕ → ℕ
dashed c = if c == b'.' then b'-' else c

abbrev pub grow : ℕ → List Text × Text → List Text × Text
grow c ([], last) = ([], c ∷ last)
grow c (p ∷ ps, last) = ((c ∷ p) ∷ ps, last)

unfoldable pub model_parts : Text → List Text × Text
model_parts [] = ([], [])
model_parts (c ∷ s) =
    let rest = model_parts s in if c == b'/' then ([] ∷ rest.0, rest.1) else grow (dashed c) rest

unfoldable pub any_part : (Text → Bool) → List Text → Bool
any_part p [] = false
any_part p (t ∷ ts) = p t || any_part p ts

-- `min(1.0, price / FRONTIER_USD_PER_M_OUTPUT)`
unfoldable pub frontier_share : Double → Double
unfolding quotient literal lt
frontier_share price =
    let share = quotient price (literal 25 1) in
    if lt share (literal 1 1) then share else literal 1 1

unfoldable pub share_of : Option Double → Option Double
unfolding frontier_share
share_of none = none
share_of (some price) = some (frontier_share price)

unfoldable pub is_unknown : Text → Bool
unfolding mem_text
is_unknown p = not (mem_text p model_namespaces) && not (mem_text p free_prefixes)

unfoldable pub is_free : Text → Bool
unfolding mem_text
is_free p = mem_text p free_prefixes

abbrev pub key_of : Text → Text
key_of last = or_text last (lookup last model_aliases)

unfoldable pub priced_parts : List Text × Text → Option Double
unfolding any_part is_unknown is_free share_of lookup model_output_usd_per_m text_eq
priced_parts (ps, last) =
    if any_part is_unknown ps
    then none
    else (if any_part is_free ps
        then some zero_double
        else share_of (lookup (key_of last) model_output_usd_per_m))

-- `max(0.0, vm - served)`
unfoldable pub net_of : Double → Double → Double
unfolding sub lt
net_of vm served = let d = sub vm served in if lt zero_double d then d else zero_double

unfoldable pub net_served : Double → Option Double → Double
unfolding net_of
net_served vm none = zero_double
net_served vm (some served) = net_of vm served

-- Of an amount that is refused or not positive, nothing.
unfoldable pub answered : Result Double → Double
unfolding le
answered (err x) = zero_double
answered (ok kry) = if le kry zero_double then zero_double else kry

-- `str.lower` is a parameter; a model is None or a text.
module _ (lower : Text → Text) where
  -- `_priced_multiplier`
  unfoldable pub priced_multiplier : Option Text → Option Double
  unfolding priced_parts model_parts literal
  priced_multiplier none = some (literal 1 1)
  priced_multiplier (some model) = priced_parts (model_parts (lower model))

  -- `value_multiplier`
  unfoldable pub value_multiplier : Option Text → Double
  unfolding priced_multiplier
  value_multiplier model = or_rate zero_double (priced_multiplier model)

  unfoldable pub net_priced : Option Double → Option Text → Double
  unfolding net_served priced_multiplier
  net_priced none served = zero_double
  net_priced (some vm) none = vm
  net_priced (some vm) (some served) = net_served vm (priced_multiplier (some served))

  unfoldable pub net_value_multiplier : Option Text → Option Text → Double
  unfolding net_priced priced_multiplier
  net_value_multiplier avoided served = net_priced (priced_multiplier avoided) served

  -- tokens * EARN_RATES.get(event_type, 0.5) * KRY_PER_FUEL_TOKEN * net_value_multiplier(...)
  unfoldable pub credited_kry : Double → Text → Option Text → Option Text → Double
  unfolding mul earn_rates lookup net_value_multiplier literal
  credited_kry tokens event avoided served =
      mul (mul (mul tokens (or_rate (literal 1 2) (lookup event earn_rates))) (literal 1 1))
        (net_value_multiplier avoided served)

  -- What `earn` credits, before it turns to the ledger; 0.0 stands for no event.
  unfoldable pub earned_kry : Json → Text → Option Text → Option Text → Double
  unfolding finite_number credited_kry answered
  earned_kry tokens event avoided served = answered (do
    t ← finite_number true tokens
    finite_number false (float (credited_kry t event avoided served)))
