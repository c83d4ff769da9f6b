-- ===== src/Ledger/Cost.antt =====
-- `spend_cost`: the most specific prefix of the rate table decides.
use kry.Base.{
  leb, ◌==◌, Bool, true, false, ◌&&◌, if◌then◌else◌, Option, none, some, List, [], ◌∷◌, length,
}
use kry.Base.Texts.{Text, codes, text_eq, mem_text}
use kry.Base.Results.{Result, ok, ◌>>=◌}
use kry.Double.{Double, literal, zero_double}
use kry.Double.Products.{mul, quotient}
use kry.Json.Values.{Json, float}
use kry.Ledger.Prices.{finite_number, free_prefixes}

-- `SPEND_RATES`
unfoldable pub spend_rates : List (Text × Double)
unfolding literal
spend_rates =
    (codes "google", literal 0 1)
    ∷ (codes "groq", literal 0 1)
    ∷ (codes "nim", literal 0 1)
    ∷ (codes "local", literal 0 1)
    ∷ (codes "pool", literal 0 1)
    ∷ (codes "or/anthropic/claude-opus-4.8", literal 1000 1)
    ∷ (codes "or/anthropic/claude-opus-4.8-fast", literal 2000 1)
    ∷ (codes "or/anthropic/claude-opus-4.7-fast", literal 6000 1)
    ∷ (codes "or/deepseek/deepseek-v4-pro", literal 44 1)
    ∷ (codes "or/deepseek/deepseek-v4-flash", literal 11 1)
    ∷ (codes "or/deepseek/deepseek-r1", literal 88 1)
    ∷ (codes "or/qwen/qwen3.7-max", literal 150 1)
    ∷ (codes "fireworks/deepseek-v4-pro", literal 44 1)
    ∷ (codes "gh", literal 500 1)
    ∷ (codes "ghm", literal 5 1)
    ∷ []

-- `s.startswith(p)`, which covers `s == p`.
unfoldable pub starts_with : Text → Text → Bool
starts_with [] s = true
starts_with (c ∷ p) [] = false
starts_with (c ∷ p) (d ∷ s) = c == d && starts_with p s

-- `sorted(SPEND_RATES, key=len, reverse=True)`, which keeps the order of equal lengths.
unfoldable pub put_by_length : Text × Double → List (Text × Double) → List (Text × Double)
put_by_length x [] = x ∷ []
put_by_length x (y ∷ ys) =
    let rest = put_by_length x ys in if leb (length y.0) (length x.0) then x ∷ y ∷ ys else y ∷ rest

unfoldable pub by_length : List (Text × Double) → List (Text × Double)
unfolding put_by_length
by_length [] = []
by_length (x ∷ xs) = put_by_length x (by_length xs)

-- The loop: the first prefix that the model starts with.
unfoldable pub first_match : Text → List (Text × Double) → Option (Text × Double)
unfolding starts_with
first_match model [] = none
first_match model (x ∷ xs) =
    let rest = first_match model xs in if starts_with x.0 model then some x else rest

-- (rate / 1000) * output_tokens
abbrev pub scaled_cost : Double → Double → Result Double
scaled_cost rate tokens = finite_number true (float (mul (quotient rate (literal 1000 1)) tokens))

unfoldable pub cost_of : Option (Text × Double) → Double → Result Double
unfolding finite_number mul quotient literal text_eq mem_text
cost_of none tokens = scaled_cost (literal 1000 1) tokens
cost_of (some (prefix, rate)) tokens =
    if mem_text prefix free_prefixes
    then ok zero_double
    else (if text_eq prefix (codes "gh") then ok rate else scaled_cost rate tokens)

unfoldable pub spend_cost : Text → Json → Result Double
unfolding finite_number cost_of first_match by_length spend_rates
spend_cost model output_tokens = do
  tokens ← finite_number true output_tokens
  cost_of (first_match model (by_length spend_rates)) tokens
