-- ===== src/PromptCache/Prices.antt =====
-- The price tables of kry_prompt_cache.  A price in dollars per million tokens has at most three decimals,
-- so a thousandth of it is a whole number of nanodollars per token, and every amount is one of nanodollars.
-- Python's Decimal is exact up to 28 digits, more than any count of tokens below 10 ^ 22 can need.
use kry.Base.{ℕ, List, [], ◌∷◌}
use kry.Base.Texts.{Text, codes}

-- `_ANTHROPIC_PRICES`, by row: base input, 5-minute write, 1-hour write, cache read, output.
pub record Prices : Type 0 where
  pub base : ℕ
  pub write_5m : ℕ
  pub write_1h : ℕ
  pub read : ℕ
  pub output : ℕ

abbrev pub row : ℕ → ℕ → ℕ → ℕ → ℕ → Prices
row a b c d e = record { base = a; write_5m = b; write_1h = c; read = d; output = e }

abbrev pub opus : Prices
opus = row 5000 6250 10000 500 25000

unfoldable pub anthropic_prices : List (Text × Prices)
anthropic_prices =
    (codes "claude-fable-5-1", row 10000 12500 20000 250 50000)
    ∷ (codes "claude-fable-5", row 10000 12500 20000 1000 50000)
    ∷ (codes "claude-opus-5", opus)
    ∷ (codes "claude-opus-4-8", opus)
    ∷ (codes "claude-opus-4-7", opus)
    ∷ (codes "claude-opus-4-6", opus)
    ∷ (codes "claude-opus-4-5", opus)
    ∷ (codes "claude-sonnet-5", row 2000 2500 4000 200 10000)
    ∷ (codes "claude-sonnet-4-6", row 3000 3750 6000 300 15000)
    ∷ (codes "claude-sonnet-4-5", row 3000 3750 6000 300 15000)
    ∷ (codes "claude-haiku-4-5", row 1000 1250 2000 100 5000)
    ∷ []

unfoldable pub aliases : List (Text × Text)
aliases = (codes "claude-haiku-4-5-20251001", codes "claude-haiku-4-5") ∷ []

-- `_OPENAI_PRICES`, by row: base input, cached input, cache write, output.
pub record OpenaiPrices : Type 0 where
  pub base : ℕ
  pub cached : ℕ
  pub write : ℕ
  pub output : ℕ

abbrev pub openai_row : ℕ → ℕ → ℕ → ℕ → OpenaiPrices
openai_row a b c d = record { base = a; cached = b; write = c; output = d }

unfoldable pub openai_prices : List (Text × OpenaiPrices)
openai_prices =
    (codes "gpt-6-astra", openai_row 10000 1000 12500 50000)
    ∷ (codes "gpt-5.6-sol", openai_row 4000 400 5000 20000)
    ∷ (codes "gpt-5.6-terra", openai_row 2000 200 2500 12000)
    ∷ (codes "gpt-5.6-luna", openai_row 200 20 250 1200)
    ∷ (codes "gpt-5.6-cyber", openai_row 12500 1250 15625 75000)
    ∷ []

unfoldable pub no_stated_long_context_rate : List Text
no_stated_long_context_rate =
    codes "claude-opus-4-5" ∷ codes "claude-sonnet-4-5" ∷ codes "claude-haiku-4-5" ∷ []
