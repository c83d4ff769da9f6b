-- ===== src/PromptCache/Tests.antt =====
-- A call with cache writes, with and without their split, and a summary of it.
use kry.Base.{ℕ, ◌≡◌, refl, Bool, true, false, none, some, Option, List, [], ◌∷◌}
use kry.Base.Int.{pos}
use kry.Base.Texts.{Text, codes, text_eq, mem_text}
use kry.Base.Dicts.{lookup, insert}
use kry.Python.{Value, int, str}
use kry.PromptCache.Prices.{anthropic_prices, aliases, no_stated_long_context_rate, openai_prices}
use kry.PromptCache.Valuation.{
  Item, plain, Usage, Priced, priced, minus, value_record, value_anthropic, value_counts,
  price_anthropic, split_of, count, beyond_stated_context, model_key, value_keyed, openai_key,
  value_openai, value_details, price_openai,
}
use kry.PromptCache.Understated.{cache_creation, with_split, IsAtMost, value_record-understated}
use kry.PromptCache.Summary.{summarize}
use kry.PromptCache.Totals.{sum_by, IsFigure, summarize-sum, all_records, all_records-summarize}

abbrev tokens : ℕ → Item
tokens n = plain (int (pos n))

abbrev opus_model : Value
opus_model = str (codes "claude-opus-5")

abbrev unsplit_usage : Usage
unsplit_usage =
    (codes "input_tokens", tokens 100)
    ∷ (codes "cache_read_input_tokens", tokens 1000)
    ∷ (codes "cache_creation_input_tokens", tokens 40)
    ∷ []

abbrev five_minutes : List (Text × Value)
five_minutes = (codes "ephemeral_5m_input_tokens", int (pos 40)) ∷ []

abbrev opus_valuation : ℕ → ℕ → Bool → ℕ → Priced
opus_valuation a b assumed actual = record {
  input = 100;
  cache_read = 1000;
  cache_write_5m = a;
  cache_write_1h = b;
  ttl_assumed_1h = assumed;
  without_caching = 5700000;
  actual = actual;
  saving = minus 5700000 actual;
}

evaluated : ℕ
unfolding value_record value_keyed value_anthropic value_counts price_anthropic split_of count
    beyond_stated_context model_key anthropic_prices aliases no_stated_long_context_rate lookup
    insert text_eq mem_text openai_key openai_prices value_openai value_details price_openai
evaluated = 0

without_split :
    value_record opus_model (some unsplit_usage)
    ≡ priced (codes "claude-opus-5") (opus_valuation 0 40 true 1400000)
unfolding evaluated
without_split = refl

split_stated :
    value_record opus_model (some (with_split five_minutes unsplit_usage))
    ≡ priced (codes "claude-opus-5") (opus_valuation 40 0 false 1250000)
unfolding evaluated
split_stated = refl

no_split : lookup cache_creation unsplit_usage ≡ none
unfolding evaluated
no_split = refl

value_record-understated_example :
    IsAtMost (opus_valuation 0 40 true 1400000) (opus_valuation 40 0 false 1250000)
value_record-understated_example =
    value_record-understated opus_model unsplit_usage five_minutes (codes "claude-opus-5")
      (codes "claude-opus-5") (opus_valuation 0 40 true 1400000) (opus_valuation 40 0 false 1250000)
      no_split without_split split_stated

abbrev three_calls : List (Value × Option Usage)
three_calls =
    (opus_model, some unsplit_usage)
    ∷ (str (codes "gpt-2"), none)
    ∷ (opus_model, some (with_split five_minutes unsplit_usage))
    ∷ []

actual-IsFigure : IsFigure (λ b. b.actual) (λ p. p.actual)
actual-IsFigure = record { starts = refl; adds = λ p b. refl }

summarize-sum_example :
    (summarize three_calls).totals.actual ≡ sum_by (λ b. b.actual) (summarize three_calls).by_model
summarize-sum_example = summarize-sum (λ b. b.actual) (λ p. p.actual) actual-IsFigure three_calls

all_records-summarize_example : all_records (summarize three_calls) ≡ 3
all_records-summarize_example = all_records-summarize three_calls
