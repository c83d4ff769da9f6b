-- ===== src/PromptCache/Valuation.antt =====
-- `value_record` and what it calls: one provider call is priced, or put aside with a reason.
use kry.Base.{
  ℕ, ◌+◌, ◌-◌, ◌*◌, Bool, true, false, ◌&&◌, ◌||◌, not, ltb, ◌==◌, if◌then◌else◌, Option, none,
  some, List,
}
use kry.Base.Int.{ℤ, pos, neg, ◌+ℤ◌}
use kry.Base.Texts.{Text, codes, text_eq, mem_text}
use kry.Base.Dicts.{lookup}
use kry.Python.{Value, none_value, int, str}
use kry.PromptCache.Prices.{
  Prices, anthropic_prices, aliases, OpenaiPrices, openai_prices, no_stated_long_context_rate,
}

-- A value of the usage object: another object, or anything else.
pub data Item : Type 0 where
  nested : List (Text × Value) → Item
  plain : Value → Item

abbrev pub Usage : Type 0
Usage = List (Text × Item)

pub record Priced : Type 0 where
  pub input : ℕ
  pub cache_read : ℕ
  pub cache_write_5m : ℕ
  pub cache_write_1h : ℕ
  pub ttl_assumed_1h : Bool
  pub without_caching : ℕ
  pub actual : ℕ
  pub saving : ℤ

-- The four statuses, each with its model.
pub data Valuation : Type 0 where
  priced : Text → Priced → Valuation
  unpriced : Option Text → Valuation
  modifier_excluded : Text → Valuation
  malformed : Text → Valuation

unfoldable pub count : Value → Option ℕ
count (int (pos n)) = some n
count _ = none

abbrev pub or_count : ℕ → Option Value → Option ℕ
or_count n none = some n
or_count n (some v) = count v

abbrev pub count_item : Item → Option ℕ
count_item (plain v) = count v
count_item (nested d) = none

-- `_count(usage.get(field, 0))`
abbrev pub or_count_item : Option Item → Option ℕ
or_count_item none = some 0
or_count_item (some i) = count_item i

abbrev pub is_absent : Option Item → Bool
is_absent none = true
is_absent (some (plain none_value)) = true
is_absent _ = false

abbrev pub is_item : Text → Option Item → Bool
is_item s (some (plain (str t))) = text_eq t s
is_item s _ = false

abbrev pub or_same : Text → Option Text → Text
or_same m none = m
or_same m (some k) = k

abbrev pub key_if {ℓ} : {A : Type ℓ} → Text → Option A → Option (Text × A)
key_if k none = none
key_if k (some p) = some (k, p)

-- The key, with its row of the table.
unfoldable pub model_key : Value → Option (Text × Prices)
unfolding aliases anthropic_prices lookup
model_key (str m) = let k = or_same m (lookup m aliases) in key_if k (lookup k anthropic_prices)
model_key _ = none

unfoldable pub openai_key : Value → Option (Text × OpenaiPrices)
unfolding openai_prices lookup
openai_key (str m) = key_if m (lookup m openai_prices)
openai_key _ = none

abbrev pub minus : ℕ → ℕ → ℤ
minus a b = pos a +ℤ neg (pos b)

-- The prices of the four classes of tokens, with what they would cost uncached.
unfoldable pub price_anthropic : Text → Prices → ℕ → ℕ → ℕ → Option (ℕ × ℕ × Bool) → Valuation
price_anthropic key p uncached read write none = malformed key
price_anthropic key p uncached read write (some (write_5m, write_1h, assumed)) =
    let without = (uncached + read + write) * p.base in
    let actual =
      uncached * p.base + read * p.read + write_5m * p.write_5m + write_1h * p.write_1h in
    priced key (record {
      input = uncached;
      cache_read = read;
      cache_write_5m = write_5m;
      cache_write_1h = write_1h;
      ttl_assumed_1h = assumed;
      without_caching = without;
      actual = actual;
      saving = minus without actual;
    })

abbrev pub split_sum : ℕ → Option ℕ → Option ℕ → Option (ℕ × ℕ × Bool)
split_sum write (some a) (some b) = if a + b == write then some (a, b, false) else none
split_sum write _ _ = none

abbrev pub has_either : Option Value → Option Value → Bool
has_either none none = false
has_either _ _ = true

abbrev pub assumed_1h : ℕ → Option (ℕ × ℕ × Bool)
assumed_1h write = some (0, write, ltb 0 write)

-- The split of the writes by time to live: stated, or all at the 1-hour rate.
unfoldable pub split_of : ℕ → Option Item → Option (ℕ × ℕ × Bool)
unfolding lookup count
split_of write (some (nested d)) =
    let a = lookup (codes "ephemeral_5m_input_tokens") d in
    let b = lookup (codes "ephemeral_1h_input_tokens") d in
    if has_either a b then split_sum write (or_count 0 a) (or_count 0 b) else assumed_1h write
split_of write _ = assumed_1h write

-- `_beyond_stated_context`: a stated window decides, else the tokens of the call.
unfoldable pub beyond_stated_context : Option Item → ℕ → Bool
beyond_stated_context none n = ltb 200000 n
beyond_stated_context window n = not (is_item (codes "0-200k") window)

unfoldable pub value_counts : Text → Prices → Usage → Option ℕ → Option ℕ → Option ℕ → Valuation
unfolding price_anthropic split_of lookup mem_text beyond_stated_context
value_counts key p u (some uncached) (some read) (some write) =
    if mem_text key no_stated_long_context_rate
      && beyond_stated_context (lookup (codes "context_window") u) (uncached + read + write)
    then modifier_excluded key
    else price_anthropic key p uncached read write
        (split_of write (lookup (codes "cache_creation") u))
value_counts key p u _ _ _ = malformed key

abbrev pub is_modified : Usage → Bool
is_modified u =
    (not (is_absent (lookup (codes "service_tier") u))
      && not (is_item (codes "standard") (lookup (codes "service_tier") u)))
    || is_item (codes "fast") (lookup (codes "speed") u)
    || is_item (codes "us") (lookup (codes "inference_geo") u)

abbrev pub is_some {ℓ} : {A : Type ℓ} → Option A → Bool
is_some none = false
is_some (some a) = true

-- `none` is a usage that is no object.
unfoldable pub value_anthropic : Text → Prices → Option Usage → Valuation
unfolding value_counts
value_anthropic key p none = malformed key
value_anthropic key p (some u) =
    if is_some (lookup (codes "input_tokens") u)
    then (if is_modified u
        then modifier_excluded key
        else value_counts key p u (or_count_item (lookup (codes "input_tokens") u))
            (or_count_item (lookup (codes "cache_read_input_tokens") u))
            (or_count_item (lookup (codes "cache_creation_input_tokens") u)))
    else malformed key

-- `input_tokens` holds the cached and the written tokens.
unfoldable pub price_openai : Text → OpenaiPrices → Option ℕ → Option ℕ → Option ℕ → Valuation
price_openai key p (some total) (some cached) (some write) =
    if ltb total (cached + write)
    then malformed key
    else let uncached = total - cached - write in
      let without = total * p.base in
      let actual = uncached * p.base + cached * p.cached + write * p.write in
      priced key (record {
        input = uncached;
        cache_read = cached;
        cache_write_5m = write;
        cache_write_1h = 0;
        ttl_assumed_1h = false;
        without_caching = without;
        actual = actual;
        saving = minus without actual;
      })
price_openai key p _ _ _ = malformed key

-- `usage.get(k, usage.get(j))`
abbrev pub or_else : Option Item → Option Item → Option Item
or_else none j = j
or_else k j = k

abbrev pub count_present : Option Item → Option ℕ
count_present none = none
count_present (some i) = count_item i

unfoldable pub value_details : Text → OpenaiPrices → Option ℕ → Option Item → Valuation
unfolding price_openai lookup count
value_details key p total none = price_openai key p total (some 0) (some 0)
value_details key p total (some (nested d)) =
    price_openai key p total (or_count 0 (lookup (codes "cached_tokens") d))
      (or_count 0 (lookup (codes "cache_write_tokens") d))
value_details key p total (some (plain v)) = malformed key

unfoldable pub value_openai : Text → OpenaiPrices → Option Usage → Valuation
unfolding value_details
value_openai key p none = malformed key
value_openai key p (some u) =
    if not (is_absent (lookup (codes "service_tier") u))
      && not (is_item (codes "default") (lookup (codes "service_tier") u))
    then modifier_excluded key
    else value_details key p
        (count_present
          (or_else (lookup (codes "input_tokens") u) (lookup (codes "prompt_tokens") u)))
        (or_else (lookup (codes "input_tokens_details") u)
          (lookup (codes "prompt_tokens_details") u))

abbrev pub named : Value → Option Text
named (str m) = some m
named _ = none

unfoldable pub value_keyed :
    Value → Option Usage → Option (Text × Prices) → Option (Text × OpenaiPrices) → Valuation
unfolding value_anthropic value_openai
value_keyed model u (some (key, p)) o = value_anthropic key p u
value_keyed model u none (some (key, p)) = value_openai key p u
value_keyed model u none none = unpriced (named model)

unfoldable pub value_record : Value → Option Usage → Valuation
unfolding value_keyed model_key openai_key
value_record model u = value_keyed model u (model_key model) (openai_key model)
