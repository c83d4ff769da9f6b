-- ===== src/PromptCache/Summary.antt =====
-- The loop of `summarize`, before the figures are rounded and sorted for the report.
use kry.Base.{ℕ, ◌+◌, Bool, true, false, Option, none, some, List, [], ◌∷◌}
use kry.Base.Texts.{Text, codes}
use kry.Base.Dicts.{lookup, insert}
use kry.Python.{Value}
use kry.PromptCache.Valuation.{
  Usage, Priced, Valuation, priced, unpriced, modifier_excluded, malformed, value_record,
}

-- The tokens and dollars of some priced calls, and their number.
pub record Bucket : Type 0 where
  pub records : ℕ
  pub input : ℕ
  pub cache_read : ℕ
  pub cache_write_5m : ℕ
  pub cache_write_1h : ℕ
  pub without : ℕ
  pub actual : ℕ

abbrev pub empty_bucket : Bucket
empty_bucket = record {
  records = 0;
  input = 0;
  cache_read = 0;
  cache_write_5m = 0;
  cache_write_1h = 0;
  without = 0;
  actual = 0;
}

abbrev pub add_priced : Priced → Bucket → Bucket
add_priced p b = record {
  records = b.records + 1;
  input = b.input + p.input;
  cache_read = b.cache_read + p.cache_read;
  cache_write_5m = b.cache_write_5m + p.cache_write_5m;
  cache_write_1h = b.cache_write_1h + p.cache_write_1h;
  without = b.without + p.without_caching;
  actual = b.actual + p.actual;
}

-- `records`, `unpriced_models`, `by_model`, and `tokens` with `totals` and the count of priced records as
-- one bucket.
pub record Summary : Type 0 where
  pub unpriced_records : ℕ
  pub modifier_excluded_records : ℕ
  pub malformed_records : ℕ
  pub ttl_assumed_1h : ℕ
  pub unpriced_models : List (Text × ℕ)
  pub by_model : List (Text × Bucket)
  pub totals : Bucket

abbrev pub empty_summary : Summary
empty_summary = record {
  unpriced_records = 0;
  modifier_excluded_records = 0;
  malformed_records = 0;
  ttl_assumed_1h = 0;
  unpriced_models = [];
  by_model = [];
  totals = empty_bucket;
}

abbrev pub or_empty : Option Bucket → Bucket
or_empty none = empty_bucket
or_empty (some b) = b

abbrev pub or_zero : Option ℕ → ℕ
or_zero none = 0
or_zero (some n) = n

-- `result["model"] or "<no model>"`
abbrev pub model_name : Option Text → Text
model_name none = codes "<no model>"
model_name (some []) = codes "<no model>"
model_name (some (c ∷ m)) = c ∷ m

abbrev pub as_number : Bool → ℕ
as_number true = 1
as_number false = 0

-- `by_model.setdefault(...)`, and the additions to the entry.
unfoldable pub add_to_model : Text → Priced → List (Text × Bucket) → List (Text × Bucket)
unfolding lookup insert
add_to_model k p d = insert k (add_priced p (or_empty (lookup k d))) d

unfoldable pub add_valuation : Summary → Valuation → Summary
unfolding add_to_model
add_valuation s (priced k p) = record s {
  ttl_assumed_1h = s.ttl_assumed_1h + as_number p.ttl_assumed_1h;
  by_model = add_to_model k p s.by_model;
  totals = add_priced p s.totals;
}
add_valuation s (unpriced m) = record s {
  unpriced_records = s.unpriced_records + 1;
  unpriced_models =
      insert (model_name m) (or_zero (lookup (model_name m) s.unpriced_models) + 1)
        s.unpriced_models;
}
add_valuation s (modifier_excluded k) = record s {
  modifier_excluded_records = s.modifier_excluded_records + 1;
}
add_valuation s (malformed k) = record s { malformed_records = s.malformed_records + 1 }

unfoldable pub summarize_from : Summary → List (Value × Option Usage) → Summary
unfolding value_record
summarize_from s [] = s
summarize_from s ((model, usage) ∷ calls) =
    summarize_from (add_valuation s (value_record model usage)) calls

unfoldable pub summarize : List (Value × Option Usage) → Summary
unfolding summarize_from
summarize calls = summarize_from empty_summary calls
