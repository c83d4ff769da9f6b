-- ===== src/PromptCache/Totals.antt =====
-- The totals of `summarize` against its parts.
use kry.Base.{ℕ, ◌+◌, ◌≡◌, arith, List, [], ◌∷◌, Option, length}
use kry.Base.Texts.{Text}
use kry.Base.Dicts.{lookup, insert}
use kry.Python.{Value}
use kry.PromptCache.Valuation.{
  Usage, Priced, Valuation, priced, unpriced, modifier_excluded, malformed, value_record,
}
use kry.PromptCache.Summary.{
  Bucket, empty_bucket, add_priced, Summary, empty_summary, add_to_model, add_valuation,
  summarize_from, summarize,
}

-- One figure of the buckets, added up over the models.
unfoldable pub sum_by : (Bucket → ℕ) → List (Text × Bucket) → ℕ
sum_by f [] = 0
sum_by f ((k, b) ∷ d) = f b + sum_by f d

-- A figure that starts at 0, and to which a priced call adds a number of its own.
pub record IsFigure (f : Bucket → ℕ) (g : Priced → ℕ) : Type 0 where
  pub starts : f empty_bucket ≡ 0
  pub adds : (p : Priced) (b : Bucket) → f (add_priced p b) ≡ f b + g p

module _ (f : Bucket → ℕ) (g : Priced → ℕ) (figure : IsFigure f g) where
  sum_by-add_to_model :
      (k : Text) (p : Priced) (d : List (Text × Bucket))
      → sum_by f (add_to_model k p d) ≡ sum_by f d + g p
  unfolding sum_by add_to_model lookup insert
  sum_by-add_to_model k p [] = omega (arith, figure.starts, figure.adds p empty_bucket)
  sum_by-add_to_model k p ((j, b) ∷ d) = ground (arith, sum_by-add_to_model k p d, figure.adds p b)

  add_valuation-sum :
      (s : Summary) (v : Valuation)
      → f s.totals ≡ sum_by f s.by_model
      → f (add_valuation s v).totals ≡ sum_by f (add_valuation s v).by_model
  unfolding add_valuation
  add_valuation-sum s (priced k p) e =
      omega (arith, e, figure.adds p s.totals, sum_by-add_to_model k p s.by_model)
  add_valuation-sum s (unpriced m) e = e
  add_valuation-sum s (modifier_excluded k) e = e
  add_valuation-sum s (malformed k) e = e

  summarize_from-sum :
      (s : Summary) (calls : List (Value × Option Usage))
      → f s.totals ≡ sum_by f s.by_model
      → f (summarize_from s calls).totals ≡ sum_by f (summarize_from s calls).by_model
  unfolding summarize_from
  summarize_from-sum s [] e = e
  summarize_from-sum s ((m, u) ∷ calls) e =
      summarize_from-sum (add_valuation s (value_record m u)) calls
        (add_valuation-sum s (value_record m u) e)

  -- Any figure of the totals that grows by a number of each priced call is the sum of that figure over the
  -- models.
  pub summarize-sum :
      (calls : List (Value × Option Usage))
      → f (summarize calls).totals ≡ sum_by f (summarize calls).by_model
  unfolding summarize sum_by
  summarize-sum calls = summarize_from-sum empty_summary calls figure.starts

-- Every call that was counted, whatever came of it.
abbrev pub all_records : Summary → ℕ
all_records s =
    s.totals.records + s.unpriced_records + s.modifier_excluded_records + s.malformed_records

all_records-add_valuation :
    (s : Summary) (v : Valuation) → all_records (add_valuation s v) ≡ all_records s + 1
unfolding add_valuation
all_records-add_valuation s (priced k p) = omega arith
all_records-add_valuation s (unpriced m) = omega arith
all_records-add_valuation s (modifier_excluded k) = omega arith
all_records-add_valuation s (malformed k) = omega arith

all_records-from :
    (s : Summary) (calls : List (Value × Option Usage))
    → all_records (summarize_from s calls) ≡ all_records s + length calls
unfolding summarize_from
all_records-from s [] = omega arith
all_records-from s ((m, u) ∷ calls) = omega (
  arith,
  all_records-from (add_valuation s (value_record m u)) calls,
  all_records-add_valuation s (value_record m u),
)

-- The calls that are priced, unpriced, excluded and malformed add up to all the calls.
pub all_records-summarize :
    (calls : List (Value × Option Usage)) → all_records (summarize calls) ≡ length calls
unfolding summarize
all_records-summarize calls = omega (arith, all_records-from empty_summary calls)
