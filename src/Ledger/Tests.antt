-- ===== src/Ledger/Tests.antt =====
-- An event that avoids a frontier call, and one that a paid model served.
use kry.Base.{◌≡◌, refl, subst, true, none, some}
use kry.Base.Int.{ℤ, pos}
use kry.Base.Texts.{Text, codes, text_eq}
use kry.Base.Dicts.{lookup}
use kry.Base.Results.{ok}
use kry.Double.{fin, le, lt, literal, of_int, round_to, IsDouble, zero_double, add, sub}
use kry.Double.Products.{mul, quotient}
use kry.Double.Order.{IsRepresentable}
use kry.Json.Values.{int}
use kry.Ledger.Prices.{finite_number, earned_kry, net_value_multiplier}
use kry.Ledger.Cost.{spend_rates, by_length, first_match, spend_cost}
use kry.Ledger.Longest.{IsLongest, first_match-IsLongest}
use kry.Ledger.Earned.{earned_kry-le}

abbrev same_text : Text → Text
same_text s = s

deepseek_net :
    net_value_multiplier same_text
      (some (codes "or/anthropic/claude-opus-4.8"))
      (some (codes "deepseek-v4-pro"))
    ≡ literal 956 1000
unfolding net_value_multiplier text_eq lookup literal quotient sub add lt
deepseek_net = refl

cache_hit :
    earned_kry same_text (int (pos 1000)) (codes "cache_hit") (some (codes "haiku")) none
    ≡ literal 50 1
unfolding earned_kry net_value_multiplier text_eq lookup literal quotient sub add lt le mul
    finite_number
cache_hit = refl

thousand : finite_number true (int (pos 1000)) ≡ ok (literal 1000 1)
unfolding finite_number literal lt of_int
thousand = refl

fin-injective : {a b : ℤ} → fin a ≡ fin b → a ≡ b
fin-injective e = cc

thousand-IsRepresentable : IsRepresentable (literal 1000 1)
unfolding literal round_to
thousand-IsRepresentable a e = subst IsDouble (fin-injective e) refl

earned_kry-le_example :
    (le zero_double
        (earned_kry same_text (int (pos 1000)) (codes "cache_hit") (some (codes "haiku")) none)
      ≡ true)
    × (le
          (earned_kry same_text (int (pos 1000)) (codes "cache_hit") (some (codes "haiku")) none)
          (literal 1000 1)
        ≡ true)
earned_kry-le_example =
    earned_kry-le same_text (int (pos 1000)) (codes "cache_hit") (some (codes "haiku")) none
      (literal 1000 1) thousand thousand-IsRepresentable

abbrev fast : Text
fast = codes "or/anthropic/claude-opus-4.8-fast"

fast_cost : spend_cost fast (int (pos 1000)) ≡ ok (literal 2000 1)
unfolding spend_cost text_eq literal quotient mul lt finite_number
fast_cost = refl

first_match-IsLongest_example :
    IsLongest fast spend_rates (first_match fast (by_length spend_rates))
first_match-IsLongest_example = first_match-IsLongest fast spend_rates
