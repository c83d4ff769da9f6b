-- ===== src/Sanctions/Economics.antt =====
-- The honesty condition h * (1 + λ) ≥ 1, and the two-signal rule.
use kry.Base.{Bool, if◌then◌else◌, none, some}
use kry.Base.Results.{Result, ok, ◌>>=◌}
use kry.Double.{Double, inf, zero_double, add, sub, lt, le}
use kry.Double.Products.{mul, quotient, round_decimals}
use kry.Json.Values.{Json}
use kry.Sanctions.Store.{finite_number, rate, one_double}

unfoldable pub min_audit_rate : Json → Result Double
unfolding finite_number add quotient
min_audit_rate penalty_lambda = do
  l ← finite_number (some zero_double) none penalty_lambda
  ok (quotient one_double (add one_double l))

unfoldable pub min_penalty : Json → Result Double
unfolding finite_number sub quotient le
min_penalty audit_rate = do
  h ← rate audit_rate
  ok (if le h zero_double then inf else quotient (sub one_double h) h)

pub record Stability : Type 0 where
  pub audit_rate : Double
  pub penalty_lambda : Double
  pub stability_score : Double
  pub honesty_stable : Bool
  pub margin : Double

abbrev pub stability : Double → Double → Double → Stability
stability h l score = record {
  audit_rate = h;
  penalty_lambda = l;
  stability_score = round_decimals 4 score;
  honesty_stable = le one_double score;
  margin = round_decimals 4 (sub score one_double);
}

unfoldable pub honesty_is_stable : Json → Json → Result Stability
unfolding finite_number add mul sub round_decimals le
honesty_is_stable audit_rate penalty_lambda = do
  h ← rate audit_rate
  l ← finite_number (some zero_double) none penalty_lambda
  ok (stability h l (mul h (add one_double l)))

pub record Trust : Type 0 where
  pub trusted_kry : Double
  pub anergic_kry : Double
  pub trust_fraction : Double

unfoldable pub two_signal_trust : Json → Json → Result Trust
unfolding finite_number add quotient round_decimals lt
two_signal_trust self_reported_kry anchored_kry = do
  s ← finite_number (some zero_double) none self_reported_kry
  a ← finite_number (some zero_double) none anchored_kry
  ok (record {
    trusted_kry = round_decimals 4 a;
    anergic_kry = round_decimals 4 s;
    trust_fraction =
        if lt zero_double (add s a) then round_decimals 4 (quotient a (add s a)) else zero_double;
  })
