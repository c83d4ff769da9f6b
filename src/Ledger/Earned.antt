-- ===== src/Ledger/Earned.antt =====
-- An event never earns more than the tokens it saved.
use kry.Base.{
  ℕ, ◌≤◌, ◌≡◌, refl, sym, ◌∙◌, subst, arith, Bool, true, false, ◌&&◌, not, if◌then◌else◌, Option,
}
use kry.Base.Int.{ℤ, pos}
use kry.Base.Texts.{Text}
use kry.Base.Dicts.{lookup}
use kry.Base.Results.{Result, ok, err, value_error, raise_if, ◌>>◌, >>=-eq-ok}
use kry.Json.Values.{Json, float}
use kry.Double.{Double, is_finite, fin, le, lt, literal, IsDouble, zero_double}
use kry.Double.Order.{IsRepresentable}
use kry.Ledger.Shares.{
  IsShare, one-IsShare, shrunk, lookup-All, rates_shared, rate-IsShare,
  net_value_multiplier-IsShare,
}
use kry.Ledger.Prices.{
  finite_number, as_float, earn_rates, or_rate, net_value_multiplier, credited_kry, answered,
  earned_kry,
}

credited_kry-le :
    (lower : Text → Text) (a : ℕ) (event : Text) (avoided served : Option Text)
    → IsDouble (pos a)
    → (v : ℕ) × (credited_kry lower (fin (pos a)) event avoided served ≡ fin (pos v)) × (v ≤ a)
unfolding credited_kry
credited_kry-le lower a event avoided served exact =
    let rate = or_rate (literal 1 2) (lookup event earn_rates) in
    let (x, ex, lx) = shrunk a a rate exact (omega arith) (
      rate-IsShare (lookup event earn_rates)
        (λ d h. lookup-All IsShare event earn_rates d rates_shared h)) in
    let (y, ey, ly) = shrunk a x (literal 1 1) exact lx one-IsShare in
    let (z, ez, lz) =
      shrunk a y (net_value_multiplier lower avoided served) exact ly
        (net_value_multiplier-IsShare lower avoided served) in
    (z, rw (ex, ey) ez, lz)

checked : Double → Result Double
checked d = do
  raise_if (not (is_finite d)) value_error
  raise_if (true && lt d zero_double) value_error
  ok d

checked-ok : (x d : Double) → checked x ≡ ok d → (a : ℕ) × (d ≡ fin (pos a))
unfolding checked lt
checked-ok (fin (ℤ.pos a)) d h = (a, ground arith)
checked-ok (fin (ℤ.negsuc a)) d h = ground arith
checked-ok Double.inf d h = cc
checked-ok Double.minus_inf d h = cc
checked-ok Double.nan d h = cc

finite_number-nonnegative :
    (v : Json) (d : Double) → finite_number true v ≡ ok d → (a : ℕ) × (d ≡ fin (pos a))
unfolding finite_number checked
finite_number-nonnegative v d h =
    let (x, read, rest) = >>=-eq-ok (as_float v) checked h in checked-ok x d rest

zero-le : (t : ℕ) → le zero_double (fin (pos t)) ≡ true
unfolding le
zero-le t = ground arith

le-fin : (v t : ℕ) → v ≤ t → le (fin (pos v)) (fin (pos t)) ≡ true
unfolding le
le-fin v t h = ground arith

picked :
    (b : Bool) (d : Double) (v t : ℕ)
    → d ≡ fin (pos v)
    → v ≤ t
    → (le zero_double (if b then zero_double else d) ≡ true)
      × (le (if b then zero_double else d) (fin (pos t)) ≡ true)
picked true d v t e h = (zero-le 0, zero-le t)
picked false d v t e h = (rw e (zero-le v), rw e (le-fin v t h))

finite_number-same : (c d : Double) → finite_number false (float c) ≡ ok d → d ≡ c
unfolding finite_number as_float
finite_number-same c d h = ground arith

answered-le :
    (o : Result Double) (t : ℕ)
    → ((d : Double) → o ≡ ok d → (v : ℕ) × (d ≡ fin (pos v)) × (v ≤ t))
    → (le zero_double (answered o) ≡ true) × (le (answered o) (fin (pos t)) ≡ true)
unfolding answered le
answered-le (err x) t g = (refl, zero-le t)
answered-le (ok d) t g = let (v, e, small) = g d refl in picked (le d zero_double) d v t e small

-- What an event earns is between 0 and the tokens that it saved.
pub earned_kry-le :
    (lower : Text → Text) (tokens : Json) (event : Text) (avoided served : Option Text) (t : Double)
    → finite_number true tokens ≡ ok t
    → IsRepresentable t
    → (le zero_double (earned_kry lower tokens event avoided served) ≡ true)
      × (le (earned_kry lower tokens event avoided served) t ≡ true)
unfolding earned_kry
earned_kry-le lower tokens event avoided served t h exact =
    let (a, e) = finite_number-nonnegative tokens t h in
    let amount = λ (x : Double).
      answered (finite_number false (float (credited_kry lower x event avoided served))) in
    let bounds : (le zero_double (amount t) ≡ true) × (le (amount t) t ≡ true) =
      subst (λ x. (le zero_double (amount x) ≡ true) × (le (amount x) x ≡ true)) (sym e)
        (answered-le
          (finite_number false (float (credited_kry lower (fin (pos a)) event avoided served))) a
          (λ d k.
            let (v, value, small) =
              credited_kry-le lower a event avoided served (exact (pos a) e) in
            (
              v,
              finite_number-same (credited_kry lower (fin (pos a)) event avoided served) d k
                  ∙ value,
              small,
            ))) in
    rw h bounds
