-- ===== src/Sanctions/Bounds.antt =====
-- A reputation stays between 0 and 1.
use kry.Base.{ℕ, ◌-◌, ◌≤◌, ◌≡◌, ◌∙◌, arith, true, if◌then◌else◌}
use kry.Base.Int.{ℤ, pos}
use kry.Double.{Double, fin, le, lt, sub, one_units, IsDouble, zero_double}
use kry.Double.Order.{round_to-le, sub-pos, one_exact}
use kry.Sanctions.Store.{one_double}
use kry.Sanctions.Reputation.{clamp}

-- A double between 0.0 and 1.0.
pub record IsRate (d : Double) : Type 0 where
  pub units : ℕ
  pub equal : d ≡ fin (ℤ.pos units)
  pub bounded : units ≤ one_units
  pub exact : IsDouble (ℤ.pos units)

abbrev pub clamp_at : ℕ → Double → Double
unfolding lt
clamp_at top d =
    let m = if lt d (fin (pos top)) then d else fin (pos top) in
    if lt zero_double m then m else zero_double

clamp_at-bounds :
    (top : ℕ) (d : Double)
    → (le zero_double (clamp_at top d) ≡ true) × (le (clamp_at top d) (fin (pos top)) ≡ true)
unfolding le lt
clamp_at-bounds top (fin (ℤ.pos a)) = ground arith
clamp_at-bounds top (fin (ℤ.negsuc a)) = ground arith
clamp_at-bounds top Double.inf = ground arith
clamp_at-bounds top Double.minus_inf = ground arith
clamp_at-bounds top Double.nan = ground arith

pub clamp-bounds :
    (d : Double) → (le zero_double (clamp d) ≡ true) × (le (clamp d) one_double ≡ true)
unfolding clamp
clamp-bounds d = clamp_at-bounds one_units d

pub clamp_at-above :
    (top a z : ℕ) → a ≤ top → a ≤ z → le (fin (pos a)) (clamp_at top (fin (pos z))) ≡ true
unfolding le lt
clamp_at-above top a z h g = ground arith

pub clamp_at-below : (top a z : ℕ) → z ≤ a → le (clamp_at top (fin (pos z))) (fin (pos a)) ≡ true
unfolding le lt
clamp_at-below top a z h = ground arith

-- 1.0 - r
pub sub_one :
    (a : ℕ)
    → a ≤ one_units
    → (v : ℕ) × (sub one_double (fin (pos a)) ≡ fin (pos v)) × (v ≤ one_units)
sub_one a h =
    let (v, e, le) =
      round_to-le (one_units - a) one_units 1 (omega arith) (omega arith) one_exact in
    (v, sub-pos one_units a h ∙ e, le)
