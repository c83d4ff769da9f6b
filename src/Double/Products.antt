-- ===== src/Double/Products.antt =====
-- Products, quotients and decimal rounding of doubles, and the fractions of counts.
use kry.Base.{
  ℕ, ◌+◌, ◌*◌, ◌/◌, ◌%◌, ◌^◌, ◌≡◌, refl, Bool, true, false, ◌&&◌, ◌||◌, ltb, ◌==◌, if◌then◌else◌,
}
use kry.Base.Int.{ℤ, pos, pos_part, neg_part, neg, ltb_ℤ}
use kry.Double.{Double, fin, inf, minus_inf, nan, round_to, one_units, literal}

abbrev pub magnitude : ℤ → ℕ
magnitude a = pos_part a + neg_part a

abbrev pub is_negative : ℤ → Bool
is_negative a = ltb_ℤ a (pos 0)

abbrev pub signed : Bool → ℕ → ℤ
signed true n = neg (pos n)
signed false n = pos n

abbrev pub differ : Bool → Bool → Bool
differ true b = if b then false else true
differ false b = b

abbrev signed_inf : Bool → Double
signed_inf true = minus_inf
signed_inf false = inf

-- An infinity with the sign of the product.
abbrev inf_times : Bool → ℤ → Double
inf_times negative a =
    if magnitude a == 0 then nan else signed_inf (differ negative (is_negative a))

unfoldable pub mul : Double → Double → Double
unfolding round_to
mul (fin a) (fin b) =
    round_to (signed (differ (is_negative a) (is_negative b)) (magnitude a * magnitude b)) one_units
mul (fin a) inf = inf_times false a
mul (fin a) minus_inf = inf_times true a
mul inf (fin b) = inf_times false b
mul minus_inf (fin b) = inf_times true b
mul inf inf = inf
mul minus_inf minus_inf = inf
mul inf minus_inf = minus_inf
mul minus_inf inf = minus_inf
mul _ _ = nan

-- The quotient by a double that is not zero.
unfoldable pub quotient : Double → Double → Double
unfolding round_to
quotient (fin a) (fin b) =
    round_to (signed (differ (is_negative a) (is_negative b)) (magnitude a * one_units))
      (magnitude b)
quotient (fin a) inf = fin (pos 0)
quotient (fin a) minus_inf = fin (pos 0)
quotient inf (fin b) = signed_inf (is_negative b)
quotient minus_inf (fin b) = signed_inf (differ true (is_negative b))
quotient _ _ = nan

-- n / den to the nearest number, ties to even.
unfoldable pub nearest : ℕ → ℕ → ℕ
nearest n den =
    let m = n / den in
    let r = n % den in if ltb den (2 * r) || (2 * r == den && m % 2 == 1) then m + 1 else m

-- `round(x, k)`: the exact value to k decimals, ties to even, and then the nearest double.
unfoldable pub round_decimals : ℕ → Double → Double
unfolding nearest round_to
round_decimals k (fin a) =
    round_to (signed (is_negative a) (nearest (magnitude a * 10 ^ k) one_units * one_units))
      (10 ^ k)
round_decimals k x = x

two_thirds : round_decimals 4 (literal 2 3) ≡ literal 6667 10000
unfolding round_decimals literal
two_thirds = refl

a_tenth_squared : mul (literal 1 10) (literal 1 10) ≡ literal 10000000000000002 (10 ^ 18)
unfolding mul literal
a_tenth_squared = refl

one_third : quotient (literal 1 1) (literal 3 1) ≡ literal 1 3
unfolding quotient literal
one_third = refl
