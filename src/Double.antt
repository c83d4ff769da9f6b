-- ===== src/Double.antt =====
-- IEEE-754 binary64, the `float` of the Python sources.  Every finite double is a whole multiple of
-- 2 ^ -1074, so `fin n` is n * 2 ^ -1074 with n an integer; an operation is computed exactly and then
-- rounded to nearest, ties to even, to 53 significant bits.  Signed zeros are not told apart.
pub mod Products
mod Rounding
pub mod Order
use kry.Base.{
  ℕ, zero, suc, ◌+◌, ◌-◌, ◌*◌, ◌/◌, ◌%◌, ◌^◌, ◌≡◌, refl, Bool, true, false, ◌&&◌, ◌||◌, ltb, ◌==◌,
  if◌then◌else◌,
}
use kry.Base.Int.{ℤ, pos, negsuc, pos_part, neg_part, neg, ◌+ℤ◌, ltb_ℤ, leb_ℤ, eqb_ℤ, zero-+ℤ}

pub data Double : Type 0 where
  fin : ℤ → Double
  inf : Double
  minus_inf : Double
  nan : Double

-- 1.0 in units of 2 ^ -1074, and the first magnitude that does not fit.
abbrev pub one_units : ℕ
one_units = 2 ^ 1074

abbrev overflow_units : ℕ
overflow_units = 2 ^ 2098

-- The number of bits of n, for n below 2 ^ 4096, by halving the width searched.
unfoldable bits_from : ℕ → ℕ → ℕ
bits_from zero n = if ltb 0 n then 1 else 0
bits_from (suc k) n =
    let low = bits_from k n in
    let high = bits_from k (n / 2 ^ 2 ^ k) in if ltb n (2 ^ 2 ^ k) then low else 2 ^ k + high

abbrev widths : ℕ
widths = 12

-- num / den * 2 ^ -1074 rounded half to even, as a magnitude.
unfoldable round_ratio : ℕ → ℕ → ℕ
unfolding bits_from
round_ratio num den =
    let q = num / den in
    let k = bits_from widths q - 53 in
    let step = den * 2 ^ k in
    let m = num / step in
    let r = num % step in
    let up = ltb step (2 * r) || (2 * r == step && m % 2 == 1) in (if up then m + 1 else m) * 2 ^ k

unfoldable of_magnitude : ℕ → Double
of_magnitude n = if ltb n overflow_units then fin (pos n) else inf

abbrev pub negate : Double → Double
negate (fin a) = fin (neg a)
negate inf = minus_inf
negate minus_inf = inf
negate nan = nan

-- The double nearest to a / den, a in units.
unfoldable pub round_to : ℤ → ℕ → Double
unfolding round_ratio of_magnitude
round_to (pos n) den = of_magnitude (round_ratio n den)
round_to (negsuc n) den = negate (of_magnitude (round_ratio (suc n) den))

-- a is the value of a double.
abbrev pub IsDouble : ℤ → Type 0
IsDouble a = round_to a 1 ≡ fin a

unfoldable pub add : Double → Double → Double
unfolding round_to ◌+ℤ◌
add (fin a) (fin b) = round_to (a +ℤ b) 1
add (fin a) inf = inf
add (fin a) minus_inf = minus_inf
add (fin a) nan = nan
add inf minus_inf = nan
add inf nan = nan
add inf _ = inf
add minus_inf inf = nan
add minus_inf nan = nan
add minus_inf _ = minus_inf
add nan _ = nan

unfoldable pub sub : Double → Double → Double
unfolding add
sub a b = add a (negate b)

unfoldable pub abs : Double → Double
abs (fin a) = fin (pos (pos_part a + neg_part a))
abs inf = inf
abs minus_inf = inf
abs nan = nan

-- The comparisons of Python: every one with a nan is False.
unfoldable pub lt : Double → Double → Bool
lt (fin a) (fin b) = ltb_ℤ a b
lt (fin a) inf = true
lt minus_inf (fin b) = true
lt minus_inf inf = true
lt _ _ = false

unfoldable pub le : Double → Double → Bool
le (fin a) (fin b) = leb_ℤ a b
le (fin a) inf = true
le inf inf = true
le minus_inf (fin b) = true
le minus_inf minus_inf = true
le minus_inf inf = true
le _ _ = false

unfoldable pub eq : Double → Double → Bool
eq (fin a) (fin b) = eqb_ℤ a b
eq inf inf = true
eq minus_inf minus_inf = true
eq _ _ = false

-- `math.isfinite`.
abbrev pub is_finite : Double → Bool
is_finite (fin a) = true
is_finite _ = false

-- A decimal literal num / den, and `float(n)` of an integer (an overflow there is an error).
unfoldable pub literal : ℕ → ℕ → Double
unfolding round_to
literal num den = round_to (pos (num * one_units)) den

unfoldable pub of_int : ℤ → Double
unfolding round_to
of_int (pos n) = round_to (pos (n * one_units)) 1
of_int (negsuc n) = negate (round_to (pos (suc n * one_units)) 1)

abbrev pub zero_double : Double
zero_double = fin (pos 0)

-- 1e-9 and 1e-6.
unfoldable pub nano : Double
unfolding literal
nano = literal 1 (10 ^ 9)

unfoldable pub micro : Double
unfolding literal
micro = literal 1 (10 ^ 6)

-- 0.0 + a is a.
pub add-zero_double : (a : ℤ) → IsDouble a → add zero_double (fin a) ≡ fin a
unfolding add
add-zero_double a h = rw (zero-+ℤ a) h

sums_round : add (literal 1 10) (literal 2 10) ≡ literal 30000000000000004 (10 ^ 17)
unfolding add literal
sums_round = refl

sums_not_exact : eq (add (literal 1 10) (literal 2 10)) (literal 3 10) ≡ false
unfolding add literal eq
sums_not_exact = refl

-- n is exact as a double.
abbrev pub IsCountable : ℕ → Type 0
IsCountable n = of_int (pos n) ≡ fin (pos (n * one_units))
