-- ===== src/Python.antt =====
-- The dynamic values that the sources test, and `_finite_number`, which kry_settlement, kry_sanctions and
-- other modules each carry a copy of.
use kry.Base.{◌≡◌, true, arith, ◌≡◌, Bool, true, false, not, if◌then◌else◌, arith}
use kry.Base.Int.{ℤ}
use kry.Base.Texts.{Text}
use kry.Base.Results.{Result, ok, err, value_error, overflow_error, ◌>>=◌, ◌>>◌, raise_if}
use kry.Double.{Double, is_finite, of_int, lt, le, zero_double}

-- What a parsed JSON text or a caller may hand over; `other` is an object.
mutual
  pub data Value : Type 0 where
    none_value : Value
    bool : Bool → Value
    int : ℤ → Value
    float : Double → Value
    str : Text → Value
    list : Values → Value
    other : Value

  pub data Values : Type 0 where
    nil : Values
    cons : Value → Values → Values

-- `float(n)` of an integer too large for a double raises OverflowError.
unfoldable pub finite_or_overflow : Double → Result Double
finite_or_overflow d = if is_finite d then ok d else err overflow_error

-- The number behind a value that is an `int` or a `float` and no `bool`.
unfoldable pub as_float : Value → Result Double
unfolding finite_or_overflow of_int
as_float (int n) = finite_or_overflow (of_int n)
as_float (float d) = ok d
as_float _ = err value_error

-- Which bound a call of `_finite_number` asks for.
pub data Bound : Type 0 where
  unbounded positive nonnegative : Bound

unfoldable pub below_bound : Bound → Double → Bool
unfolding lt le
below_bound unbounded d = false
below_bound positive d = le d zero_double
below_bound nonnegative d = lt d zero_double

unfoldable pub finite_number : Value → Bound → Result Double
finite_number v b = do
  d ← as_float v
  raise_if (not (is_finite d)) value_error
  raise_if (below_bound b d) value_error
  ok d

-- An accepted number is finite and within the bound asked for.
pub finite_number_sound :
    (v : Value) (b : Bound) (d : Double)
    → finite_number v b ≡ ok d
    → (is_finite d ≡ true) × (below_bound b d ≡ false)
unfolding finite_number
finite_number_sound v b d h = ground arith

-- A float that is accepted is passed on as it is.
pub finite_number_same :
    (x : Double) (b : Bound) (y : Double) → finite_number (float x) b ≡ ok y → y ≡ x
unfolding finite_number as_float
finite_number_same x b y h = ground arith

-- What is accepted is the number behind the value.
pub as_float-finite_number :
    (v : Value) (b : Bound) (y : Double) → finite_number v b ≡ ok y → as_float v ≡ ok y
unfolding finite_number
as_float-finite_number v b y h = ground arith
