-- ===== src/Double/Order.antt =====
-- A bound that is a double is a bound of the rounded number too.
use kry.Base.{
  suc, ◌⊎◌, ℕ, ◌+◌, ◌-◌, ◌*◌, ◌/◌, ◌%◌, ◌^◌, ◌≤◌, ◌<◌, ◌≡◌, refl, sym, ap, ◌∙◌, subst, subst₂,
  arith, Bool, true, false, ltb, ◌==◌, if◌then◌else◌, Bool-cases, inl, inr,
}
use kry.Base.Int.{ℤ, pos, neg, ◌+ℤ◌}
use native.Mathlib.Nat.{
  mul-div-mul_right, mul-div_cancel, div-one, div-add-mod, add-mul, mul_assoc, mul_comm,
  mul-le-mul_right, one-le-pow, pow-le-pow_right,
}
use kry.Double.{
  negate, add, sub, lt, zero_double, one_units, Double, bits_from, widths, fin, inf, round_to,
  round_ratio, of_magnitude, overflow_units, IsDouble,
}
use kry.Double.Products.{
  quotient, mul, signed, differ, is_negative, magnitude, nearest, round_decimals,
}
use kry.Double.Rounding.{
  round_ratio_mono, with_width, rounded, round_ratio-width, pow-pos, rounded-le,
}

mod_scale : (n step den : ℕ) → 0 < step → 0 < den → n * den % (step * den) ≡ n % step * den
mod_scale n step den q p =
    let whole : n * den ≡ step * den * (n / step) + n % step * den = omega (
      arith,
      ap (λ m. m * den) (div-add-mod n step),
      add-mul (step * (n / step)) (n % step) den,
      mul_assoc step (n / step) den,
      ap (λ m. step * m) (mul_comm (n / step) den),
      mul_assoc step den (n / step),
    ) in
    omega (
      arith,
      whole,
      div-add-mod (n * den) (step * den),
      ap (λ m. step * den * m) (mul-div-mul_right {m = den} n step p),
    )

less_true : (a b : ℕ) (c : Bool) → a < b → c ≡ true → ltb a b ≡ c
less_true a b c h e = ground arith

not_less_false : (a b : ℕ) (c : Bool) → b ≤ a → c ≡ false → ltb a b ≡ c
not_less_false a b c h e = ground arith

eqb_of_ltb : (a b c d : ℕ) → ltb a b ≡ ltb c d → ltb b a ≡ ltb d c → (a == b) ≡ (c == d)
eqb_of_ltb a b c d h g = ground arith

ltb-lt : (a b : ℕ) → ltb a b ≡ true → a < b
ltb-lt a b h = ground arith

lt-ltb : (a b : ℕ) → a < b → ltb a b ≡ true
lt-ltb a b h = ground arith

fin-injective : {a b : ℕ} → fin (pos a) ≡ fin (pos b) → a ≡ b
fin-injective e = cc

if_true : (b : Bool) (m : ℕ) → b ≡ true → (if b then fin (pos m) else inf) ≡ fin (pos m)
if_true b m e = cc

-- Comparisons do not change when both sides are multiplied.
ltb_scale : (a b den : ℕ) → 0 < den → ltb (a * den) (b * den) ≡ ltb a b
ltb_scale a b den p = elim (Bool-cases (ltb a b)) [
  | inl less ↦
      let more : a + 1 ≤ b = ground arith in
      less_true (a * den) (b * den) _ (omega (arith, mul-le-mul_right den more, add-mul a 1 den))
        less
  | inr not_less ↦
      let le : b ≤ a = ground arith in
      not_less_false (a * den) (b * den) _ (mul-le-mul_right den le) not_less
]

eqb_scale : (a b den : ℕ) → 0 < den → (a * den == b * den) ≡ (a == b)
eqb_scale a b den p = eqb_of_ltb (a * den) (b * den) a b (ltb_scale a b den p) (ltb_scale b a den p)

rounded-scale :
    (step n den : ℕ) → 0 < step → 0 < den → rounded (step * den) (n * den) ≡ rounded step n
unfolding rounded
rounded-scale step n den q p =
    rw
      (
        mul-div-mul_right {m = den} n step p,
        mod_scale n step den q p,
        sym (mul_assoc 2 (n % step) den),
        ltb_scale step (2 * (n % step)) den p,
        eqb_scale (2 * (n % step)) step den p,
      )
      refl

with_width-scale : (n den b : ℕ) → 0 < den → with_width den (n * den) b ≡ with_width 1 n b
unfolding with_width
with_width-scale n den b p =
    ap (λ m. m * 2 ^ (b - 53))
      (ap (λ s. rounded s (n * den)) (mul_comm den (2 ^ (b - 53)))
        ∙ (rounded-scale (2 ^ (b - 53)) n den (pow-pos (b - 53)) p
            ∙ ap (λ s. rounded s n) {x = 2 ^ (b - 53)} {y = 1 * 2 ^ (b - 53)} (omega arith)))

-- A whole number of units is rounded as such.
round_ratio-scale : (n den : ℕ) → 0 < den → round_ratio (n * den) den ≡ round_ratio n 1
round_ratio-scale n den p =
    round_ratio-width (n * den) den
    ∙ (ap (λ q. with_width den (n * den) (bits_from widths q)) (mul-div_cancel n p)
        ∙ (with_width-scale n den (bits_from widths n) p
            ∙ (ap (λ q. with_width 1 n (bits_from widths q)) (sym (div-one n))
                ∙ sym (round_ratio-width n 1))))

if_fin :
    (b : Bool) (m c : ℕ) → (if b then fin (pos m) else inf) ≡ fin (pos c) → (b ≡ true) × (m ≡ c)
if_fin true m c e = (refl, fin-injective e)
if_fin false m c e = cc

exact : (c : ℕ) → IsDouble (pos c) → (round_ratio c 1 ≡ c) × (c < overflow_units)
unfolding round_to of_magnitude
exact c h =
    let (top, same) = if_fin (ltb (round_ratio c 1) overflow_units) (round_ratio c 1) c h in
    (same, ltb-lt c overflow_units (subst (λ m. ltb m overflow_units ≡ true) same top))

-- Where the width search is wide enough.
wide : (c : ℕ) → c < overflow_units → c < 2 ^ 4096
wide c h = omega (arith, pow-le-pow_right {n = 2} (omega arith) {i = 2098} {j = 4096} (omega arith))

at_double : (c den : ℕ) → 0 < den → IsDouble (pos c) → round_ratio (c * den) den ≡ c
at_double c den p h = round_ratio-scale c den p ∙ (exact c h).0

pub round_to-le :
    (a c den : ℕ)
    → 0 < den
    → a ≤ c * den
    → IsDouble (pos c)
    → (v : ℕ) × (round_to (pos a) den ≡ fin (pos v)) × (v ≤ c)
unfolding round_to of_magnitude
round_to-le a c den p le h =
    let bound : round_ratio a den ≤ c =
      subst (λ m. round_ratio a den ≤ m) (at_double c den p h)
        (round_ratio_mono den a (c * den) p
          (subst (λ q. q < 2 ^ 4096) (sym (mul-div_cancel c p)) (wide c (exact c h).1)) le) in
    (
      round_ratio a den,
      if_true (ltb (round_ratio a den) overflow_units) _
          (lt-ltb _ overflow_units (omega (arith, bound, (exact c h).1))),
      bound,
    )

pub le-round_to :
    (a c den v : ℕ)
    → 0 < den
    → a / den < 2 ^ 4096
    → c * den ≤ a
    → IsDouble (pos c)
    → round_to (pos a) den ≡ fin (pos v)
    → c ≤ v
unfolding round_to of_magnitude
le-round_to a c den v p top le h e =
    let (small, same) = if_fin (ltb (round_ratio a den) overflow_units) (round_ratio a den) v e in
    subst (λ m. m ≤ v) (at_double c den p h)
      (subst (λ m. round_ratio (c * den) den ≤ m) same (round_ratio_mono den (c * den) a p top le))

pub round_to_mono :
    (a b den v w : ℕ)
    → 0 < den
    → b / den < 2 ^ 4096
    → a ≤ b
    → round_to (pos a) den ≡ fin (pos v)
    → round_to (pos b) den ≡ fin (pos w)
    → v ≤ w
unfolding round_to of_magnitude
round_to_mono a b den v w p top le e f =
    subst₂ (λ x y. x ≤ y)
      ((if_fin (ltb (round_ratio a den) overflow_units) (round_ratio a den) v e).1)
      ((if_fin (ltb (round_ratio b den) overflow_units) (round_ratio b den) w f).1)
      (round_ratio_mono den a b p top le)

not_negative : (a : ℕ) → is_negative (pos a) ≡ false
not_negative a = ground arith

plus_zero : (a : ℕ) → a + 0 ≡ a
plus_zero a = omega arith

plus_pos : (a b : ℕ) → pos a +ℤ pos b ≡ pos (a + b)
unfolding ◌+ℤ◌
plus_pos a b = ground arith

pub minus_pos : (a b : ℕ) → b ≤ a → pos a +ℤ neg (pos b) ≡ pos (a - b)
unfolding ◌+ℤ◌
minus_pos a b h = ground arith

signs_pos :
    (a b : ℕ)
    → signed
        (differ (is_negative (pos a)) (is_negative (pos b)))
        (magnitude (pos a) * magnitude (pos b))
      ≡ pos (a * b)
signs_pos a b = rw (not_negative a, not_negative b, plus_zero a, plus_zero b) refl

pub mul-pos : (a b : ℕ) → mul (fin (pos a)) (fin (pos b)) ≡ round_to (pos (a * b)) one_units
unfolding mul
mul-pos a b = ap (λ z. round_to z one_units) (signs_pos a b)

pub add-pos : (a b : ℕ) → add (fin (pos a)) (fin (pos b)) ≡ round_to (pos (a + b)) 1
unfolding add
add-pos a b = ap (λ z. round_to z 1) (plus_pos a b)

pub sub-pos : (a b : ℕ) → b ≤ a → sub (fin (pos a)) (fin (pos b)) ≡ round_to (pos (a - b)) 1
unfolding sub add
sub-pos a b h = ap (λ z. round_to z 1) (minus_pos a b h)

-- 1.0 is a double.
pub one_exact : IsDouble (pos one_units)
unfolding round_to
one_exact = refl

nearest-le : (n c den : ℕ) → 0 < den → n ≤ den * c → nearest n den ≤ c
unfolding nearest rounded
nearest-le n c den p le = rounded-le den n c p le

decimals_pos :
    (k a : ℕ)
    → round_decimals k (fin (pos a))
      ≡ round_to (pos (nearest (a * 10 ^ k) one_units * one_units)) (10 ^ k)
unfolding round_decimals
decimals_pos k a = rw (not_negative a, plus_zero a) refl

-- A number of at most 1.0 is rounded to one of at most 1.0.
pub round_decimals-le :
    (k a : ℕ)
    → a ≤ one_units
    → (v : ℕ) × (round_decimals k (fin (pos a)) ≡ fin (pos v)) × (v ≤ one_units)
round_decimals-le k a h =
    let scaled : nearest (a * 10 ^ k) one_units ≤ 10 ^ k =
      nearest-le (a * 10 ^ k) (10 ^ k) one_units (omega arith) (mul-le-mul_right (10 ^ k) h) in
    let (v, e, le) =
      round_to-le (nearest (a * 10 ^ k) one_units * one_units) one_units (10 ^ k)
        (omega (arith, one-le-pow k 10 (omega arith)))
        (omega (arith, mul-le-mul_right one_units scaled, mul_comm (10 ^ k) one_units)) one_exact in
    (v, decimals_pos k a ∙ e, le)

-- A double whose units are exact, if it has any.
abbrev pub IsRepresentable : Double → Type 0
IsRepresentable d = (a : ℤ) → d ≡ fin a → IsDouble a

sign_pos :
    (a b : ℕ)
    → signed (differ (is_negative (pos a)) (is_negative (pos b))) (magnitude (pos a) * one_units)
      ≡ pos (a * one_units)
sign_pos a b = rw (not_negative a, not_negative b, plus_zero a) refl

minus_less : (a b : ℕ) → a < b → pos a +ℤ neg (pos b) ≡ ℤ.negsuc (b - a - 1)
unfolding ◌+ℤ◌
minus_less a b h = ground arith

pub quotient-pos :
    (a b : ℕ) → quotient (fin (pos a)) (fin (pos b)) ≡ round_to (pos (a * one_units)) b
unfolding quotient
quotient-pos a b =
    ap (λ z. round_to z (magnitude (pos b))) (sign_pos a b)
    ∙ ap (λ m. round_to (pos (a * one_units)) m) (plus_zero b)

magnitude-cases :
    (b : Bool) (m : ℕ)
    → ((v : ℕ) × ((if b then fin (pos m) else inf) ≡ fin (pos v)))
      ⊎ ((if b then fin (pos m) else inf) ≡ inf)
magnitude-cases true m = inl (m, refl)
magnitude-cases false m = inr refl

-- What is not negative is rounded to a number or to inf.
pub round_to-cases :
    (n den : ℕ) → ((v : ℕ) × (round_to (pos n) den ≡ fin (pos v))) ⊎ (round_to (pos n) den ≡ inf)
unfolding round_to of_magnitude
round_to-cases n den = magnitude-cases (ltb (round_ratio n den) overflow_units) (round_ratio n den)

lt-negated : (b : Bool) (m : ℕ) → lt zero_double (negate (if b then fin (pos m) else inf)) ≡ false
unfolding lt
lt-negated true m = ground arith
lt-negated false m = refl

-- A smaller number less a larger one is not above 0.0.
pub lt-sub : (a b : ℕ) → a < b → lt zero_double (sub (fin (pos a)) (fin (pos b))) ≡ false
unfolding sub add round_to of_magnitude
lt-sub a b h = rw (minus_less a b h) (
    lt-negated (ltb (round_ratio (suc (b - a - 1)) 1) overflow_units)
      (round_ratio (suc (b - a - 1)) 1))
