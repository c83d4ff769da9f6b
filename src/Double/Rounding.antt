-- ===== src/Double/Rounding.antt =====
-- Rounding keeps order.
use kry.Base.{
  ℕ, zero, suc, ◌+◌, ◌-◌, ◌*◌, ◌/◌, ◌%◌, ◌^◌, ◌≤◌, ◌<◌, ◌≡◌, refl, sym, ap, subst, subst₂, ◌∙◌,
  arith, Bool, true, false, ◌&&◌, ◌||◌, ltb, ◌==◌, if◌then◌else◌, Bool-cases, inl, inr,
}
use native.Mathlib.Nat.{
  mul-le-mul_left, mul-le-mul_right, mul_assoc, mul_comm, div-lt_iff_lt-mul, le-div_iff_mul-le,
  pow-le-pow_right, one-le-pow, pow-suc, lt-mul-div-succ, one-le-mul, mul-div-le, div-add-mod,
  mod-lt, add-mul, div-mul-le_self,
}
use kry.Double.{bits_from, widths, round_ratio}

pow-add : (a b : ℕ) → 2 ^ (a + b) ≡ 2 ^ a * 2 ^ b
pow-add a zero = omega (arith, subst (λ c. 2 ^ c ≡ 2 ^ a) {y = a + 0} (omega arith) refl)
pow-add a (suc b) = omega (
  arith,
  pow-add a b,
  pow-suc 2 (a + b),
  ap (λ c. 2 ^ a * c) (pow-suc 2 b),
  mul_assoc (2 ^ a) (2 ^ b) 2,
  subst (λ c. 2 ^ c ≡ 2 ^ suc (a + b)) {y = a + suc b} (omega arith) refl,
)

pub pow-pos : (a : ℕ) → 0 < 2 ^ a
pow-pos a = omega (arith, one-le-pow a 2 (omega arith))

double_pow : (k : ℕ) → 2 ^ 2 ^ suc k ≡ 2 ^ 2 ^ k * 2 ^ 2 ^ k
double_pow k =
    subst (λ c. 2 ^ c ≡ 2 ^ 2 ^ k * 2 ^ 2 ^ k) {y = 2 ^ suc k} (omega (arith, pow-suc 2 k))
      (pow-add (2 ^ k) (2 ^ k))

-- n is less than 2 ^ b, and no less than half of it unless b is 0.
HasBits : ℕ → ℕ → Type 0
HasBits b n = (n < 2 ^ b) × (0 < b → 2 ^ b ≤ 2 * n)

half_below : (b n : ℕ) → HasBits b n → 0 < n → 2 ^ b ≤ 2 * n
unfolding HasBits
half_below zero n h p = omega arith
half_below (suc b) n h p = h.1 (omega arith)

scaled_bits :
    (p n c : ℕ)
    → 0 < p
    → p ≤ n
    → n / p < c
    → (0 < n / p → c ≤ 2 * (n / p))
    → (n < p * c) × (p * c ≤ 2 * n)
scaled_bits p n c pos le below half =
    let q : 0 < n / p = (le-div_iff_mul-le {k = p} {x = 1} {y = n} pos).1 (omega arith) in
    (
      omega (arith, lt-mul-div-succ n pos, mul-le-mul_left {m = n / p + 1} {n = c} p (omega arith)),
      omega (
        arith,
        mul-le-mul_left {m = c} {n = 2 * (n / p)} p (half q),
        mul-div-le n p,
        mul_comm p (2 * (n / p)),
        mul_assoc 2 (n / p) p,
        mul_comm (n / p) p,
      ),
    )

bits_base : (n : ℕ) → n < 2 → HasBits (if ltb 0 n then 1 else 0) n
unfolding HasBits
bits_base n h = ground arith

high_bits : (k n b : ℕ) → 2 ^ 2 ^ k ≤ n → HasBits b (n / 2 ^ 2 ^ k) → HasBits (2 ^ k + b) n
unfolding HasBits
high_bits k n b le bits =
    let whole =
      scaled_bits (2 ^ 2 ^ k) n (2 ^ b) (pow-pos (2 ^ k)) le bits.0
        (half_below b (n / 2 ^ 2 ^ k) bits) in
    (
      subst (λ c. n < c) (sym (pow-add (2 ^ k) b)) whole.0,
      λ p. subst (λ c. c ≤ 2 * n) (sym (pow-add (2 ^ k) b)) whole.1,
    )

-- The half above has fewer bits.
high_below : (k n : ℕ) → n < 2 ^ 2 ^ suc k → n / 2 ^ 2 ^ k < 2 ^ 2 ^ k
high_below k n h =
    (div-lt_iff_lt-mul {k = 2 ^ 2 ^ k} {x = n} {y = 2 ^ 2 ^ k} (pow-pos (2 ^ k))).1
      (subst (λ c. n < c) (double_pow k) h)

chosen_bits :
    (low : Bool) (a b n : ℕ)
    → (low ≡ true → HasBits a n)
    → (low ≡ false → HasBits b n)
    → HasBits (if low then a else b) n
chosen_bits true a b n f g = f refl
chosen_bits false a b n f g = g refl

bits_from-HasBits : (k n : ℕ) → n < 2 ^ 2 ^ k → HasBits (bits_from k n) n
unfolding bits_from
bits_from-HasBits zero n h = bits_base n h
bits_from-HasBits (suc k) n h =
    chosen_bits (ltb n (2 ^ 2 ^ k)) _ _ n (λ e. bits_from-HasBits k n (ground arith))
      (λ e. high_bits k n _ (ground arith) (bits_from-HasBits k (n / 2 ^ 2 ^ k) (high_below k n h)))

-- The multiple of a step that is nearest, ties to even.
unfoldable pub rounded : ℕ → ℕ → ℕ
rounded step n =
    let m = n / step in
    let r = n % step in if ltb step (2 * r) || (2 * r == step && m % 2 == 1) then m + 1 else m

rounded_near :
    (step n : ℕ)
    → 0 < step
    → (2 * (rounded step n * step) ≤ 2 * n + step) × (2 * n ≤ 2 * (rounded step n * step) + step)
unfolding rounded
rounded_near step n p =
    ground
      (arith, div-add-mod n step, mod-lt n p, add-mul (n / step) 1 step, mul_comm step (n / step))

step-pos : (den k : ℕ) → 0 < den → 0 < den * 2 ^ k
step-pos den k p = omega (arith, one-le-mul {a = den} {b = 2 ^ k} p (pow-pos k))

rounded_mono : (step n m : ℕ) → 0 < step → n ≤ m → rounded step n ≤ rounded step m
rounded_mono step n m p le = elim (Bool-cases (ltb (rounded step m) (rounded step n))) [
  | inl over ↦
      let more : rounded step m + 1 ≤ rounded step n = ground arith in
      let same : n ≡ m = omega (
        arith,
        rounded_near step n p,
        rounded_near step m p,
        mul-le-mul_right step more,
        add-mul (rounded step m) 1 step,
      ) in
      absurd (omega (arith, more, ap (rounded step) same))
  | inr under ↦ ground arith
]

pub rounded-le : (step n c : ℕ) → 0 < step → n ≤ step * c → rounded step n ≤ c
rounded-le step n c p lt = elim (Bool-cases (ltb c (rounded step n))) [
  | inl over ↦
      let more : c + 1 ≤ rounded step n = ground arith in
      absurd (
        omega (
          arith,
          rounded_near step n p,
          mul-le-mul_right step more,
          add-mul c 1 step,
          mul_comm step c,
        ))
  | inr under ↦ ground arith
]

le-rounded : (step n c : ℕ) → 0 < step → step * c ≤ n → c ≤ rounded step n
le-rounded step n c p le = elim (Bool-cases (ltb (rounded step n) c)) [
  | inl over ↦
      let more : rounded step n + 1 ≤ c = ground arith in
      absurd (
        omega (
          arith,
          rounded_near step n p,
          mul-le-mul_right step more,
          add-mul (rounded step n) 1 step,
          mul_comm step c,
        ))
  | inr under ↦ ground arith
]

-- More bits, a larger number.
bits_mono : (a b n m : ℕ) → HasBits a n → HasBits b m → n ≤ m → a ≤ b
unfolding HasBits
bits_mono a b n m h g le = elim (Bool-cases (ltb b a)) [
  | inl over ↦
      let more : b + 1 ≤ a = ground arith in
      absurd (
        omega
          (arith, h.1 (omega arith), g.0, pow-le-pow_right {n = 2} (omega arith) more, pow-add b 1))
  | inr under ↦ ground arith
]

-- A number of b bits is at most 2 ^ 53 steps, and if it is rounded at all, at least 2 ^ 52.
steps-le : (den n b : ℕ) → 0 < den → HasBits b (n / den) → rounded (den * 2 ^ (b - 53)) n ≤ 2 ^ 53
unfolding HasBits
steps-le den n b p h =
    let wide : 2 ^ b ≤ 2 ^ (b - 53) * 2 ^ 53 =
      subst (λ c. 2 ^ b ≤ c) (pow-add (b - 53) 53)
        (pow-le-pow_right {n = 2} (omega arith) {i = b} {j = b - 53 + 53} (omega arith)) in
    rounded-le (den * 2 ^ (b - 53)) n (2 ^ 53) (step-pos den (b - 53) p) (
      subst (λ c. n ≤ c) (sym (mul_assoc den (2 ^ (b - 53)) (2 ^ 53)))
        (omega (
          arith,
          (div-lt_iff_lt-mul {k = den} {x = n} {y = 2 ^ b} p).0 h.0,
          mul_comm (2 ^ b) den,
          mul-le-mul_left den wide,
        )))

le-steps :
    (den n b : ℕ) → 0 < den → 53 < b → HasBits b (n / den) → 2 ^ 52 ≤ rounded (den * 2 ^ (b - 53)) n
unfolding HasBits
le-steps den n b p wide h =
    let split : 2 ^ b ≡ 2 ^ (b - 53) * 2 ^ 53 =
      subst (λ c. 2 ^ b ≡ 2 ^ c) {y = b - 53 + 53} (omega arith) refl ∙ pow-add (b - 53) 53 in
    let scaled : 2 ^ (b - 53) * 2 ^ 52 ≤ n / den = omega (arith, split, h.1 (omega arith)) in
    le-rounded (den * 2 ^ (b - 53)) n (2 ^ 52) (step-pos den (b - 53) p) (
      subst (λ c. c ≤ n) (sym (mul_assoc den (2 ^ (b - 53)) (2 ^ 52)))
        (omega (arith, mul-div-le n den, mul-le-mul_left den scaled)))

div_mono : (den n m : ℕ) → 0 < den → n ≤ m → n / den ≤ m / den
div_mono den n m p le =
    (le-div_iff_mul-le {k = den} {x = n / den} {y = m} p).1 (omega (arith, div-mul-le_self n den))

-- Rounding with the step of a width.
unfoldable pub with_width : ℕ → ℕ → ℕ → ℕ
with_width den n b = rounded (den * 2 ^ (b - 53)) n * 2 ^ (b - 53)

with_width_mono :
    (den n m a b : ℕ)
    → 0 < den
    → HasBits a (n / den)
    → HasBits b (m / den)
    → n ≤ m
    → with_width den n a ≤ with_width den m b
unfolding with_width
with_width_mono den n m a b p h g le =
    let wider : a ≤ b = bits_mono a b (n / den) (m / den) h g (div_mono den n m p le) in
    elim (Bool-cases (ltb (a - 53) (b - 53))) [
      | inl more ↦
          let up : a - 53 + 1 ≤ b - 53 = ground arith in
          omega (
            arith,
            mul-le-mul_right (2 ^ (a - 53)) (steps-le den n a p h),
            mul-le-mul_right (2 ^ (b - 53)) (le-steps den m b p (omega arith) g),
            pow-le-pow_right {n = 2} (omega arith) up,
            pow-add (a - 53) 1,
          )
      | inr same ↦
          let equal : a - 53 ≡ b - 53 = ground arith in
          subst (λ c. with_width den n a ≤ rounded (den * 2 ^ c) m * 2 ^ c) equal
            (mul-le-mul_right (2 ^ (a - 53))
              (rounded_mono (den * 2 ^ (a - 53)) n m (step-pos den (a - 53) p) le))
    ]

pub round_ratio-width :
    (n den : ℕ) → round_ratio n den ≡ with_width den n (bits_from widths (n / den))
unfolding round_ratio with_width rounded
round_ratio-width n den = refl

-- A larger number is rounded to a larger one.
pub round_ratio_mono :
    (den n m : ℕ) → 0 < den → m / den < 2 ^ 4096 → n ≤ m → round_ratio n den ≤ round_ratio m den
round_ratio_mono den n m p top le =
    let q : n / den ≤ m / den = div_mono den n m p le in
    subst₂ (λ a b. a ≤ b) (sym (round_ratio-width n den)) (sym (round_ratio-width m den))
      (with_width_mono den n m _ _ p (bits_from-HasBits widths (n / den) (omega (arith, q)))
        (bits_from-HasBits widths (m / den) top) le)
