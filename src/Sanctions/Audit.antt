-- ===== src/Sanctions/Audit.antt =====
-- A party with the higher reputation is audited no more than one with the lower.
use kry.Base.{
  ℕ, ◌+◌, ◌-◌, ◌*◌, ◌/◌, ◌^◌, ◌≤◌, ◌<◌, ◌≡◌, refl, sym, ap, ◌∙◌, subst, subst₂, arith, true, some,
}
use kry.Base.Int.{ℤ, pos}
use kry.Base.Texts.{Text}
use kry.Base.Results.{ok, ◌>>=◌, >>=-eq-ok, ok-injective}
use native.Mathlib.Nat.{mul-le-mul, div-le_of_le-mul, pow-le-pow_right}
use kry.Json.Values.{float}
use kry.Double.{Double, fin, le, lt, round_to, one_units, zero_double}
use kry.Double.Order.{round_to-le, le-round_to, round_to_mono, mul-pos, add-pos, sub-pos, one_exact}
use kry.Sanctions.Store.{Rates, RepFile, one_double, rate, as_float, finite_number}
use kry.Sanctions.Reputation.{reputation, audit_rate, audit_rate_for}
use kry.Sanctions.Bounds.{IsRate}
use kry.Sanctions.Within.{IsWithin, reputation-IsWithin}
use kry.Sanctions.Direction.{IsRepresentable, rate-IsRate, two_exact, narrow}

-- The difference to 1.0 falls as the rate rises.
sub_one-anti :
    (a b v w : ℕ)
    → a ≤ b
    → b ≤ one_units
    → round_to (pos (one_units - a)) 1 ≡ fin (pos v)
    → round_to (pos (one_units - b)) 1 ≡ fin (pos w)
    → w ≤ v
sub_one-anti a b v w le top e f =
    round_to_mono (one_units - b) (one_units - a) 1 w v (omega arith)
      (narrow (one_units - a) (omega arith)) (omega arith) f e

-- A product of two numbers of at most 1.0.
small_product : (v q : ℕ) → v ≤ one_units → q ≤ one_units → v * q / one_units < 2 ^ 4096
small_product v q h g = omega (
  arith,
  div-le_of_le-mul one_units {m = v * q} {n = one_units} (mul-le-mul h g),
  pow-le-pow_right {n = 2} (omega arith) {i = 1074} {j = 4095} (omega arith),
  pow-le-pow_right {n = 2} (omega arith) {i = 1076} {j = 4096} (omega arith),
)

audit_rate-value :
    (l u r : Double) (low : IsRate l) (high : IsRate u) (g : IsRate r)
    → low.units ≤ high.units
    → (v : ℕ) × (q : ℕ) × (p : ℕ) × (z : ℕ) × (round_to (pos (one_units - g.units)) 1 ≡ fin (pos v))
      × (round_to (pos (high.units - low.units)) 1 ≡ fin (pos q))
      × (round_to (pos (v * q)) one_units ≡ fin (pos p))
      × (round_to (pos (low.units + p)) 1 ≡ fin (pos z))
      × (audit_rate l u r ≡ fin (pos z))
      × (v ≤ one_units)
      × (q ≤ one_units)
      × (p ≤ one_units)
unfolding audit_rate
audit_rate-value l u r low high g le =
    let (v, ev, tv) =
      round_to-le (one_units - g.units) one_units 1 (omega arith) (omega arith) one_exact in
    let (q, eu, tq) =
      round_to-le (high.units - low.units) one_units 1 (omega arith) (omega (arith, high.bounded))
        one_exact in
    let (p, ep, tp) =
      round_to-le (v * q) one_units one_units (omega arith) (mul-le-mul tv tq) one_exact in
    let (z, ez, tz) =
      round_to-le (low.units + p) (2 * one_units) 1 (omega arith) (omega (arith, low.bounded, tp))
        two_exact in
    (
      v,
      q,
      p,
      z,
      ev,
      eu,
      ep,
      ez,
      rw
          (
            low.equal,
            high.equal,
            g.equal,
            sub-pos one_units g.units g.bounded,
            ev,
            sub-pos high.units low.units le,
            eu,
            mul-pos v q,
            ep,
            add-pos low.units p,
          )
          ez,
      tv,
      tq,
      tp,
    )

audit_rate-anti :
    (l u r s : Double) (low : IsRate l) (high : IsRate u) (g : IsRate r) (k : IsRate s)
    → low.units ≤ high.units
    → g.units ≤ k.units
    → (z : ℕ) × (y : ℕ) × (audit_rate l u r ≡ fin (pos z))
      × (audit_rate l u s ≡ fin (pos y))
      × (y ≤ z)
      × (low.units ≤ y)
audit_rate-anti l u r s low high g k le order =
    let (v, q, p, z, ev, eu, ep, ez, whole, tv, tq, tp) = audit_rate-value l u r low high g le in
    let (w, q2, p2, y, ew, eu2, ep2, ey, whole2, tw, tq2, tp2) =
      audit_rate-value l u s low high k le in
    let falls : w ≤ v = sub_one-anti g.units k.units v w order k.bounded ev ew in
    let same : q2 ≤ q =
      round_to_mono (high.units - low.units) (high.units - low.units) 1 q2 q (omega arith)
        (narrow (high.units - low.units) (omega (arith, high.bounded))) (omega arith) eu2 eu in
    let product : p2 ≤ p =
      round_to_mono (w * q2) (v * q) one_units p2 p (omega arith) (small_product v q tv tq)
        (mul-le-mul falls same) ep2 ep in
    (
      z,
      y,
      whole,
      whole2,
      round_to_mono (low.units + p2) (low.units + p) 1 y z (omega arith)
          (narrow (low.units + p) (omega (arith, low.bounded, tp))) (omega (arith, product)) ey ez,
      le-round_to (low.units + p2) low.units 1 y (omega arith)
          (narrow (low.units + p2) (omega (arith, low.bounded, tp2))) (omega arith) low.exact ey,
    )

finite_number-between :
    (b t : ℕ) (d r : Double)
    → finite_number (some (fin (pos b))) (some (fin (pos t))) (float d) ≡ ok r
    → (a : ℕ) × (d ≡ fin (pos a)) × (b ≤ a) × (a ≤ t) × (r ≡ d)
unfolding finite_number as_float lt
finite_number-between b t (fin (ℤ.pos a)) r h = ground arith
finite_number-between b t (fin (ℤ.negsuc a)) r h = ground arith
finite_number-between b t Double.inf r h = cc
finite_number-between b t Double.minus_inf r h = cc
finite_number-between b t Double.nan r h = cc

-- The upper bound that a call accepts.
high-IsRate :
    (low d r : Double) (g : IsRate low)
    → IsRepresentable d
    → finite_number (some low) (some one_double) (float d) ≡ ok r
    → (h : IsRate r) × (g.units ≤ h.units)
high-IsRate low d r g exact e =
    let (a, is_fin, above, below, same) =
      finite_number-between g.units one_units d r
        (subst (λ x. finite_number (some x) (some one_double) (float d) ≡ ok r) g.equal e) in
    (
      record { units = a; equal = same ∙ is_fin; bounded = below; exact = exact (pos a) is_fin },
      above,
    )

fin-le : (a b : ℕ) → le (fin (pos a)) (fin (pos b)) ≡ true → a ≤ b
unfolding le
fin-le a b h = ground arith

not_le-negative : (a : ℕ) → le zero_double (fin (ℤ.negsuc a)) ≡ true → ⊥
unfolding le
not_le-negative a h = ground arith

within-IsRate : (r : Double) → IsRepresentable r → IsWithin r → IsRate r
unfolding le
within-IsRate (fin (ℤ.pos a)) g h = record {
  units = a;
  equal = refl;
  bounded = fin-le a one_units h.1;
  exact = g (pos a) refl;
}
within-IsRate (fin (ℤ.negsuc a)) g h = absurd (not_le-negative a h.0)
within-IsRate Double.inf g h = cc
within-IsRate Double.minus_inf g h = cc
within-IsRate Double.nan g h = cc

-- The bounds and the reputation that an answer comes from.
audit_rate_for-parts :
    (c : Rates) (f : RepFile) (party : Text) (h_min h_max x : Double)
    → audit_rate_for c f party h_min h_max ≡ ok x
    → (low : Double) × (high : Double) × (r : Double) × (rate (float h_min) ≡ ok low)
      × (finite_number (some low) (some one_double) (float h_max) ≡ ok high)
      × (reputation c f party ≡ ok r)
      × (x ≡ audit_rate low high r)
unfolding audit_rate_for
audit_rate_for-parts c f party h_min h_max x h =
    let (low, e, rest) =
      >>=-eq-ok (rate (float h_min))
        (λ low. do
          high ← finite_number (some low) (some one_double) (float h_max)
          r ← reputation c f party
          ok (audit_rate low high r))
        h in
    let (high, e2, rest2) =
      >>=-eq-ok (finite_number (some low) (some one_double) (float h_max))
        (λ high. do r ← reputation c f party; ok (audit_rate low high r)) rest in
    let (r, e3, rest3) = >>=-eq-ok (reputation c f party) (λ r. ok (audit_rate low high r)) rest2 in
    (low, high, r, e, e2, e3, sym (ok-injective rest3))

le-fin : (a b : ℕ) → a ≤ b → le (fin (pos a)) (fin (pos b)) ≡ true
unfolding le
le-fin a b h = ground arith

ordered : (r s : Double) (g : IsRate r) (k : IsRate s) → le r s ≡ true → g.units ≤ k.units
ordered r s g k h = fin-le g.units k.units (subst₂ (λ a b. le a b ≡ true) g.equal k.equal h)

-- Of two parties with the same file and bounds, the one with the higher reputation is audited no more
-- than the other, and no less than the lower bound.
pub audit_rate_for-trusted :
    (c : Rates) (f : RepFile) (p q : Text) (h_min h_max r s x y : Double)
    → IsWithin c.prior
    → IsRepresentable h_min
    → IsRepresentable h_max
    → IsRepresentable r
    → IsRepresentable s
    → reputation c f p ≡ ok r
    → reputation c f q ≡ ok s
    → le r s ≡ true
    → audit_rate_for c f p h_min h_max ≡ ok x
    → audit_rate_for c f q h_min h_max ≡ ok y
    → (le y x ≡ true) × (le h_min y ≡ true)
audit_rate_for-trusted c f p q h_min h_max r s x y prior dl du dr ds er es order ex ey =
    let (low, high, r2, e, e2, e3, whole) = audit_rate_for-parts c f p h_min h_max x ex in
    let (low2, high2, s2, g, g2, g3, whole2) = audit_rate_for-parts c f q h_min h_max y ey in
    let (is_low, kept) = rate-IsRate h_min low dl e in
    let same_low : low2 ≡ low = ok-injective (sym g ∙ e) in
    let same_high : high2 ≡ high =
      ok-injective (
        sym g2
        ∙ (ap (λ b. finite_number (some b) (some one_double) (float h_max)) same_low ∙ e2)) in
    let (is_high, above) = high-IsRate low h_max high is_low du e2 in
    let is_r = within-IsRate r dr (reputation-IsWithin c f p r prior er) in
    let is_s = within-IsRate s ds (reputation-IsWithin c f q s prior es) in
    let (z, w, top, bottom, falls, floor) =
      audit_rate-anti low high r s is_low is_high is_r is_s above (ordered r s is_r is_s order) in
    let at_x : x ≡ fin (pos z) =
      whole ∙ (ap (audit_rate low high) (ok-injective (sym e3 ∙ er)) ∙ top) in
    let at_y : y ≡ fin (pos w) =
      whole2 ∙ (cc (same_low, same_high, ok-injective (sym g3 ∙ es)) ∙ bottom) in
    (
      subst₂ (λ a b. le a b ≡ true) (sym at_y) (sym at_x) (le-fin w z falls),
      subst₂ (λ a b. le a b ≡ true) (sym (sym kept ∙ is_low.equal)) (sym at_y)
          (le-fin is_low.units w floor),
    )
