-- ===== src/Sanctions/Direction.antt =====
-- A confirmation never lowers a reputation, and a discrepancy never raises it.
use kry.Base.{
  ℕ, ◌+◌, ◌*◌, ◌/◌, ◌^◌, ◌≤◌, ◌<◌, ◌≡◌, refl, sym, ap, ◌∙◌, subst, subst₂, arith, Bool, true, false,
  some,
}
use kry.Base.Int.{ℤ, pos}
use kry.Base.Texts.{Text}
use kry.Base.Dicts.{lookup, insert}
use kry.Base.Results.{Result, ok, err, >>=-eq-ok, ok-injective}
use native.Mathlib.Nat.{mul-le-mul_left, div-le_self, pow-le-pow_right}
use kry.Json.Values.{float}
use kry.Double.{Double, fin, le, lt, round_to, one_units, IsDouble, zero_double}
pub use kry.Double.Order.{IsRepresentable}
use kry.Double.Order.{round_to-le, le-round_to, mul-pos, add-pos}
use kry.Sanctions.Store.{
  Rates, Rep, Reps, RepFile, RepWrite, load, save, one_double, rate, as_float, finite_number,
}
use kry.Sanctions.Reputation.{
  returned, clamp, confirmed_reputation, sanctioned_reputation, or_new, updated_rep, outcome,
  persist, record_loaded, record_reconciliation,
}
use kry.Sanctions.Bounds.{IsRate, sub_one, clamp_at-above, clamp_at-below, clamp-bounds}

pub two_exact : IsDouble (pos (2 * one_units))
unfolding round_to
two_exact = refl

-- Far below where the width search ends.
pub narrow : (n : ℕ) → n ≤ 2 * one_units → n / 1 < 2 ^ 4096
narrow n h = omega (
  arith,
  div-le_self n 1,
  pow-le-pow_right {n = 2} (omega arith) {i = 1076} {j = 4096} (omega arith),
)

-- r * x for x at most 1.0 is at most r.
pub shrunk :
    (a v : ℕ)
    → v ≤ one_units
    → IsDouble (pos a)
    → (w : ℕ) × (round_to (pos (a * v)) one_units ≡ fin (pos w)) × (w ≤ a)
shrunk a v h d = round_to-le (a * v) a one_units (omega arith) (mul-le-mul_left a h) d

sanctioned-below :
    (c : Rates) (r : Double)
    → IsRate c.sanction
    → (g : IsRate r) → (w : ℕ) × (sanctioned_reputation c r ≡ fin (pos w)) × (w ≤ g.units)
unfolding sanctioned_reputation
sanctioned-below c r s g =
    let (v, e, top) = sub_one s.units s.bounded in
    let (w, f, le) = shrunk g.units v top g.exact in
    (w, rw (g.equal, s.equal, e, mul-pos g.units v) f, le)

confirmed-above :
    (c : Rates) (r : Double)
    → IsRate c.gain
    → (g : IsRate r) → (w : ℕ) × (confirmed_reputation c r ≡ fin (pos w)) × (g.units ≤ w)
unfolding confirmed_reputation
confirmed-above c r k g =
    let (v, e, top) = sub_one g.units g.bounded in
    let (x, f, small) = shrunk k.units v top k.exact in
    let (w, q, bound) =
      round_to-le (g.units + x) (2 * one_units) 1 (omega arith)
        (omega (arith, g.bounded, k.bounded)) two_exact in
    (
      w,
      rw (g.equal, k.equal, e, mul-pos k.units v, f, add-pos g.units x) q,
      le-round_to (g.units + x) g.units 1 w (omega arith)
          (narrow (g.units + x) (omega (arith, g.bounded, k.bounded))) (omega arith) g.exact q,
    )

-- What moves the right way.
pub IsMoved : Bool → Double → Double → Type 0
IsMoved true r s = le r s ≡ true
IsMoved false r s = le s r ≡ true

updated_rep-IsMoved :
    (c : Rates) (confirmed : Bool) (now : Double) (e : Rep) (r : Double)
    → IsRate c.gain
    → IsRate c.sanction
    → IsRate r
    → IsMoved confirmed r (updated_rep c confirmed now e r).reputation
unfolding updated_rep IsMoved clamp
updated_rep-IsMoved c true now e r k s g =
    let (w, f, above) = confirmed-above c r k g in
    rw (f, g.equal) (clamp_at-above one_units g.units w g.bounded above)
updated_rep-IsMoved c false now e r k s g =
    let (w, f, below) = sanctioned-below c r s g in
    rw (f, g.equal) (clamp_at-below one_units g.units w below)

updated_rep-clamped :
    (c : Rates) (confirmed : Bool) (now : Double) (e : Rep) (r : Double)
    → (d : Double) × ((updated_rep c confirmed now e r).reputation ≡ clamp d)
unfolding updated_rep
updated_rep-clamped c true now e r = (confirmed_reputation c r, refl)
updated_rep-clamped c false now e r = (sanctioned_reputation c r, refl)

-- A call that answers has saved the new entry's reputation.
returned-ok : (r s : Double) (q : Result (Unit {0}) × RepFile) → (returned r q).0 ≡ ok s → s ≡ r
returned-ok r s (ok u, f) e = sym (ok-injective e)
returned-ok r s (err x, f) e = cc

outcome-ok :
    (c : Rates) (confirmed : Bool) (now : Double) (e new : Rep)
    → outcome c confirmed now e ≡ ok new
    → (r : Double) × (rate (float e.reputation) ≡ ok r) × (new ≡ updated_rep c confirmed now e r)
outcome-ok c confirmed now e new h =
    let (r, checked, same) =
      >>=-eq-ok (rate (float e.reputation)) (λ r. ok (updated_rep c confirmed now e r)) h in
    (r, checked, sym (ok-injective same))

persist-ok :
    (c : Rates) (w : RepWrite) (party : Text) (reps : Reps) (f : RepFile) (o : Result Rep)
    (r : Double)
    → (persist c w party reps f o).0 ≡ ok r
    → (e : Rep) × (o ≡ ok e) × (r ≡ e.reputation)
unfolding persist
persist-ok c w party reps f (err x) r h = cc
persist-ok c w party reps f (ok e) r h =
    (e, refl, returned-ok e.reputation r (save c w (insert party e reps) f) h)

finite_number-within :
    (t a : ℕ) (r : Double)
    → finite_number (some (fin (pos 0))) (some (fin (pos t))) (float (fin (pos a))) ≡ ok r
    → (a ≤ t) × (r ≡ fin (pos a))
unfolding finite_number as_float lt
finite_number-within t a r h = ground arith

not_finite_number-negative :
    (t a : ℕ) (r : Double)
    → finite_number (some (fin (pos 0))) (some (fin (pos t))) (float (fin (ℤ.negsuc a))) ≡ ok r
    → ⊥
unfolding finite_number as_float lt
not_finite_number-negative t a r h = ground arith

-- A rate that is accepted is one.
pub rate-IsRate : (d r : Double) → IsRepresentable d → rate (float d) ≡ ok r → IsRate r × (r ≡ d)
unfolding finite_number as_float lt
rate-IsRate (fin (ℤ.pos a)) r g h =
    let (le, same) = finite_number-within one_units a r h in
    (record { units = a; equal = same; bounded = le; exact = g (pos a) refl }, same)
rate-IsRate (fin (ℤ.negsuc a)) r g h = absurd (not_finite_number-negative one_units a r h)
rate-IsRate Double.inf r g h = cc
rate-IsRate Double.minus_inf r g h = cc
rate-IsRate Double.nan r g h = cc

-- The rates in use are doubles between 0 and 1.
pub record IsFair (c : Rates) : Type 0 where
  pub gain : IsRate c.gain
  pub sanction : IsRate c.sanction

-- What a call that answers returns is between 0 and 1; after a confirmation it is no lower than the
-- party's reputation was, and after a discrepancy no higher.
pub record_reconciliation-IsMoved :
    (c : Rates) (w : RepWrite) (now : Double) (party : Text) (confirmed : Bool) (f : RepFile)
    (reps : Reps) (r : Double)
    → IsFair c
    → load c f ≡ ok reps
    → IsRepresentable (or_new c.prior (lookup party reps)).reputation
    → (record_reconciliation c w now party confirmed f).0 ≡ ok r
    → IsMoved confirmed (or_new c.prior (lookup party reps)).reputation r
      × (le zero_double r ≡ true)
      × (le r one_double ≡ true)
unfolding record_reconciliation record_loaded
record_reconciliation-IsMoved c w now party confirmed f reps r fair loaded exact h =
    let e = or_new c.prior (lookup party reps) in
    let at_loaded : (record_loaded c w now party confirmed f (ok reps)).0 ≡ ok r =
      subst (λ l. (record_loaded c w now party confirmed f l).0 ≡ ok r) loaded h in
    let (new, made, same) = persist-ok c w party reps f (outcome c confirmed now e) r at_loaded in
    let (old, checked, updated) = outcome-ok c confirmed now e new made in
    let (is_rate, kept) = rate-IsRate e.reputation old exact checked in
    let (d, clamped) = updated_rep-clamped c confirmed now e old in
    let value : r ≡ (updated_rep c confirmed now e old).reputation =
      same ∙ ap (λ x. x.reputation) updated in
    (
      subst₂ (λ a b. IsMoved confirmed a b) kept (sym value)
          (updated_rep-IsMoved c confirmed now e old fair.gain fair.sanction is_rate),
      subst (λ x. le zero_double x ≡ true) (sym (value ∙ clamped)) (clamp-bounds d).0,
      subst (λ x. le x one_double ≡ true) (sym (value ∙ clamped)) (clamp-bounds d).1,
    )
