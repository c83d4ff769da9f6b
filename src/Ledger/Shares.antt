-- ===== src/Ledger/Shares.antt =====
-- Every rate and every multiplier is a number from 0 to 1.
use kry.Base.{
  ℕ, ◌-◌, ◌*◌, ◌≤◌, ◌≡◌, refl, sym, ◌∙◌, subst, subst₂, arith, Bool, true, false, ltb,
  if◌then◌else◌, Option, none, some, List, [], ◌∷◌, ◌⊎◌, inl, inr, Bool-cases,
}
use kry.Base.Int.{ℤ, pos}
use kry.Base.Texts.{Text, text_eq}
use kry.Base.Dicts.{lookup}
use native.Mathlib.Nat.{mul-le-mul}
use kry.Double.{Double, fin, le, lt, sub, literal, one_units, IsDouble, zero_double}
use kry.Double.Products.{mul}
use kry.Double.Order.{
  round_to-le, mul-pos, sub-pos, one_exact, quotient-pos, round_to-cases, lt-sub,
}
use kry.Ledger.Prices.{
  model_output_usd_per_m, earn_rates, or_rate, frontier_share, share_of, any_part, is_unknown,
  is_free, key_of, priced_parts, priced_multiplier, model_parts, net_of, net_served, net_priced,
  net_value_multiplier,
}

-- From 0.0 to 1.0.
pub record IsShare (d : Double) : Type 0 where
  pub units : ℕ
  pub equal : d ≡ fin (pos units)
  pub bounded : units ≤ one_units

IsShareOrNone : Option Double → Type 0
IsShareOrNone o = (d : Double) → o ≡ some d → IsShare d

pub one-IsShare : IsShare (literal 1 1)
unfolding literal
one-IsShare = record { units = one_units; equal = refl; bounded = omega arith }

zero-IsShare : IsShare zero_double
zero-IsShare = record { units = 0; equal = refl; bounded = omega arith }

-- r * x, for x at most 1.0, is at most any double that r is at most.
pub shrunk :
    (a r : ℕ) (d : Double)
    → IsDouble (pos a)
    → r ≤ a
    → IsShare d
    → (v : ℕ) × (mul (fin (pos r)) d ≡ fin (pos v)) × (v ≤ a)
shrunk a r d exact le g =
    let (v, e, small) =
      round_to-le (r * g.units) a one_units (omega arith) (mul-le-mul le g.bounded) exact in
    (v, rw g.equal (mul-pos r g.units ∙ e), small)

-- The answers of a table.
pub All : (Double → Type 0) → List (Text × Double) → Type 0
All p [] = Unit {0}
All p ((k, d) ∷ t) = p d × All p t

some-injective : {x d : Double} → some x ≡ some d → x ≡ d
some-injective e = cc

if_some :
    (b : Bool) (x d : Double) (o : Option Double)
    → (if b then some x else o) ≡ some d
    → (d ≡ x) ⊎ (o ≡ some d)
if_some true x d o h = inl cc
if_some false x d o h = inr h

pub lookup-All :
    (p : Double → Type 0) (k : Text) (t : List (Text × Double)) (d : Double)
    → All p t
    → lookup k t ≡ some d
    → p d
unfolding lookup All
lookup-All p k [] d a e = cc
lookup-All p k ((j, x) ∷ t) d a e = elim (if_some (text_eq j k) x d (lookup k t) e) [
  | inl same ↦ subst p (sym same) a.0
  | inr there ↦ lookup-All p k t d a.1 there
]

IsPositive : Double → Type 0
IsPositive d = (a : ℕ) × (d ≡ fin (pos a))

capped_at :
    (top v : ℕ)
    → (w : ℕ) × ((if lt (fin (pos v)) (fin (pos top)) then fin (pos v) else fin (pos top))
        ≡ fin (pos w))
      × (w ≤ top)
unfolding lt
capped_at top v = elim (Bool-cases (ltb v top)) [
  | inl less ↦ (v, ground arith, ground arith)
  | inr more ↦ (top, ground arith, omega arith)
]

frontier_share-IsShare : (d : Double) → IsPositive d → IsShare (frontier_share d)
unfolding frontier_share IsPositive
frontier_share-IsShare d (a, e) = elim (round_to-cases (a * one_units) (25 * one_units)) [
  | inl number ↦
      let (w, capped, small) = capped_at one_units number.0 in
      record {
        units = w;
        equal = rw (e, quotient-pos a (25 * one_units), number.1) capped;
        bounded = small;
      }
  | inr above ↦ record {
    units = one_units;
    equal = rw (e, quotient-pos a (25 * one_units), above) refl;
    bounded = omega arith;
  }
]

pick-IsShare : (b : Bool) (d : Double) → IsShare d → IsShare (if b then d else zero_double)
pick-IsShare true d g = g
pick-IsShare false d g = zero-IsShare

no_net :
    (d : Double)
    → lt zero_double d ≡ false
    → (if lt zero_double d then d else zero_double) ≡ zero_double
no_net d e = rw e refl

net_of-IsShare : (vm served : Double) → IsShare vm → IsShare served → IsShare (net_of vm served)
unfolding net_of
net_of-IsShare vm served g k = elim (Bool-cases (ltb g.units k.units)) [
  | inl less ↦
      subst IsShare
        (sym (
          no_net (sub vm served) (
            subst₂ (λ x y. lt zero_double (sub x y) ≡ false) (sym g.equal) (sym k.equal)
              (lt-sub g.units k.units (ground arith)))))
        zero-IsShare
  | inr more ↦
      let le : k.units ≤ g.units = ground arith in
      let (v, e, small) =
        round_to-le (g.units - k.units) one_units 1 (omega arith) (omega (arith, g.bounded))
          one_exact in
      pick-IsShare (lt zero_double (sub vm served)) (sub vm served) (record {
        units = v;
        equal = rw (g.equal, k.equal) (sub-pos g.units k.units le ∙ e);
        bounded = small;
      })
]

unit_count : Double → ℕ
unit_count (fin (ℤ.pos a)) = a
unit_count _ = 0

prices-IsPositive : All IsPositive model_output_usd_per_m
unfolding All IsPositive model_output_usd_per_m literal
prices-IsPositive = (
  (_, refl),
  (
    (_, refl),
    (
      (_, refl),
      (
        (_, refl),
        (
          (_, refl),
          (
            (_, refl),
            (
              (_, refl),
              (
                (_, refl),
                (
                  (_, refl),
                  ((_, refl), ((_, refl), ((_, refl), ((_, refl), ((_, refl), ((_, refl), tt)))))),
                ),
              ),
            ),
          ),
        ),
      ),
    ),
  ),
)

pub rates_shared : All IsShare earn_rates
unfolding All earn_rates literal unit_count
rates_shared = (
  one-IsShare,
  (
    record { units = unit_count (literal 8 10); equal = refl; bounded = omega arith },
    (
      one-IsShare,
      (
        record { units = unit_count (literal 6 10); equal = refl; bounded = omega arith },
        (
          record { units = unit_count (literal 7 10); equal = refl; bounded = omega arith },
          (
            zero-IsShare,
            (record { units = unit_count (literal 1 10); equal = refl; bounded = omega arith }, tt),
          ),
        ),
      ),
    ),
  ),
)

share_of-IsShare :
    (o : Option Double) (d : Double)
    → ((x : Double) → o ≡ some x → IsPositive x)
    → share_of o ≡ some d
    → IsShare d
unfolding share_of
share_of-IsShare none d g e = cc
share_of-IsShare (some x) d g e =
    subst IsShare (some-injective e) (frontier_share-IsShare x (g x refl))

chosen-IsShare :
    (b c : Bool) (o : Option Double) (d : Double)
    → ((x : Double) → o ≡ some x → IsShare x)
    → (if b then none else (if c then some zero_double else o)) ≡ some d
    → IsShare d
chosen-IsShare true c o d g e = cc
chosen-IsShare false true o d g e = subst IsShare (some-injective e) zero-IsShare
chosen-IsShare false false o d g e = g d e

priced_parts-IsShare : (ps : List Text × Text) (d : Double) → priced_parts ps ≡ some d → IsShare d
unfolding priced_parts
priced_parts-IsShare (ps, last) d e =
    let price = lookup (key_of last) model_output_usd_per_m in
    chosen-IsShare (any_part is_unknown ps) (any_part is_free ps) (share_of price) d
      (λ x h.
        share_of-IsShare price x
          (λ y k. lookup-All IsPositive (key_of last) model_output_usd_per_m y prices-IsPositive k)
          h)
      e

priced_multiplier-IsShare :
    (lower : Text → Text) (m : Option Text) (d : Double)
    → priced_multiplier lower m ≡ some d
    → IsShare d
unfolding priced_multiplier
priced_multiplier-IsShare lower none d e = subst IsShare (some-injective e) one-IsShare
priced_multiplier-IsShare lower (some m) d e = priced_parts-IsShare (model_parts (lower m)) d e

net_served-IsShare :
    (vm : Double) (o : Option Double)
    → IsShare vm
    → ((x : Double) → o ≡ some x → IsShare x)
    → IsShare (net_served vm o)
unfolding net_served
net_served-IsShare vm none g k = zero-IsShare
net_served-IsShare vm (some x) g k = net_of-IsShare vm x g (k x refl)

net_priced-IsShare :
    (lower : Text → Text) (o : Option Double) (served : Option Text)
    → ((x : Double) → o ≡ some x → IsShare x)
    → IsShare (net_priced lower o served)
unfolding net_priced
net_priced-IsShare lower none served g = zero-IsShare
net_priced-IsShare lower (some vm) none g = g vm refl
net_priced-IsShare lower (some vm) (some s) g =
    net_served-IsShare vm (priced_multiplier lower (some s)) (g vm refl)
      (priced_multiplier-IsShare lower (some s))

pub rate-IsShare :
    (o : Option Double)
    → ((x : Double) → o ≡ some x → IsShare x)
    → IsShare (or_rate (literal 1 2) o)
unfolding literal unit_count
rate-IsShare none g = record {
  units = unit_count (literal 1 2);
  equal = refl;
  bounded = omega arith;
}
rate-IsShare (some x) g = g x refl

pub net_value_multiplier-IsShare :
    (lower : Text → Text) (avoided served : Option Text)
    → IsShare (net_value_multiplier lower avoided served)
unfolding net_value_multiplier
net_value_multiplier-IsShare lower avoided served =
    net_priced-IsShare lower (priced_multiplier lower avoided) served
      (priced_multiplier-IsShare lower avoided)
