-- ===== src/Sanctions/Tests.antt =====
-- A party that is confirmed once and sanctioned once.
use kry.Base.{ℕ, ◌^◌, ◌≡◌, refl, subst, arith, Bool, true, false, none, []}
use kry.Base.Int.{ℤ, pos, pos_part}
use kry.Base.Texts.{Text, codes, text_eq}
use kry.Base.Dicts.{lookup, insert}
use kry.Base.Results.{Result, ok, err, overflow_error, os_error}
use kry.Double.{
  Double, fin, is_finite, lt, le, literal, of_int, add, sub, zero_double, one_units, round_to,
  IsDouble,
}
use kry.Double.Products.{mul, quotient, round_decimals}
use kry.Json.Values.{int, float, obj, end, field, get, get_or}
use kry.Sanctions.Store.{
  Rates, unset, rates_of, RepFile, absent, parsed, replaced, lost, load, one_double, finite_number,
  save,
}
use kry.Sanctions.Reputation.{or_new, record_reconciliation, reputation, audit_rate_for}
use kry.Sanctions.Economics.{min_audit_rate, honesty_is_stable, Stability}
use kry.Sanctions.Within.{IsWithin, reputation-IsWithin}
use kry.Sanctions.Direction.{IsFair, IsMoved, IsRepresentable, record_reconciliation-IsMoved}
use kry.Sanctions.Audit.{audit_rate_for-trusted}
use kry.Sanctions.Closed.{record_reconciliation_closed, huge_reputation_raises}

evaluated : ℕ
unfolding rates_of load record_reconciliation reputation audit_rate_for literal of_int add sub mul
    quotient round_decimals round_to lt le finite_number get get_or text_eq lookup insert save
evaluated = 0

rates : Rates
unfolding evaluated
rates =
    rates_of (record {
      prior = unset;
      gain = unset;
      sanction = unset;
      audit_min = unset;
      audit_max = unset;
    })

units_of : Double → ℕ
units_of (fin a) = pos_part a
units_of _ = 0

rates-IsFair : IsFair rates
unfolding evaluated rates units_of
rates-IsFair = record {
  gain = record {
    units = units_of (literal 1 5);
    equal = refl;
    bounded = omega arith;
    exact = refl;
  };
  sanction = record {
    units = units_of (literal 1 2);
    equal = refl;
    bounded = omega arith;
    exact = refl;
  };
}

fin-injective : {a b : ℤ} → fin a ≡ fin b → a ≡ b
fin-injective e = cc

representable : (x : ℤ) → IsDouble x → IsRepresentable (fin x)
representable x h a e = subst IsDouble (fin-injective e) h

half : IsRepresentable (literal 1 2)
unfolding evaluated units_of
half = representable (pos (units_of (literal 1 2))) refl

three_fifths : IsRepresentable (literal 3 5)
unfolding evaluated units_of
three_fifths = representable (pos (units_of (literal 3 5))) refl

fiftieth : IsRepresentable (literal 1 50)
unfolding evaluated units_of
fiftieth = representable (pos (units_of (literal 1 50))) refl

whole_one : IsRepresentable one_double
unfolding evaluated
whole_one = representable (pos one_units) refl

abbrev ann : Text
ann = codes "ann"

abbrev bob : Text
bob = codes "bob"

-- The file after a confirmation of ann.
confirmed_file : RepFile
unfolding evaluated
confirmed_file = (record_reconciliation rates replaced (literal 7 1) ann true absent).1

ann_confirmed :
    (record_reconciliation rates replaced (literal 7 1) ann true absent).0 ≡ ok (literal 3 5)
unfolding evaluated rates
ann_confirmed = refl

nothing_loaded : load rates absent ≡ ok []
unfolding evaluated
nothing_loaded = refl

new_half : IsRepresentable (or_new rates.prior none).reputation
unfolding evaluated rates units_of
new_half = representable (pos (units_of (literal 1 2))) refl

record_reconciliation-IsMoved_example :
    IsMoved true (or_new rates.prior none).reputation (literal 3 5)
    × (le zero_double (literal 3 5) ≡ true)
    × (le (literal 3 5) one_double ≡ true)
unfolding lookup rates
record_reconciliation-IsMoved_example =
    record_reconciliation-IsMoved rates replaced (literal 7 1) ann true absent [] (literal 3 5)
      rates-IsFair nothing_loaded new_half ann_confirmed

ann_reputation : reputation rates confirmed_file ann ≡ ok (literal 3 5)
unfolding evaluated rates confirmed_file
ann_reputation = refl

bob_reputation : reputation rates confirmed_file bob ≡ ok (literal 1 2)
unfolding evaluated rates confirmed_file
bob_reputation = refl

ann_audit :
    audit_rate_for rates confirmed_file ann (literal 1 50) one_double
    ≡ ok (literal 41200000000000003 (10 ^ 17))
unfolding evaluated rates confirmed_file
ann_audit = refl

bob_audit : audit_rate_for rates confirmed_file bob (literal 1 50) one_double ≡ ok (literal 51 100)
unfolding evaluated rates confirmed_file
bob_audit = refl

prior-IsWithin : IsWithin rates.prior
unfolding evaluated rates
prior-IsWithin = (refl, refl)

ordered : le (literal 1 2) (literal 3 5) ≡ true
unfolding evaluated
ordered = refl

audit_rate_for-trusted_example :
    (le (literal 41200000000000003 (10 ^ 17)) (literal 51 100) ≡ true)
    × (le (literal 1 50) (literal 41200000000000003 (10 ^ 17)) ≡ true)
audit_rate_for-trusted_example =
    audit_rate_for-trusted rates confirmed_file bob ann (literal 1 50) one_double (literal 1 2)
      (literal 3 5) (literal 51 100) (literal 41200000000000003 (10 ^ 17)) prior-IsWithin fiftieth
      whole_one half three_fifths bob_reputation ann_reputation ordered bob_audit ann_audit

lost_write :
    (record_reconciliation rates lost (literal 7 1) ann false confirmed_file).0 ≡ err os_error
unfolding evaluated rates confirmed_file
lost_write = refl

record_reconciliation_closed_example :
    (record_reconciliation rates lost (literal 7 1) ann false confirmed_file).1 ≡ confirmed_file
record_reconciliation_closed_example =
    record_reconciliation_closed rates lost (literal 7 1) ann false confirmed_file os_error
      lost_write

huge : is_finite (of_int (pos (10 ^ 400))) ≡ false
unfolding evaluated
huge = refl

huge_reputation_raises_example :
    reputation rates
      (parsed (obj (field ann (obj (field (codes "reputation") (int (pos (10 ^ 400))) end)) end)))
      bob
    ≡ err overflow_error
huge_reputation_raises_example =
    huge_reputation_raises rates b'a' (codes "nn") bob (pos (10 ^ 400)) end end huge

-- At a penalty of 48, the audit rate that is asked for is judged too low, by rounding.
stable_of : Result Stability → Result Bool
stable_of (ok s) = ok s.honesty_stable
stable_of (err x) = err x

stable_at : Result Double → Result Bool
unfolding evaluated honesty_is_stable min_audit_rate
stable_at (ok h) = stable_of (honesty_is_stable (float h) (int (pos 48)))
stable_at (err x) = err x

least_rate_refused : stable_at (min_audit_rate (int (pos 48))) ≡ ok false
unfolding evaluated stable_at honesty_is_stable min_audit_rate stable_of
least_rate_refused = refl

reputation-IsWithin_example : IsWithin (literal 3 5)
reputation-IsWithin_example =
    reputation-IsWithin rates confirmed_file ann (literal 3 5) prior-IsWithin ann_reputation
