-- ===== src/Sanctions/Reputation.antt =====
-- `reputation`, `record_reconciliation` and `audit_rate_for`.  A call holds both locks throughout.
use kry.Base.{◌+◌, Bool, true, false, if◌then◌else◌, Option, none, some}
use kry.Base.Texts.{Text}
use kry.Base.Dicts.{lookup, insert}
use kry.Base.Results.{Result, ok, err, value_error, ◌>>=◌}
use kry.Double.{Double, zero_double, add, sub, lt}
use kry.Double.Products.{mul}
use kry.Json.Values.{float}
use kry.Sanctions.Store.{
  Rates, Rep, Reps, RepFile, RepWrite, load, save, rate, finite_number, one_double,
}

-- `max(0.0, min(1.0, r))`
unfoldable pub clamp : Double → Double
unfolding lt
clamp r =
    let m = if lt r one_double then r else one_double in if lt zero_double m then m else zero_double

abbrev pub new_rep : Double → Rep
new_rep prior = record { reputation = prior; confirmed = 0; discrepancy = 0; updated = zero_double }

abbrev pub or_new : Double → Option Rep → Rep
or_new prior none = new_rep prior
or_new prior (some e) = e

unfoldable pub confirmed_reputation : Rates → Double → Double
unfolding add mul sub
confirmed_reputation c r = add r (mul c.gain (sub one_double r))

unfoldable pub sanctioned_reputation : Rates → Double → Double
unfolding add mul sub
sanctioned_reputation c r = mul r (sub one_double c.sanction)

-- The entry after the outcome; r is its reputation before.
unfoldable pub updated_rep : Rates → Bool → Double → Rep → Double → Rep
unfolding clamp confirmed_reputation sanctioned_reputation
updated_rep c true now e r = record e {
  reputation = clamp (confirmed_reputation c r);
  confirmed = e.confirmed + 1;
  updated = now;
}
updated_rep c false now e r = record e {
  reputation = clamp (sanctioned_reputation c r);
  discrepancy = e.discrepancy + 1;
  updated = now;
}

abbrev pub returned : Double → Result (Unit {0}) × RepFile → Result Double × RepFile
returned r (ok u, f) = (ok r, f)
returned r (err e, f) = (err e, f)

unfoldable pub persist :
    Rates → RepWrite → Text → Reps → RepFile → Result Rep → Result Double × RepFile
unfolding save insert
persist c w party reps f (err e) = (err e, f)
persist c w party reps f (ok e) = returned e.reputation (save c w (insert party e reps) f)

abbrev pub outcome : Rates → Bool → Double → Rep → Result Rep
outcome c confirmed now e = do r ← rate (float e.reputation); ok (updated_rep c confirmed now e r)

-- A file that does not load answers 0.0, when the error is a ValueError.
unfoldable pub record_loaded :
    Rates → RepWrite → Double → Text → Bool → RepFile → Result Reps → Result Double × RepFile
unfolding persist updated_rep finite_number lookup
record_loaded c w now party confirmed f (ok reps) =
    persist c w party reps f (outcome c confirmed now (or_new c.prior (lookup party reps)))
record_loaded c w now party confirmed f (err value_error) = (ok zero_double, f)
record_loaded c w now party confirmed f (err e) = (err e, f)

unfoldable pub record_reconciliation :
    Rates → RepWrite → Double → Text → Bool → RepFile → Result Double × RepFile
unfolding record_loaded load
record_reconciliation c w now party confirmed f = record_loaded c w now party confirmed f (load c f)

abbrev pub reputation_in : Rates → Text → Result Reps → Result Double
reputation_in c party (ok reps) = ok (or_new c.prior (lookup party reps)).reputation
reputation_in c party (err value_error) = ok zero_double
reputation_in c party (err e) = err e

unfoldable pub reputation : Rates → RepFile → Text → Result Double
unfolding load lookup
reputation c f party = reputation_in c party (load c f)

-- h_min + (1.0 - r) * (h_max - h_min)
unfoldable pub audit_rate : Double → Double → Double → Double
unfolding add mul sub
audit_rate h_min h_max r = add h_min (mul (sub one_double r) (sub h_max h_min))

unfoldable pub audit_rate_for : Rates → RepFile → Text → Double → Double → Result Double
unfolding reputation finite_number audit_rate
audit_rate_for c f party h_min h_max = do
  low ← rate (float h_min)
  high ← finite_number (some low) (some one_double) (float h_max)
  r ← reputation c f party
  ok (audit_rate low high r)
