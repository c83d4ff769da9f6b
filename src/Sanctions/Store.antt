-- ===== src/Sanctions/Store.antt =====
-- The reputation file: `_finite_number`, `_normalise_rep_state`, `_load` and `_save`.
use kry.Base.{ℕ, ◌/◌, ◌%◌, ◌==◌, Bool, false, not, if◌then◌else◌, Option, none, some, List, [], ◌∷◌}
use kry.Base.Int.{ℤ, pos}
use kry.Base.Texts.{Text, codes}
use kry.Base.Dicts.{insert}
use kry.Base.Results.{Result, ok, err, value_error, os_error, ◌>>=◌, ◌>>◌, raise_if}
use kry.Double.{Double, fin, is_finite, of_int, lt, literal, one_units, zero_double}
use kry.Python.{finite_or_overflow}
use kry.Json.Values.{Json, int, float, obj, Fields, end, field, get_or}

-- 1.0
abbrev pub one_double : Double
one_double = fin (pos one_units)

-- An environment variable: unset, no number, or the number it spells.
pub data Setting : Type 0 where
  unset not_a_number : Setting
  number : Double → Setting

unfoldable pub as_float : Json → Result Double
unfolding finite_or_overflow of_int
as_float (int n) = finite_or_overflow (of_int n)
as_float (float d) = ok d
as_float _ = err value_error

abbrev pub below : Option Double → Double → Bool
below none d = false
below (some bound) d = lt d bound

abbrev pub above : Option Double → Double → Bool
above none d = false
above (some bound) d = lt bound d

-- `_finite_number`, with its optional bounds.
unfoldable pub finite_number : Option Double → Option Double → Json → Result Double
unfolding as_float lt
finite_number minimum maximum v = do
  d ← as_float v
  raise_if (not (is_finite d)) value_error
  raise_if (below minimum d) value_error
  raise_if (above maximum d) value_error
  ok d

-- Between 0.0 and 1.0.
abbrev pub rate : Json → Result Double
rate v = finite_number (some zero_double) (some one_double) v

-- `value.is_integer()` and `int(value)`, of a value that is not negative.
unfoldable pub whole : Double → Result ℕ
whole (fin (ℤ.pos a)) = if a % one_units == 0 then ok (a / one_units) else err value_error
whole _ = err value_error

-- `_nonnegative_int`
unfoldable pub nonnegative_int : Json → Result ℕ
unfolding finite_number whole
nonnegative_int v = do d ← finite_number (some zero_double) none v; whole d

abbrev pub spelled : Setting → Double → Result Double
spelled unset default = ok default
spelled not_a_number default = err value_error
spelled (number d) default = ok d

-- What `except ValueError` leaves.
abbrev pub or_default : Double → Result Double → Double
or_default default (ok d) = d
or_default default (err e) = default

-- `_rate_env`
unfoldable pub rate_env : Setting → Double → Double
unfolding finite_number
rate_env s default = or_default default (do d ← spelled s default; rate (float d))

-- The module's constants.
pub record Rates : Type 0 where
  pub prior : Double
  pub gain : Double
  pub sanction : Double
  pub audit_min : Double
  pub audit_max : Double

pub record Settings : Type 0 where
  pub prior : Setting
  pub gain : Setting
  pub sanction : Setting
  pub audit_min : Setting
  pub audit_max : Setting

unfoldable pub rates_of : Settings → Rates
unfolding rate_env literal
rates_of s = record {
  prior = rate_env s.prior (literal 1 2);
  gain = rate_env s.gain (literal 1 5);
  sanction = rate_env s.sanction (literal 1 2);
  audit_min = rate_env s.audit_min (literal 1 50);
  audit_max = rate_env s.audit_max one_double;
}

pub record Rep : Type 0 where
  pub reputation : Double
  pub confirmed : ℕ
  pub discrepancy : ℕ
  pub updated : Double

abbrev pub Reps : Type 0
Reps = List (Text × Rep)

module _ (c : Rates) where
  unfoldable pub rep_of : Fields → Result Rep
  unfolding finite_number nonnegative_int get_or
  rep_of d = do
    r ← rate (get_or (codes "reputation") (float c.prior) d)
    n ← nonnegative_int (get_or (codes "confirmed") (int (pos 0)) d)
    m ← nonnegative_int (get_or (codes "discrepancy") (int (pos 0)) d)
    t ← finite_number (some zero_double) none (get_or (codes "updated") (float zero_double) d)
    ok (record { reputation = r; confirmed = n; discrepancy = m; updated = t })

  unfoldable pub entry_of : Text → Json → Result Rep
  unfolding rep_of
  entry_of [] v = err value_error
  entry_of (k ∷ party) (obj d) = rep_of d
  entry_of (k ∷ party) v = err value_error

  -- The loop over the parties.
  unfoldable pub normalise_from : Fields → Reps → Result Reps
  unfolding entry_of insert
  normalise_from end out = ok out
  normalise_from (field party v d) out = do
    e ← entry_of party v
    normalise_from d (insert party e out)

  -- `_normalise_rep_state`
  unfoldable pub normalise_rep_state : Json → Result Reps
  unfolding normalise_from
  normalise_rep_state (obj d) = normalise_from d []
  normalise_rep_state v = err value_error

-- The file: absent, no JSON, or a JSON value.
pub data RepFile : Type 0 where
  absent unparseable : RepFile
  parsed : Json → RepFile

-- `_load`
unfoldable pub load : Rates → RepFile → Result Reps
unfolding normalise_rep_state
load c absent = ok []
load c unparseable = err value_error
load c (parsed v) = normalise_rep_state c v

unfoldable pub rep_fields : Rep → Fields
rep_fields e = field (codes "reputation") (float e.reputation) (
    field (codes "confirmed") (int (pos e.confirmed)) (
      field (codes "discrepancy") (int (pos e.discrepancy))
        (field (codes "updated") (float e.updated) end)))

-- The state as `_save` hands it to the JSON text.
unfoldable pub reps_json : Reps → Fields
unfolding rep_fields
reps_json [] = end
reps_json ((party, e) ∷ reps) = field party (obj (rep_fields e)) (reps_json reps)

-- Whether the new file replaces the old one.
pub data RepWrite : Type 0 where
  replaced lost : RepWrite

abbrev pub written : RepWrite → RepFile → Reps → Result (Unit {0}) × RepFile
written replaced f reps = (ok tt, parsed (obj (reps_json reps)))
written lost f reps = (err os_error, f)

abbrev pub save_normalised : RepWrite → RepFile → Result Reps → Result (Unit {0}) × RepFile
save_normalised w f (ok reps) = written w f reps
save_normalised w f (err e) = (err e, f)

-- `_save`: the state is normalised before it is written.
unfoldable pub save : Rates → RepWrite → Reps → RepFile → Result (Unit {0}) × RepFile
unfolding normalise_rep_state reps_json
save c w reps f = save_normalised w f (normalise_rep_state c (obj (reps_json reps)))
