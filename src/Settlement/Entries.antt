-- ===== src/Settlement/Entries.antt =====
-- The registry file and its tip checkpoint, and how kry_settlement.py reads them: `_registry_entries`,
-- `_read_tip`.  The file is a list of lines; a line that `json.loads` refuses, or whose value is no
-- object, is `malformed`.
use kry.Base.{◌≡◌, ℕ, ◌/◌, ◌%◌, ◌==◌, if◌then◌else◌, Option, none, some, List, [], ◌∷◌}
use kry.Base.Int.{pos}
use kry.Base.Texts.{Text}
use kry.Base.Results.{Result, ok, err, value_error, attribute_error, ◌>>=◌, ◌>>◌, raise_if}
use kry.Double.{Double, fin, one_units}
use kry.Python.{Value, none_value, str, int, finite_number, positive, nonnegative}
use kry.Settlement.Grants.{Grants, parse_grants, is_empty}

-- The keys of a parsed line that the code looks at.
pub record RawEntry : Type 0 where
  pub party : Option Value
  pub amount : Option Value
  pub prev_hash : Option Value
  pub entry_hash : Option Value
  pub grant_id : Option Value
  pub grant_ids : Option Value

pub data Line : Type 0 where
  blank : Line
  malformed : Line
  object : RawEntry → Line

-- A validated entry.
pub record Entry : Type 0 where
  pub party : Text
  pub amount : Double
  pub prev_hash : Text
  pub entry_hash : Text
  pub grants : Grants

-- `d.get(k)` for a key that may be missing.
abbrev pub or_none : Option Value → Value
or_none none = none_value
or_none (some v) = v

unfoldable pub text_of : Value → Result Text
text_of (str s) = ok s
text_of _ = err value_error

unfoldable pub nonempty_text_of : Value → Result Text
unfolding text_of
nonempty_text_of v = do s ← text_of v; raise_if (is_empty s) value_error; ok s

-- The checks on one line, in the order of the code.
unfoldable pub parse_entry : RawEntry → Result Entry
parse_entry r = do
  amount ← finite_number (or_none r.amount) positive
  party ← nonempty_text_of (or_none r.party)
  prev ← text_of (or_none r.prev_hash)
  hash ← text_of (or_none r.entry_hash)
  grants ← parse_grants r.grant_id r.grant_ids
  ok (record {
    party = party;
    amount = amount;
    prev_hash = prev;
    entry_hash = hash;
    grants = grants;
  })

-- `except Exception as exc: raise ValueError(...) from exc`
abbrev pub as_value_error {ℓ} : {A : Type ℓ} → Result A → Result A
as_value_error (ok a) = ok a
as_value_error (err _) = err value_error

pub as_value_error-ok {ℓ} : {A : Type ℓ} (r : Result A) (a : A) → as_value_error r ≡ ok a → r ≡ ok a
as_value_error-ok (ok b) a h = h
as_value_error-ok (err e) a h = cc

unfoldable pub entries_of : List Line → Result (List Entry)
entries_of [] = ok []
entries_of (blank ∷ ls) = entries_of ls
entries_of (malformed ∷ ls) = err value_error
entries_of (object r ∷ ls) = do e ← as_value_error (parse_entry r); es ← entries_of ls; ok (e ∷ es)

-- The lines of the file; a missing file reads as none.
abbrev pub lines_of : Option (List Line) → List Line
lines_of none = []
lines_of (some ls) = ls

unfoldable pub registry_entries : Option (List Line) → Result (List Entry)
unfolding entries_of
registry_entries file = entries_of (lines_of file)

-- The checkpoint file: what `json.loads` makes of it, and the keys `count` and `tip` of an object.
pub data TipFile : Type 0 where
  missing : TipFile
  unparsable : TipFile
  not_object : TipFile
  tip_object : Option Value → Option Value → TipFile

pub record Tip : Type 0 where
  pub count : ℕ
  pub tip : Text

-- `float(count).is_integer()` and `int(count)`, of a number that is not negative.
unfoldable pub whole : Double → Result ℕ
whole (fin (pos n)) = if n % one_units == 0 then ok (n / one_units) else err value_error
whole _ = err value_error

abbrev pub count_or_zero : Option Value → Value
count_or_zero none = int (pos 0)
count_or_zero (some v) = v

unfoldable pub read_tip : TipFile → Result (Option Tip)
read_tip missing = ok none
read_tip unparsable = err value_error
read_tip not_object = err attribute_error
read_tip (tip_object c t) = do
  d ← finite_number (count_or_zero c) nonnegative
  n ← whole d
  s ← text_of (or_none t)
  ok (some (record { count = n; tip = s }))

-- What `_write_tip` puts into the file.
abbrev pub tip_file : ℕ → Text → TipFile
tip_file n s = tip_object (some (int (pos n))) (some (str s))

-- The registry of a node.
pub record Registry : Type 0 where
  pub file : Option (List Line)
  pub tip : TipFile
