-- ===== src/Settlement/Appended.antt =====
-- What `_record_settled` leaves behind: the entry that it appends reads back, extends a verified chain and
-- adds its amount to the party's total.
use kry.Base.{
  ℕ, suc, ◌*◌, ◌≡◌, refl, false, List, [], ◌∷◌, ◌++◌, arith, subst, none, some, if◌then◌else◌,
}
use kry.Base.Int.{pos}
use kry.Base.Results.{ok, ok-injective, >>=-eq-ok}
use kry.Base.Texts.{Text, text_eq, text_eq_iff}
use kry.Base.Dicts.{lookup-insert}
use native.Mathlib.Nat.{mul-mod_left, mul-div_left}
use kry.Double.{Double, fin, add, zero_double, one_units, IsCountable, lt}
use kry.Python.{
  Value, str, int, float, finite_number, positive, nonnegative, as_float, finite_or_overflow,
  below_bound, finite_number_sound,
}
use kry.Settlement.Host.{Host}
use kry.Settlement.Grants.{single, parse_grants, is_empty}
use kry.Settlement.Entries.{
  text_of, nonempty_text_of, as_value_error, RawEntry, Line, object, blank, malformed, Entry,
  parse_entry, entries_of, tip_file, read_tip, whole,
}
use kry.Settlement.Chain.{
  expected_hash, check_chain, last_hash, Totals, total_of, add_entry, totals_from,
}
use kry.Settlement.Record.{settled_entry}

-- A validated amount is accepted again as it is.
pub finite_number-float :
    (v : Value) (a : Double)
    → finite_number v positive ≡ ok a
    → finite_number (float a) positive ≡ ok a
unfolding finite_number as_float
finite_number-float v a h = ground (arith, finite_number_sound v positive a h)

-- The entry that a line for one settlement stands for.
abbrev pub new_entry : Text → Text → Double → Text → Text → Entry
new_entry party prev a g hash = record {
  party = party;
  amount = a;
  prev_hash = prev;
  entry_hash = hash;
  grants = single g;
}

pub parse_entry-settled :
    (v : Value) (party prev g hash : Text) (a : Double)
    → finite_number v positive ≡ ok a
    → is_empty party ≡ false
    → parse_grants (some (str g)) none ≡ ok (single g)
    → parse_entry (settled_entry party prev a g hash) ≡ ok (new_entry party prev a g hash)
unfolding parse_entry text_of nonempty_text_of
parse_entry-settled v party prev g hash a hv hp hg = rw (finite_number-float v a hv, hp, hg)

-- The entries of a longer file.
pub entries_of-append :
    (ls : List Line) (es : List Entry) (r : RawEntry) (e : Entry)
    → entries_of ls ≡ ok es
    → parse_entry r ≡ ok e
    → entries_of (ls ++ object r ∷ []) ≡ ok (es ++ e ∷ [])
unfolding entries_of
entries_of-append [] es r e h p = rw p (cc)
entries_of-append (blank ∷ ls) es r e h p = entries_of-append ls es r e h p
entries_of-append (malformed ∷ ls) es r e h p = cc
entries_of-append (object x ∷ ls) es r e h p =
    let (x', hx, rest) = >>=-eq-ok (as_value_error (parse_entry x)) _ h in
    let (xs, hxs, done) = >>=-eq-ok (entries_of ls) _ rest in
    subst (λ z. entries_of (object x ∷ ls ++ object r ∷ []) ≡ ok (z ++ e ∷ [])) (ok-injective done)
      (rw (hx, entries_of-append ls xs r e hxs p))

whole-units : (n : ℕ) → whole (fin (pos (n * one_units))) ≡ ok n
unfolding whole
whole-units n = rw (mul-mod_left n one_units, mul-div_left n {n = one_units} (omega arith))

nonnegative-pos : (x : ℕ) → lt (fin (pos x)) zero_double ≡ false
unfolding lt
nonnegative-pos x = ground arith

finite_number-count :
    (n : ℕ)
    → IsCountable n
    → finite_number (int (pos n)) nonnegative ≡ ok (fin (pos (n * one_units)))
unfolding finite_number as_float finite_or_overflow below_bound
finite_number-count n c = rw (c, nonnegative-pos (n * one_units))

-- The checkpoint that `_write_tip` writes reads back.
pub read_tip-tip_file :
    (n : ℕ) (s : Text)
    → IsCountable n
    → read_tip (tip_file n s) ≡ ok (some (record { count = n; tip = s }))
unfolding read_tip text_of
read_tip-tip_file n s c = rw (finite_number-count n c, whole-units n)

-- One more entry adds its amount to the total of its party, and to no other.
pub total_of-add_entry :
    (d : Totals) (e : Entry) (p : Text)
    → total_of p (add_entry d e)
      ≡ (if text_eq e.party p then add (total_of e.party d) e.amount else total_of p d)
unfolding total_of add_entry
total_of-add_entry d e p =
    rw (lookup-insert e.party p (add (total_of e.party d) e.amount) d) (ground arith)

pub totals_from-append :
    (d : Totals) (es : List Entry) (e : Entry)
    → totals_from d (es ++ e ∷ []) ≡ add_entry (totals_from d es) e
unfolding totals_from
totals_from-append d [] e = refl
totals_from-append d (x ∷ es) e = totals_from-append (add_entry d x) es e

module _ (h : Host) where
  -- Without a problem at the head, the recorded hash is the expected one.
  pub verified_head :
      (p : Text) (i : ℕ) (e : Entry) (es : List Entry)
      → (check_chain h p i (e ∷ es)).0 ≡ []
      → (e.entry_hash ≡ expected_hash h p e) × ((check_chain h e.entry_hash (suc i) es).0 ≡ [])
  unfolding check_chain
  verified_head p i e es v = ground (arith, text_eq_iff e.entry_hash (expected_hash h p e))

  -- A chain without problems is extended by an entry with the expected hash.
  pub check_chain-append :
      (p : Text) (i : ℕ) (es : List Entry) (e : Entry)
      → (check_chain h p i es).0 ≡ []
      → e.entry_hash ≡ expected_hash h (last_hash p es) e
      → check_chain h p i (es ++ e ∷ []) ≡ ([], e.entry_hash)
  unfolding check_chain last_hash
  check_chain-append p i [] e v x = ground (arith, text_eq_iff e.entry_hash (expected_hash h p e))
  check_chain-append p i (y ∷ es) e v x =
      let (head, tail) = verified_head p i y es v in
      rw (
        check_chain-append y.entry_hash (suc i) es e tail x,
        (text_eq_iff y.entry_hash (expected_hash h p y)).1 head,
      )
