-- ===== src/Sanctions/Within.antt =====
-- Every reputation that is read is between 0 and 1.
use kry.Base.{
  ℕ, ◌≡◌, refl, sym, ap, ◌∙◌, subst, arith, Bool, true, false, not, if◌then◌else◌, ◌⊎◌, inl, inr,
  Option, none, some, [], ◌∷◌,
}
use kry.Base.Int.{ℤ, pos}
use kry.Base.Texts.{Text, codes, text_eq}
use kry.Base.Dicts.{lookup, insert, lookup-insert}
use kry.Base.Results.{Result, ok, err, value_error, ◌>>=◌, ◌>>◌, raise_if, >>=-eq-ok, ok-injective}
use kry.Json.Values.{Json, int, float, obj, Fields, end, field, get_or}
use kry.Double.{is_finite, Double, fin, le, lt, one_units, zero_double}
use kry.Sanctions.Store.{
  one_double, Rates, Rep, Reps, RepFile, absent, parsed, as_float, finite_number, rate,
  nonnegative_int, rep_of, entry_of, normalise_from, normalise_rep_state, load,
}
use kry.Sanctions.Reputation.{reputation, or_new, reputation_in}

-- Between 0.0 and 1.0.
abbrev pub IsWithin : Double → Type 0
IsWithin d = (le zero_double d ≡ true) × (le d one_double ≡ true)

after_float : ℕ → Double → Result Double
after_float t d = do
  raise_if (not (is_finite d)) value_error
  raise_if (lt d zero_double) value_error
  raise_if (lt (fin (pos t)) d) value_error
  ok d

checked_at :
    (t : ℕ) (x d : Double)
    → after_float t x ≡ ok d
    → (le zero_double d ≡ true) × (le d (fin (pos t)) ≡ true)
unfolding after_float le lt
checked_at t (fin (ℤ.pos a)) d h = ground arith
checked_at t (fin (ℤ.negsuc a)) d h = ground arith
checked_at t Double.inf d h = cc
checked_at t Double.minus_inf d h = cc
checked_at t Double.nan d h = cc

within_at :
    (t : ℕ) (v : Json) (d : Double)
    → finite_number (some zero_double) (some (fin (pos t))) v ≡ ok d
    → (le zero_double d ≡ true) × (le d (fin (pos t)) ≡ true)
unfolding finite_number after_float
within_at t v d h =
    let (x, read, rest) = >>=-eq-ok (as_float v) (after_float t) h in checked_at t x d rest

zero-IsWithin : IsWithin zero_double
unfolding le
zero-IsWithin = (refl, refl)

-- Every reputation of a state.
IsRated : Reps → Type 0
IsRated reps = (k : Text) (e : Rep) → lookup k reps ≡ some e → IsWithin e.reputation

-- The reputation is the first of the four fields.
rest-same :
    (n m : Result ℕ) (t : Result Double) (r : Double) (e : Rep)
    → (do
      a ← n
      b ← m
      x ← t
      ok (record { reputation = r; confirmed = a; discrepancy = b; updated = x }))
      ≡ ok e
    → e.reputation ≡ r
rest-same (ok a) (ok b) (ok x) r e h = ap (λ y. y.reputation) (sym (ok-injective h))
rest-same (ok a) (ok b) (err x) r e h = cc
rest-same (ok a) (err x) t r e h = cc
rest-same (err x) m t r e h = cc

after_rate : Rates → Fields → Double → Result Rep
after_rate c d r = do
  n ← nonnegative_int (get_or (codes "confirmed") (int (pos 0)) d)
  m ← nonnegative_int (get_or (codes "discrepancy") (int (pos 0)) d)
  t ← finite_number (some zero_double) none (get_or (codes "updated") (float zero_double) d)
  ok (record { reputation = r; confirmed = n; discrepancy = m; updated = t })

after_rate-same :
    (c : Rates) (d : Fields) (r : Double) (e : Rep) → after_rate c d r ≡ ok e → e.reputation ≡ r
unfolding after_rate
after_rate-same c d r e h =
    rest-same (nonnegative_int (get_or (codes "confirmed") (int (pos 0)) d))
      (nonnegative_int (get_or (codes "discrepancy") (int (pos 0)) d))
      (finite_number (some zero_double) none (get_or (codes "updated") (float zero_double) d)) r e h

rep_of-IsWithin : (c : Rates) (d : Fields) (e : Rep) → rep_of c d ≡ ok e → IsWithin e.reputation
unfolding rep_of after_rate
rep_of-IsWithin c d e h =
    let v = get_or (codes "reputation") (float c.prior) d in
    let (r, read, rest) = >>=-eq-ok (rate v) (after_rate c d) h in
    let same : e.reputation ≡ r = after_rate-same c d r e rest in
    subst IsWithin (sym same) (within_at one_units v r read)

entry_of-IsWithin :
    (c : Rates) (k : Text) (v : Json) (e : Rep) → entry_of c k v ≡ ok e → IsWithin e.reputation
unfolding entry_of
entry_of-IsWithin c (a ∷ k) (obj d) e h = rep_of-IsWithin c d e h
entry_of-IsWithin c _ _ e h = cc

if_some :
    (b : Bool) (e x : Rep) (o : Option Rep)
    → (if b then some e else o) ≡ some x
    → (x ≡ e) ⊎ (o ≡ some x)
if_some true e x o h = inl cc
if_some false e x o h = inr h

insert-IsRated :
    (k : Text) (e : Rep) (reps : Reps)
    → IsWithin e.reputation
    → IsRated reps
    → IsRated (insert k e reps)
unfolding IsRated
insert-IsRated k e reps h g j x found =
    elim (if_some (text_eq k j) e x (lookup j reps) (sym (lookup-insert k j e reps) ∙ found)) [
      | inl same ↦ subst IsWithin (ap (λ y. y.reputation) (sym same)) h
      | inr there ↦ g j x there
    ]

normalise_from-IsRated :
    (c : Rates) (d : Fields) (out reps : Reps)
    → IsRated out
    → normalise_from c d out ≡ ok reps
    → IsRated reps
unfolding normalise_from
normalise_from-IsRated c end out reps g h = subst IsRated (ok-injective h) g
normalise_from-IsRated c (field k v d) out reps g h =
    let (e, made, rest) = >>=-eq-ok (entry_of c k v) (λ e. normalise_from c d (insert k e out)) h in
    normalise_from-IsRated c d (insert k e out) reps
      (insert-IsRated k e out (entry_of-IsWithin c k v e made) g) rest

load-IsRated : (c : Rates) (f : RepFile) (reps : Reps) → load c f ≡ ok reps → IsRated reps
unfolding load normalise_rep_state IsRated lookup
load-IsRated c absent reps h = subst IsRated (ok-injective h) (λ k e found. cc)
load-IsRated c (parsed (obj d)) reps h = normalise_from-IsRated c d [] reps (λ k e found. cc) h
load-IsRated c _ reps h = cc

or_new-IsWithin :
    (c : Rates) (reps : Reps) (o : Option Rep)
    → IsWithin c.prior
    → ((e : Rep) → o ≡ some e → IsWithin e.reputation)
    → IsWithin (or_new c.prior o).reputation
or_new-IsWithin c reps none g h = g
or_new-IsWithin c reps (some e) g h = h e refl

reputation_in-IsWithin :
    (c : Rates) (party : Text) (l : Result Reps) (r : Double)
    → IsWithin c.prior
    → ((reps : Reps) → l ≡ ok reps → IsRated reps)
    → reputation_in c party l ≡ ok r
    → IsWithin r
unfolding IsRated
reputation_in-IsWithin c party (ok reps) r g h e =
    subst IsWithin (ok-injective e)
      (or_new-IsWithin c reps (lookup party reps) g (h reps refl party))
reputation_in-IsWithin c party (err value_error) r g h e =
    subst IsWithin (ok-injective e) zero-IsWithin
reputation_in-IsWithin c party (err _) r g h e = cc

-- The reputation of any party is between 0 and 1, whatever the file holds.
pub reputation-IsWithin :
    (c : Rates) (f : RepFile) (party : Text) (r : Double)
    → IsWithin c.prior
    → reputation c f party ≡ ok r
    → IsWithin r
unfolding reputation
reputation-IsWithin c f party r g h =
    reputation_in-IsWithin c party (load c f) r g (load-IsRated c f) h
