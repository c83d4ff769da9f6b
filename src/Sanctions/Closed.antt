-- ===== src/Sanctions/Closed.antt =====
-- What a call leaves behind when it raises, and when the file cannot be read.
use kry.Base.{ℕ, ◌∷◌, ◌≡◌, refl, Bool, false}
use kry.Base.Int.{ℤ}
use kry.Base.Texts.{Text, codes, text_eq}
use kry.Base.Dicts.{lookup, insert}
use kry.Base.Results.{Result, ok, err, Error, value_error, overflow_error}
use kry.Double.{Double, is_finite, of_int}
use kry.Json.Values.{int, obj, Fields, field, get, get_or}
use kry.Python.{finite_or_overflow}
use kry.Sanctions.Store.{
  Rates, Rep, Reps, RepFile, parsed, RepWrite, replaced, lost, save, save_normalised, load,
  normalise_rep_state, reps_json, normalise_from, entry_of, rep_of, rate, finite_number, as_float,
}
use kry.Sanctions.Reputation.{
  returned, persist, outcome, or_new, record_loaded, record_reconciliation, reputation,
}

save_normalised-err :
    (w : RepWrite) (f : RepFile) (n : Result Reps) (r : Double) (x : Error)
    → (returned r (save_normalised w f n)).0 ≡ err x
    → (returned r (save_normalised w f n)).1 ≡ f
save_normalised-err replaced f (ok reps) r x h = cc
save_normalised-err lost f (ok reps) r x h = refl
save_normalised-err w f (err e) r x h = refl

persist-err :
    (c : Rates) (w : RepWrite) (party : Text) (reps : Reps) (f : RepFile) (o : Result Rep)
    (x : Error)
    → (persist c w party reps f o).0 ≡ err x
    → (persist c w party reps f o).1 ≡ f
unfolding persist save
persist-err c w party reps f (err e) x h = refl
persist-err c w party reps f (ok e) x h =
    save_normalised-err w f (normalise_rep_state c (obj (reps_json (insert party e reps))))
      e.reputation x h

record_loaded-err :
    (c : Rates) (w : RepWrite) (now : Double) (party : Text) (confirmed : Bool) (f : RepFile)
    (l : Result Reps) (x : Error)
    → (record_loaded c w now party confirmed f l).0 ≡ err x
    → (record_loaded c w now party confirmed f l).1 ≡ f
unfolding record_loaded
record_loaded-err c w now party confirmed f (ok reps) x h =
    persist-err c w party reps f (outcome c confirmed now (or_new c.prior (lookup party reps))) x h
record_loaded-err c w now party confirmed f (err value_error) x h = refl
record_loaded-err c w now party confirmed f (err _) x h = refl

-- A call that raises leaves the file as it was.
pub record_reconciliation_closed :
    (c : Rates) (w : RepWrite) (now : Double) (party : Text) (confirmed : Bool) (f : RepFile)
    (x : Error)
    → (record_reconciliation c w now party confirmed f).0 ≡ err x
    → (record_reconciliation c w now party confirmed f).1 ≡ f
unfolding record_reconciliation
record_reconciliation_closed c w now party confirmed f x h =
    record_loaded-err c w now party confirmed f (load c f) x h

overflowing : (n : ℤ) → is_finite (of_int n) ≡ false → rate (int n) ≡ err overflow_error
unfolding finite_number as_float finite_or_overflow
overflowing n h = rw h refl

-- A reputation that is an integer too large for a double makes every reputation raise OverflowError, and
-- not answer 0.0.
pub huge_reputation_raises :
    (c : Rates) (first : ℕ) (party other : Text) (n : ℤ) (d rest : Fields)
    → is_finite (of_int n) ≡ false
    → reputation c
        (parsed (obj (field (first ∷ party) (obj (field (codes "reputation") (int n) d)) rest)))
        other
      ≡ err overflow_error
unfolding reputation load normalise_rep_state normalise_from entry_of rep_of get_or get text_eq
huge_reputation_raises c first party other n d rest h = rw (overflowing n h) refl
