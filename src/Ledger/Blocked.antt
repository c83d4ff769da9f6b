-- ===== src/Ledger/Blocked.antt =====
-- A ledger whose recovery is required moves nothing.
use kry.Base.{◌≡◌, refl, Bool, true, false, Option, none, if◌then◌else◌}
use kry.Base.Texts.{Text}
use kry.Base.Results.{ok, err, persistence_error}
use kry.Double.{Double, le, eq, zero_double}
use kry.Json.Values.{Json}
use kry.Ledger.Prices.{earned_kry}
use kry.Ledger.Cost.{spend_cost}
use kry.Ledger.Book.{validate_op_id}
use kry.Ledger.World.{World, M, pure, lift, get, fail_if, after, ◌>>=◌, handle, catching}
use kry.Ledger.Reading.{read_locked}
use kry.Ledger.Saving.{Moment, refresh_locked}
use kry.Ledger.Calls.{Interpreter, Purpose, if_refreshed, refreshed, earn_amount, earn}
use kry.Ledger.Debits.{spend_amount, spend_unkeyed, spend, keyed_debit}

either_zero :
    (b : Bool) (rest : M Double) (s : World)
    → rest s ≡ (ok zero_double, s)
    → (if b then pure zero_double else rest) s ≡ (ok zero_double, s)
unfolding pure
either_zero true rest s h = refl
either_zero false rest s h = h

module _ (h : Interpreter) (m : Moment) (s : World)
    (required : s.ledger.recovery_required ≡ true) where
  refreshed_blocked : refreshed h m s ≡ (ok false, s)
  unfolding refreshed refresh_locked read_locked catching handle ◌>>=◌ after get fail_if pure
  refreshed_blocked = rw required refl

  earn_amount_blocked :
      (source detail : Text) (v : Double) → earn_amount h m source detail v s ≡ (ok zero_double, s)
  unfolding earn_amount ◌>>=◌ after if_refreshed pure
  earn_amount_blocked source detail v = rw refreshed_blocked refl

  spend_amount_blocked :
      (model detail : Text) (v : Double) → spend_amount h m model detail v s ≡ (ok zero_double, s)
  unfolding spend_amount ◌>>=◌ after if_refreshed pure
  spend_amount_blocked model detail v = rw refreshed_blocked refl

  earn_blocked :
      (tokens : Json) (event detail : Text) (avoided served : Option Text)
      → earn h m tokens event detail avoided served s ≡ (ok zero_double, s)
  unfolding earn
  earn_blocked tokens event detail avoided served =
      either_zero (le (earned_kry h.lower tokens event avoided served) zero_double) _ s
        (earn_amount_blocked event _ (earned_kry h.lower tokens event avoided served))

  spend_blocked :
      (model : Text) (output_tokens : Json) (detail : Text) (cost : Double)
      → spend_cost model output_tokens ≡ ok cost
      → spend h m model output_tokens detail none s ≡ (ok zero_double, s)
  unfolding spend spend_unkeyed ◌>>=◌ after lift
  spend_blocked model output_tokens detail cost priced =
      rw priced (either_zero (eq cost zero_double) _ s (spend_amount_blocked model _ cost))

  keyed_debit_blocked :
      (k j : Text) (q : Purpose)
      → validate_op_id h.strip k ≡ ok j
      → keyed_debit h m k q s ≡ (err persistence_error, s)
  unfolding keyed_debit read_locked catching handle ◌>>=◌ after get fail_if lift
  keyed_debit_blocked k j q valid = rw (valid, required) refl

-- While recovery is required an `earn` and a priced `spend` without an id return 0.0, a debit under a
-- valid id raises LedgerPersistenceError, and each leaves the ledger and the files as they are, whatever
-- the disk does.
pub required_moves_nothing :
    (h : Interpreter) (m : Moment) (s : World) (tokens : Json) (event detail : Text)
    (avoided served : Option Text) (model : Text) (cost : Double) (k j : Text) (q : Purpose)
    → s.ledger.recovery_required ≡ true
    → spend_cost model tokens ≡ ok cost
    → validate_op_id h.strip k ≡ ok j
    → (earn h m tokens event detail avoided served s ≡ (ok zero_double, s))
      × (spend h m model tokens detail none s ≡ (ok zero_double, s))
      × (keyed_debit h m k q s ≡ (err persistence_error, s))
required_moves_nothing h m s tokens event detail avoided served model cost k j q required priced
      valid =
    (
      earn_blocked h m s required tokens event detail avoided served,
      spend_blocked h m s required model tokens detail cost priced,
      keyed_debit_blocked h m s required k j q valid,
    )
