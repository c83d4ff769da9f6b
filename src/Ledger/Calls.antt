-- ===== src/Ledger/Calls.antt =====
-- The public calls on the ledger: `earn`, `spend`, `_keyed_debit`, `debit_kry`, and those that read a
-- durable snapshot.
use kry.Base.{
  ◌*◌, ◌==◌, Bool, true, false, ◌&&◌, ◌||◌, not, if◌then◌else◌, Option, none, some, List, [], ◌∷◌,
  ◌++◌,
}
use kry.Base.Int.{ℤ, eqb_ℤ}
use kry.Base.Texts.{Text, codes}
use kry.Base.Results.{Result, Error, err, ok, value_error, persistence_error}
use kry.Base.Results
use kry.Double.{Double, add, lt, le, negate, zero_double, one_units}
use kry.Json.Values.{Json, int}
use kry.Ledger.Prices.{finite_number, net_value_multiplier, earned_kry}
use kry.Ledger.Book.{
  Event, Totals, Kind, spend_kind, debit_kind, Document, Ledger, finite, nonnegative,
}
use kry.Ledger.World.{M, pure, get, set_ledger, ◌>>=◌, ◌>>◌, catching}
use kry.Ledger.Saving.{Moment, refresh_locked, commit_operation, operation_locked}

-- What a keyed debit is for: the parameters that its hash binds.
pub data Purpose : Type 0 where
  spending : (model : Text) → (output_tokens : Double) → (detail : Text) → Purpose
  debiting : Double → Purpose

-- The interpreter's and the hash's part: `str.strip`, `str.lower`, f"{x:.2f}", f"{n}", and SHA-256 of the
-- JSON text of the parameters.
pub record Interpreter : Type 0 where
  pub strip : Text → Text
  pub lower : Text → Text
  pub two_places : Double → Text
  pub spelled : Json → Text
  pub params_sha256 : Purpose → Text

abbrev pub kind_of : Purpose → Kind
kind_of (spending model tokens detail) = spend_kind
kind_of (debiting amount) = debit_kind

-- `max(0.0, x)` and `min(x, y)`
unfoldable pub max_zero : Double → Double
max_zero x = if lt zero_double x then x else zero_double

unfoldable pub min_of : Double → Double → Double
min_of x y = if lt y x then y else x

-- `value != number` of an int and the double nearest to it.
unfoldable pub is_inexact : Json → Double → Bool
is_inexact (int (ℤ.pos n)) (Double.fin a) = not (eqb_ℤ a (ℤ.pos (n * one_units)))
is_inexact (int n) d = true
is_inexact v d = false

-- `_operation_number`
unfoldable pub operation_number : Json → Result Double
unfolding finite_number is_inexact
operation_number v =
    kry.Base.Results.◌>>=◌ (finite_number true v)
      (λ (d : Double). if is_inexact v d then err value_error else ok d)

-- `detail or f"{output_tokens} output tokens"`
abbrev pub or_tokens : Text → Text → Text
or_tokens [] tokens = tokens ++ codes " output tokens"
or_tokens (c ∷ s) tokens = c ∷ s

-- What `earn` writes under an avoided model.
abbrev pub earned_detail : Interpreter → Text → Option Text → Option Text → Text
earned_detail h detail none served = detail
earned_detail h detail (some []) served = detail
earned_detail h detail (some (c ∷ avoided)) served =
    detail
    ++ (codes " [avoided="
        ++ ((c ∷ avoided)
            ++ (codes ",x"
                ++ (h.two_places (net_value_multiplier h.lower (some (c ∷ avoided)) served)
                    ++ codes "]"))))

unfoldable pub add_event : Event → Ledger → Ledger
add_event e l = record l { events = l.events ++ (e ∷ []) }

unfoldable pub totals_set : Double → Double → Double → Ledger → Ledger
totals_set b e x l = record l { totals = record { balance = b; earned = e; spent = x } }

abbrev pub amount_if : Bool → Double → Double
amount_if true d = d
amount_if false d = zero_double

module _ (h : Interpreter) (m : Moment) where
  -- Change the ledger, and save it: the amount, or 0.0 when the change was taken back.
  unfoldable pub recorded_body : (Ledger → Ledger) → Double → Document → M Double
  unfolding commit_operation
  recorded_body change amount before = do
    s ← get
    set_ledger (change s.ledger)
    is_durable ← commit_operation h.strip m before
    pure (amount_if is_durable amount)

  unfoldable pub recorded : (Ledger → Ledger) → Double → M Double
  unfolding operation_locked recorded_body
  recorded change amount = operation_locked h.strip (recorded_body change amount)

  abbrev pub earn_event : Double → Text → Text → Event
  earn_event amount source detail = record {
    ts = m.now;
    kind = codes "earn";
    source = source;
    amount = amount;
    detail = detail;
    tx_id = m.tx_id;
  }

  abbrev pub spend_event : Double → Text → Text → Event
  spend_event amount source detail = record {
    ts = m.now;
    kind = codes "spend";
    source = source;
    amount = negate amount;
    detail = detail;
    tx_id = m.tx_id;
  }

  -- The new totals of an earning; `except ValueError: return 0.0`.
  unfoldable pub credit_from : Text → Text → Double → Result (Double × Double) → M Double
  unfolding recorded add_event totals_set
  credit_from source detail amount (err x) = pure zero_double
  credit_from source detail amount (ok (balance, earned)) =
      recorded
        (λ l.
          add_event (earn_event amount source detail) (totals_set balance earned l.totals.spent l))
        amount

  unfoldable pub credited_totals : Double → Totals → Result (Double × Double)
  unfolding add
  credited_totals amount t = kry.Base.Results.◌>>=◌ (finite (add t.balance amount)) (λ (b : Double).
      kry.Base.Results.◌>>=◌ (nonnegative (add t.earned amount)) (λ (e : Double). ok (b, e)))

  unfoldable pub credit : Text → Text → Double → M Double
  unfolding credit_from credited_totals
  credit source detail amount = do
    s ← get
    credit_from source detail amount (credited_totals amount s.ledger.totals)

  -- `try: ledger._refresh_locked()  except Exception: return 0.0`, then the rest.
  unfoldable pub if_refreshed : M Double → Bool → M Double
  if_refreshed rest true = rest
  if_refreshed rest false = pure zero_double

  unfoldable pub refreshed : M Bool
  unfolding refresh_locked
  refreshed = catching (do refresh_locked h.strip m; pure true) (λ x. pure false)

  unfoldable pub earn_amount : Text → Text → Double → M Double
  unfolding if_refreshed refreshed credit
  earn_amount source detail amount = do
    is_current ← refreshed
    if_refreshed (credit source detail amount) is_current

  -- `earn`
  unfoldable pub earn : Json → Text → Text → Option Text → Option Text → M Double
  unfolding earn_amount earned_kry le
  earn tokens event detail avoided served =
      if le (earned_kry h.lower tokens event avoided served) zero_double
      then pure zero_double
      else earn_amount event (earned_detail h detail avoided served)
          (earned_kry h.lower tokens event avoided served)
